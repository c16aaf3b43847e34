-- ===== src/Data/Sample.antt =====
-- A data server over the file system in memory, with two open connections: what the tests run on.
use mhserver.Common.{
  ℕ_discrete, refl, List, ℕ, zero, suc, ◌+◌, ◌-◌, ◌*◌, ◌/◌, ◌%◌, ◌≡◌, ◌&&◌, ◌||◌, [], ◌∷◌, Text,
  codes, arith, if◌then◌else◌, leb, ltb, length, replicate, Option, none, some, take,
}
use mhserver.Common.Dict.{lookup, nat_eq, text_eq}
use mhserver.Common.Words.{u32_mod, u64_mod}
use mhserver.Config.{MemoryConfig}
use mhserver.Os.Memory.{Files, memory_os}
use mhserver.Dirs.{Unicode}
use mhserver.Data.Chunks.{Floats, HasExactQuotients}
use mhserver.Data.Connections.{Connection, Connections, rdonly, rdwr}
use mhserver.Data.Connections.Laws.{IsValid}
use mhserver.Data.Transfer.RoundTrip.{CanSave}
use mhserver.Data.Server.{Env, DataServer, new_data_server_config}

-- Fractions, and the logarithm rounded down.
unfoldable pub log2_below : ℕ → ℕ → ℕ
log2_below zero n = 0
log2_below (suc fuel) n = let rest = log2_below fuel (n / 2) in if ltb n 2 then 0 else suc rest

abbrev pub fractions : Floats
fractions = record {
  Float = ℕ × ℕ;
  of_u64 = λ n. (n, 1);
  to_u64 = λ q. (q.0 / q.1) % u64_mod;
  to_u32 = λ q. (q.0 / q.1) % u32_mod;
  add = λ p q. (p.0 * q.1 + q.0 * p.1, p.1 * q.1);
  mul = λ p q. (p.0 * q.0, p.1 * q.1);
  div = λ p q. (p.0 * q.1, p.1 * q.0);
  log2 = λ q. (log2_below 64 (q.0 / q.1), 1);
  ceil = λ q. ((q.0 + q.1 - 1) / q.1, 1);
}

pub fractions-HasExactQuotients : HasExactQuotients fractions
fractions-HasExactQuotients = record {
  ceil_div = λ a b p h k small.
      let ea : a * 1 ≡ a = omega arith in
      let eb : 1 * b ≡ b = omega arith in rw (ea, eb) (omega arith);
}

abbrev pub ascii : Unicode
ascii = record {
  is_letter = λ c. (leb b'a' c && leb c b'z') || (leb b'A' c && leb c b'Z');
  is_number = λ c. leb b'0' c && leb c b'9';
}

-- An identifier is written as so many strokes.
abbrev pub parse_strokes : Text → Option ℕ
parse_strokes [] = none
parse_strokes (c ∷ t) = some (suc (length t))

abbrev pub env : Env
env = record {
  os = memory_os;
  floats = fractions;
  unicode = ascii;
  parse_uuid = parse_strokes;
  uuid_text = λ n. replicate n b'|';
  sha256 = take 32;
}

abbrev pub memory : MemoryConfig
memory = record { allocated = 100; max_chunk_size = 8; min_chunk_size = 4 }

abbrev pub saving : Connection Text
saving = record {
  mode = rdwr;
  file = record {
    handle = some (codes "/w/bob/files/a");
    path = codes "/w/bob/files/a";
    chunks = record { chunk_size = 4; count = 3; loaded = 1 };
  };
  expiration = 120;
}

abbrev pub reading : Connection Text
reading = record {
  mode = rdonly;
  file = record {
    handle = some (codes "/w/bob/files/b");
    path = codes "/w/bob/files/b";
    chunks = record { chunk_size = 4; count = 1; loaded = 0 };
  };
  expiration = 120;
}

abbrev pub disk_files : Files
disk_files =
    (codes "/w/bob/files/a", 1 ∷ 2 ∷ 3 ∷ 4 ∷ []) ∷ (codes "/w/bob/files/b", 7 ∷ 8 ∷ 9 ∷ []) ∷ []

abbrev pub open_connections : Connections Text
open_connections = (1, saving) ∷ (2, reading) ∷ []

abbrev pub server : DataServer memory_os
server = record {
  cfg = new_data_server_config (codes "/w/") memory;
  active_connections = open_connections;
  sem = record { capacity = 2; in_use = 0 };
  world = disk_files;
}

pub open_connections-IsValid : IsValid open_connections
unfolding lookup
open_connections-IsValid = ground arith

abbrev pub whole_chunk : List ℕ
whole_chunk = 5 ∷ 6 ∷ 7 ∷ 8 ∷ []

unfoldable pub saving-CanSave : CanSave env (codes "|") 1 whole_chunk server
unfolding lookup ℕ_discrete
saving-CanSave = record {
  id = 1;
  conn = saving;
  handle = codes "/w/bob/files/a";
  room = refl;
  parsed = refl;
  found = refl;
  for_saving = refl;
  opened = refl;
  incomplete = omega arith;
  size_small = omega arith;
  offset_small = omega arith;
  not_empty = omega arith;
  fits = omega arith;
}
