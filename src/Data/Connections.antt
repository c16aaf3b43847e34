-- ===== src/Data/Connections.antt =====
-- internal/grpc/data/connections.go: the open files and the map of connections. The mutex makes each
-- operation atomic; the cleaner's goroutine is an event. Connections are shared by pointer, so a
-- change of one is an insertion under its identifier.
pub mod Laws
pub mod Space
use mhserver.Common.{
  ℕ, ◌+◌, ◌*◌, ◌%◌, Bool, true, false, not, Option, none, some, List, [], ◌∷◌, Text, ltb, leb,
  length, if◌then◌else◌, ◌==◌,
}
use mhserver.Common.Dict.{Dict, lookup, insert, delete_where, nat_eq}
use mhserver.Common.Time.{second, unix}
use mhserver.Common.Words.{u32_mod, add64, mul64, sub32}
use mhserver.Os.{Os}

abbrev pub Uuid : Type 0
Uuid = ℕ

-- The enum of proto/data/data.proto is open: any int32 may arrive.
pub data ConnectionMode : Type 0 where
  rdonly rdwr : ConnectionMode
  unknown : ℕ → ConnectionMode

abbrev pub is_rdonly : ConnectionMode → Bool
is_rdonly rdonly = true
is_rdonly rdwr = false
is_rdonly (unknown n) = false

abbrev pub is_rdwr : ConnectionMode → Bool
is_rdwr rdonly = false
is_rdwr rdwr = true
is_rdwr (unknown n) = false

abbrev pub file_lifetime : ℕ
file_lifetime = 2 * 60 * second

pub record ChunksInfo : Type 0 where
  pub chunk_size : ℕ
  pub count : ℕ
  pub loaded : ℕ

abbrev pub new_chunks_info : ℕ → ℕ → ChunksInfo
new_chunks_info c_size c_count = record { chunk_size = c_size; count = c_count; loaded = 0 }

-- `handle` is none for a nil *os.File.
pub record File (H : Type 0) : Type 0 where
  pub handle : Option H
  pub path : Text
  pub chunks : ChunksInfo

pub record Connection (H : Type 0) : Type 0 where
  pub mode : ConnectionMode
  pub file : File H
  pub expiration : ℕ

abbrev pub Connections : Type 0 → Type 0
Connections H = Dict Uuid (Connection H)

-- `uint32` counters: one more, with the wrap-around.
abbrev pub one_more : ChunksInfo → ChunksInfo
one_more c = record c { loaded = (c.loaded + 1) % u32_mod }

module _ {H : Type 0} where
  unfoldable pub is_loaded : File H → Bool
  is_loaded f = leb f.chunks.count f.chunks.loaded

  unfoldable pub new_connection : ℕ → File H → ConnectionMode → Connection H
  new_connection now file mode = record {
    mode = mode;
    file = file;
    expiration = unix (now + file_lifetime);
  }

  unfoldable pub is_expired : ℕ → Connection H → Bool
  is_expired now p = ltb p.expiration (unix now)

  unfoldable pub update_expiration : ℕ → Connection H → Connection H
  update_expiration now p = record p { expiration = unix (now + file_lifetime) }

  -- `Push`, with the identifier that `uuid.New` returned.
  unfoldable pub push : Uuid → Connection H → Connections H → Connections H
  push id conn m = insert id conn m

  unfoldable pub get : Uuid → ℕ → Connections H → Option (Connection H × Connections H)
  unfolding update_expiration
  get id now m = elim (lookup id m) [
    | none ↦ none
    | some info ↦ let info' = update_expiration now info in some (info', insert id info' m)
  ]

  -- `none` is ErrFileNotFound.
  unfoldable pub update_loaded_file_chunks : Uuid → ℕ → Connections H → Option (Connections H)
  unfolding update_expiration
  update_loaded_file_chunks id now m = elim (lookup id m) [
    | none ↦ none
    | some info ↦
        let loaded = record info {
          file = record (info.file) { chunks = one_more (info.file.chunks) };
        } in
        some (insert id (update_expiration now loaded) m)
  ]

  unfoldable pub count_active : Connections H → ℕ
  count_active m = let map_ln = length m in if map_ln == 0 then 1 else map_ln

  -- One round of the loop of `ExpectedSavedSpace`, with uint64 and uint32 arithmetic.
  abbrev pub unsaved : Connection H → ℕ
  unsaved conn =
      mul64 conn.file.chunks.chunk_size (sub32 conn.file.chunks.count conn.file.chunks.loaded)

  unfoldable pub saved_from : ℕ → Connections H → ℕ
  saved_from res [] = res
  saved_from res ((_, conn) ∷ m) =
      saved_from (if not (is_rdonly conn.mode) then add64 res (unsaved conn) else res) m

  unfoldable pub expected_saved_space : Connections H → ℕ
  unfolding saved_from
  expected_saved_space m = saved_from 0 m

module _ (os : Os) where
  close_file : Option os.Handle → os.World → os.World
  close_file none w = w
  close_file (some h) w = os.close h w

  close_expired : ℕ → Connections os.Handle → os.World → os.World
  unfolding close_file is_expired
  close_expired now [] w = w
  close_expired now ((_, conn) ∷ m) w =
      close_expired now m (if is_expired now conn then close_file conn.file.handle w else w)

  -- The loop of `clean` closes and deletes each expired connection.
  unfoldable pub clean : ℕ → Connections os.Handle → os.World → Connections os.Handle × os.World
  unfolding close_expired is_expired
  clean now m w = (delete_where (is_expired now) m, close_expired now m w)
