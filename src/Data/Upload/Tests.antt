-- ===== src/Data/Upload/Tests.antt =====
-- A file of six bytes, sent backwards in two chunks.
use mhserver.Common.{
  ℕ, zero, suc, ◌*◌, ◌≤◌, ◌<◌, ◌≡◌, refl, true, none, List, [], ◌∷◌, codes, arith, err, length,
  ℕ_discrete,
}
use mhserver.Common.Dict.{lookup, text_eq}
use mhserver.Os.Memory.{
  memory_os-HasFiles, memory_os-IsWorking, contents-memory_os, usable-memory_os, largest-memory_os,
  contents_of,
}
use mhserver.Data.Errors.{unexpected_file_change}
use mhserver.Data.Sample.{env, server, saving}
use mhserver.Data.Service.{run}
use mhserver.Data.Transfer.{save_data}
use mhserver.Data.Upload.{Turn, saves}
use mhserver.Data.Upload.Chunks.{is_sent}
use mhserver.Data.Upload.Contents.{Receives, uploaded}

abbrev bytes : List ℕ
bytes = 9 ∷ 8 ∷ 7 ∷ 6 ∷ 5 ∷ 4 ∷ []

abbrev backwards : List Turn
backwards =
    record { number = 1; now = 0; later = 1 } ∷ record { number = 0; now = 1; later = 2 } ∷ []

all_sent : (k : ℕ) → 4 * k < length bytes → is_sent k backwards ≡ true
all_sent zero h = refl
all_sent (suc zero) h = refl
all_sent (suc (suc k)) h = absurd (omega arith)

server-Receives : Receives env (codes "|") 1 4 3 1 (codes "/w/bob/files/a") server
unfolding lookup ℕ_discrete
server-Receives = record {
  conn = saving;
  room = refl;
  parsed = refl;
  found = refl;
  for_saving = refl;
  opened = refl;
  sized = refl;
  counts = refl;
  has_loaded = refl;
}

few_bytes : length (contents_of (codes "/w/bob/files/a") server.world) ≡ 4
unfolding lookup text_eq
few_bytes = refl

short : length (memory_os-HasFiles.contents (codes "/w/bob/files/a") server.world) ≤ length bytes
short = rw (contents-memory_os (codes "/w/bob/files/a") server.world) (omega (arith, few_bytes))

uploaded_example :
    let s' = run env (saves (codes "|") 4 bytes backwards) server in
    let r = save_data env 3 4 (record { uuid = codes "|"; part = none }) s' in
    (memory_os-HasFiles.contents (codes "/w/bob/files/a") s'.world ≡ bytes)
    × (r.1 ≡ err unexpected_file_change)
    × (memory_os-HasFiles.contents (codes "/w/bob/files/a") r.0.world ≡ bytes)
uploaded_example =
    uploaded env memory_os-HasFiles memory_os-IsWorking (codes "|") 1 4 3 (codes "/w/bob/files/a")
      bytes (omega arith) (omega arith) (omega arith) (omega arith)
      (omega (arith, largest-memory_os)) backwards 1 server 3 4 none server-Receives
      (usable-memory_os (codes "/w/bob/files/a") server.world) short
      (omega arith, (omega arith, tt)) all_sent refl
