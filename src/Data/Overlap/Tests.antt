-- ===== src/Data/Overlap/Tests.antt =====
-- Calls of SaveData that overlap on the server of Sample.
use mhserver.Common.{
  ◌+◌, ◌-◌, ◌≤◌, ◌<◌, ◌≡◌, refl, some, [], ◌∷◌, Text, codes, arith, ok, length, ℕ_discrete, ◌>>=◌,
}
use mhserver.Common.Dict.{lookup, insert, nat_eq}
use mhserver.Common.Words.{u32_mod, mul64}
use mhserver.Os.Memory.{
  memory_os, memory_os-HasFiles, memory_os-IsWorking, usable-memory_os, largest-memory_os,
}
use mhserver.Os.{patch}
use mhserver.Data.Connections.{Connection, get, is_loaded, update_expiration, unsaved}
use mhserver.Data.Messages.{FilePart, SaveChunk}
use mhserver.Data.Server.{DataServer}
use mhserver.Data.Transfer.{save_data}
use mhserver.Data.Sample.{env, server, saving, reading, open_connections-IsValid}
use mhserver.Data.Overlap.{Shared, Pending, here, next, begins, begin, finish}
use mhserver.Data.Overlap.Halves.{begin-finish}
use mhserver.Data.Overlap.Bound.{waiting, overlap_bounded}
use mhserver.Data.Overlap.LastChunk.{IsOpen, held, last_chunk_twice}

abbrev a_part : FilePart
a_part = record { chunk = 5 ∷ 6 ∷ []; offset = 8 }

abbrev a_chunk : SaveChunk
a_chunk = record { uuid = codes "|"; part = some a_part }

begin-finish_test : (begin env 0 a_chunk >>= finish env 1) server ≡ save_data env 0 1 a_chunk server
begin-finish_test = begin-finish env 0 1 a_chunk server

abbrev a_pending : Pending env
a_pending = record { id = 1; handle = some (codes "/w/bob/files/a"); part = a_part }

begun : (begin env 0 a_chunk server).1 ≡ ok a_pending
unfolding begin lookup insert get is_loaded update_expiration ℕ_discrete
begun = refl

abbrev while_pending : Shared env
while_pending = record { server = (begin env 0 a_chunk server).0; pending = a_pending ∷ [] }

still_there : lookup 1 while_pending.server.active_connections ≡ some (update_expiration 0 saving)
unfolding begin lookup insert get is_loaded update_expiration ℕ_discrete
still_there = refl

overlap_bounded_example :
    (saving.file.chunks.loaded + waiting env 1 while_pending.pending < saving.file.chunks.count + 2)
    × (length while_pending.pending ≤ 2)
unfolding update_expiration
overlap_bounded_example =
    overlap_bounded env (record { server = server; pending = [] }) while_pending 1
      (update_expiration 0 saving) open_connections-IsValid refl refl (omega arith)
      (next here (begins 0 a_chunk a_pending begun refl refl)) still_there

abbrev b_part : FilePart
b_part = record { chunk = 7 ∷ []; offset = 8 }

abbrev b_chunk : SaveChunk
b_chunk = record { uuid = codes "|"; part = some b_part }

abbrev almost : Connection Text
almost = record saving {
  file = record (saving.file) { chunks = record (saving.file.chunks) { loaded = 2 } };
}

abbrev almost_full : DataServer memory_os
almost_full = record server { active_connections = (1, almost) ∷ (2, reading) ∷ [] }

almost_full-IsOpen : IsOpen env (codes "|") 1 (codes "/w/bob/files/a") almost almost_full
unfolding lookup ℕ_discrete
almost_full-IsOpen = record { parsed = refl; found = refl; for_saving = refl; opened = refl }

last_chunk_twice_example :
    let b1 = begin env 0 a_chunk almost_full in
    let b2 = begin env 1 b_chunk b1.0 in
    let e1 = finish env 2 (held env 1 (codes "/w/bob/files/a") a_part) b2.0 in
    let e2 = finish env 3 (held env 1 (codes "/w/bob/files/a") b_part) e1.0 in
    (b1.1 ≡ ok (held env 1 (codes "/w/bob/files/a") a_part))
    × (b2.1 ≡ ok (held env 1 (codes "/w/bob/files/a") b_part))
    × (e1.1 ≡ ok tt)
    × (e2.1 ≡ ok tt)
    × (memory_os-HasFiles.contents (codes "/w/bob/files/a") e2.0.world
        ≡ patch
            (patch
              (memory_os-HasFiles.contents (codes "/w/bob/files/a") almost_full.world)
              8
              (5 ∷ 6 ∷ []))
            8
            (7 ∷ []))
    × (c : Connection Text) × (lookup 1 e2.0.active_connections ≡ some c)
    × (c.file.chunks.count ≡ 3)
    × (c.file.chunks.loaded ≡ c.file.chunks.count + 1)
    × (unsaved c ≡ mul64 4 (u32_mod - 1))
last_chunk_twice_example =
    last_chunk_twice env memory_os-HasFiles memory_os-IsWorking (codes "|") 1
      (codes "/w/bob/files/a") almost almost_full a_part b_part 0 1 2 3 almost_full-IsOpen
      (usable-memory_os (codes "/w/bob/files/a") almost_full.world)
      (omega arith, omega arith, omega arith) (omega arith, omega arith, omega arith) (omega arith)
      (omega arith) (omega (arith, largest-memory_os)) (omega (arith, largest-memory_os)) refl
      (omega arith) (omega arith)
