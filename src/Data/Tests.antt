-- ===== src/Data/Tests.antt =====
-- Runs of the data service over a file system in memory, and its theorems at such states.
use Prim.Native.Nat.{max}
use mhserver.Common.{
  ◌+◌, ◌-◌, ◌*◌, ◌%◌, ◌≤◌, ◌<◌, ◌≡◌, refl, ◌≢◌, ◌↔◌, ◌⊎◌, inl, List, [], ◌∷◌, Text, codes, arith,
  if◌then◌else◌, leb, none, some, take, ok, err, true,
}
use mhserver.Common.Dict.{lookup, insert, delete_where, nat_eq, text_eq}
use mhserver.Common.Time.{unix, second}
use mhserver.Common.Words.{u32_mod, u64_mod}
use mhserver.Os.{patch}
use mhserver.Os.Memory.{
  memory_os, memory_os-HasFiles, memory_os-IsWorking, contents_of, usable-memory_os,
  largest-memory_os,
}
use mhserver.Dirs.{get_data_path}
use mhserver.Data.Chunks.{page, chunk_size_of, chunks_count_of}
use mhserver.Data.Chunks.Laws.{chunk_size_of_bounds, chunks_count_of_covers}
use mhserver.Data.Connections.{
  Connection, rdwr, file_lifetime, get, clean, is_expired, update_expiration, expected_saved_space,
  is_loaded, push, new_connection, saved_from,
}
use mhserver.Data.Connections.Laws.{IsValid, get-clean}
use mhserver.Data.Connections.Space.{unsaved_bytes, expected_saved_space_lem}
use mhserver.Data.Errors.{unexpected_file_change, not_enough_disk_space}
use mhserver.Data.Messages.{ConnectionRequest, ConnectionReply, SaveChunk, GetChunk, FilePart}
use mhserver.Data.Server.{DataServer, new_data_server_config}
use mhserver.Data.Opening.{create_connection, open_file, register_connection}
use mhserver.Data.Opening.Registration.{IsRegistered, create_connection_lem}
use mhserver.Data.Opening.Admission.{IsTested, refused_iff, overcommitted}
use mhserver.Data.Transfer.{get_data, get_sum, save_data}
use mhserver.Data.Transfer.Sums.{map_outcome, get_sum-get_data}
use mhserver.Data.Transfer.Saving.{IsLetThrough, save_data_guarded}
use mhserver.Data.Transfer.RoundTrip.{counted, save_data-get_data}
use mhserver.Data.Service.{Event, creates_connection, saves_data, gets_data, cleans, step, run}
use mhserver.Data.Service.Answers.{all_answered, run_answered}
use mhserver.Data.Service.Invariant.{step-sem, run-IsValid}
use mhserver.Regex.{match_string}
use mhserver.Data.Chunks.{file_based}
use mhserver.Data.Connections.{update_loaded_file_chunks}
use mhserver.Data.Sample.{
  log2_below, fractions, fractions-HasExactQuotients, env, memory, saving, disk_files,
  open_connections, server, open_connections-IsValid, whole_chunk, saving-CanSave,
}

data_runs : Unit {0}
unfolding create_connection open_file register_connection get_data get_sum save_data step run
    get_data_path match_string file_based log2_below update_loaded_file_chunks lookup insert
    delete_where text_eq get clean is_expired expected_saved_space saved_from chunk_size_of
    chunks_count_of new_data_server_config push new_connection is_loaded update_expiration
data_runs = tt

abbrev rest_of_a : SaveChunk
rest_of_a = record { uuid = codes "|"; part = some (record { chunk = 5 ∷ 6 ∷ []; offset = 4 }) }

abbrev to_save_c : ConnectionRequest
to_save_c = record {
  username = codes "bob";
  mode = rdwr;
  directory = codes "/";
  filename = codes "c";
  size = 9;
}

written_behind :
    contents_of (codes "/w/bob/files/a") (save_data env 0 0 rest_of_a server).0.world
    ≡ 1 ∷ 2 ∷ 3 ∷ 4 ∷ 5 ∷ 6 ∷ []
unfolding data_runs
written_behind = refl

read_only_is_kept :
    (save_data env 0 0 (record rest_of_a { uuid = codes "||" }) server).1
    ≡ err unexpected_file_change
unfolding data_runs
read_only_is_kept = refl

reply_to_c :
    (create_connection env 3 0 to_save_c server).1
    ≡ ok (record { uuid = codes "|||"; chunk_size = 4; chunks_count = 3 })
unfolding data_runs
reply_to_c = refl

nine_bytes_chunk :
    (0 < chunk_size_of fractions memory 9)
    × (chunk_size_of fractions memory 9 ≤ max 4 8)
    × ((chunk_size_of fractions memory 9 ≤ page) ⊎ (chunk_size_of fractions memory 9 % page ≡ 0))
nine_bytes_chunk = chunk_size_of_bounds fractions memory 9 (omega arith) (omega arith)

nine_fit : 9 ≤ (u32_mod - 1) * chunk_size_of fractions memory 9
unfolding data_runs
nine_fit = omega arith

chunks_count_of_covers_example :
    let size = chunk_size_of fractions memory 9 in
    let count = chunks_count_of fractions 9 size in (9 ≤ count * size) × ((count - 1) * size < 9)
chunks_count_of_covers_example =
    chunks_count_of_covers fractions memory 9 fractions-HasExactQuotients (omega arith)
      (omega arith) (omega arith) (omega arith) nine_fit

get-clean_test :
    lookup 1
      (clean memory_os
        (100 * second)
        (insert 1 (update_expiration second saving) open_connections)
        disk_files).0
    ≡ (if leb (unix (100 * second)) (unix (second + file_lifetime))
        then some (update_expiration second saving)
        else none)
unfolding data_runs
get-clean_test =
    get-clean memory_os 1 second (100 * second) open_connections
      (insert 1 (update_expiration second saving) open_connections)
      (update_expiration second saving) disk_files open_connections-IsValid refl

expected_saved_space_lem_test :
    expected_saved_space open_connections ≡ unsaved_bytes open_connections % u64_mod
expected_saved_space_lem_test =
    expected_saved_space_lem open_connections open_connections-IsValid
      ((omega arith, (omega arith, tt)))

abbrev second_of_a : GetChunk
second_of_a = record { uuid = codes "|"; chunk_id = 1 }

get_sum-get_data_example :
    ((get_sum env 0 second_of_a server).1
      ≡ map_outcome (λ (part : FilePart). take 32 part.chunk) (get_data env 0 second_of_a server).1)
    × ((get_sum env 0 second_of_a server).0 ≡ (get_data env 0 second_of_a server).0)
get_sum-get_data_example =
    get_sum-get_data env 0 second_of_a server (omega arith, (omega arith, tt)) (omega arith)

save_data_guarded_example :
    let s' = (save_data env 0 0 rest_of_a server).0 in
    (s'.world ≡ disk_files) ⊎ IsLetThrough env rest_of_a server s'
save_data_guarded_example = save_data_guarded env 0 0 rest_of_a server

save_data-get_data_example :
    let r =
      save_data env 0 0
        (record { uuid = codes "|"; part = some (record { chunk = whole_chunk; offset = 4 }) })
        server in
    (r.1 ≡ ok tt)
    × ((get_data env 0 (record { uuid = codes "|"; chunk_id = 1 }) r.0).1
        ≡ ok (record { chunk = whole_chunk; offset = 4 }))
    × (memory_os-HasFiles.contents (codes "/w/bob/files/a") r.0.world
        ≡ patch (memory_os-HasFiles.contents (codes "/w/bob/files/a") disk_files) 4 whole_chunk)
    × (lookup 1 r.0.active_connections ≡ some (counted env 0 saving))
unfolding saving-CanSave
save_data-get_data_example =
    save_data-get_data env memory_os-HasFiles memory_os-IsWorking 0 0 0 (codes "|") 1 whole_chunk
      server saving-CanSave (usable-memory_os (codes "/w/bob/files/a") disk_files) (omega arith)
      (omega (arith, largest-memory_os)) (inl refl)

step-sem_test :
    ((step env (saves_data 0 0 rest_of_a) server).sem ≡ server.sem)
    × ((step env (saves_data 0 0 rest_of_a) server).cfg ≡ server.cfg)
step-sem_test = step-sem env (saves_data 0 0 rest_of_a) server

abbrev history : List Event
history =
    saves_data 0 0 rest_of_a
    ∷ creates_connection 3 0 to_save_c
    ∷ gets_data second second_of_a
    ∷ cleans (130 * second)
    ∷ []

run-IsValid_example :
    IsValid (run env history server).active_connections
    × ((run env history server).sem ≡ server.sem)
run-IsValid_example = run-IsValid env history server open_connections-IsValid

run_answered_example : all_answered env history server ≡ true
unfolding new_data_server_config
run_answered_example =
    run_answered env history server refl (omega arith, (omega arith, (omega arith, tt))) refl

create_connection_lem_example :
    let r = create_connection env 3 0 to_save_c server in
    ((reply : ConnectionReply) × (r.1 ≡ ok reply) × IsRegistered env 3 0 to_save_c reply server r.0)
    ⊎ ((¬ ((reply : ConnectionReply) × (r.1 ≡ ok reply)))
        × (r.0.active_connections ≡ open_connections))
create_connection_lem_example = create_connection_lem env 3 0 to_save_c server

to_save_c-IsTested : IsTested env to_save_c (25 * 4096) server
unfolding data_runs
to_save_c-IsTested = record {
  dir = codes "/w/bob/files/";
  room = refl;
  accepted_dir = refl;
  accepted_name = refl;
  to_save = refl;
  not_empty = omega arith;
  space = refl;
}

reserved_8 : expected_saved_space open_connections ≡ 8
unfolding data_runs
reserved_8 = refl

refused_iff_example :
    let r = create_connection env 3 0 to_save_c server in
    ((r.1 ≡ err not_enough_disk_space) ↔ (25 * 4096 < expected_saved_space open_connections + 9))
    × ((r.1 ≢ err not_enough_disk_space)
        ⊎ ((r.0.world ≡ disk_files) × (r.0.active_connections ≡ open_connections)))
refused_iff_example =
    refused_iff env 3 0 (25 * 4096) to_save_c server to_save_c-IsTested (omega arith)
      (omega (arith, reserved_8))

-- The disk holds 102400 bytes and a file of 200000 is being saved.
abbrev large_file : Connection Text
large_file = record saving {
  file = record (saving.file) { chunks = record { chunk_size = 8; count = 25000; loaded = 0 } };
}

abbrev full_server : DataServer memory_os
full_server = record server { active_connections = (1, large_file) ∷ [] }

abbrev huge_file : ConnectionRequest
huge_file = record to_save_c { size = 1000000000000 }

huge_file-IsTested : IsTested env huge_file (25 * 4096) full_server
unfolding data_runs
huge_file-IsTested = record {
  dir = codes "/w/bob/files/";
  room = refl;
  accepted_dir = refl;
  accepted_name = refl;
  to_save = refl;
  not_empty = omega arith;
  space = refl;
}

reserved_200000 : expected_saved_space full_server.active_connections ≡ 200000
unfolding data_runs
reserved_200000 = refl

overcommitted_example :
    (create_connection env 3 0 huge_file full_server).1 ≢ err not_enough_disk_space
overcommitted_example =
    overcommitted env 3 0 (25 * 4096) huge_file full_server huge_file-IsTested
      (omega (arith, reserved_200000)) (omega (arith, reserved_200000))
      (omega (arith, reserved_200000))
