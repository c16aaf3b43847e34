-- ===== src/Data/Download/Tests.antt =====
-- A file of nine bytes, sent out of order to a new connection and got back.
use mhserver.Common.{ℕ, ◌*◌, refl, List, [], ◌∷◌, Text, codes, arith}
use mhserver.Common.Dict.{lookup, insert, text_eq}
use mhserver.Os.Memory.{memory_os, Files}
use mhserver.Regex.{match_string}
use mhserver.Dirs.{get_data_path}
use mhserver.Data.Chunks.{chunk_size_of, chunks_count_of, file_based}
use mhserver.Data.Connections.{rdonly, rdwr, expected_saved_space, saved_from, push, new_connection}
use mhserver.Data.Messages.{ConnectionRequest}
use mhserver.Data.Opening.{create_connection, open_file, register_connection}
use mhserver.Data.Opening.Admission.{IsTested}
use mhserver.Data.Sample.{env, server, disk_files, log2_below}
use mhserver.Data.Server.{DataServer, new_data_server_config}
use mhserver.Data.Upload.{Turn}

abbrev to_save_c : ConnectionRequest
to_save_c = record {
  mode = rdwr;
  username = codes "bob";
  directory = codes "/";
  filename = codes "c";
  size = 9;
}

abbrev path : Text
path = codes "/w/bob/files/c"

abbrev bytes : List ℕ
bytes = 9 ∷ 8 ∷ 7 ∷ 6 ∷ 5 ∷ 4 ∷ 3 ∷ 2 ∷ 1 ∷ []

abbrev last_first : List Turn
last_first =
    record { number = 2; now = 0; later = 1 }
    ∷ record { number = 0; now = 1; later = 2 }
    ∷ record { number = 1; now = 2; later = 3 }
    ∷ []

abbrev times : List ℕ
times = 4 ∷ 5 ∷ 6 ∷ []

abbrev with_c : Files
with_c = insert path [] disk_files

runs : Unit {0}
unfolding create_connection open_file register_connection get_data_path match_string file_based
    log2_below lookup insert text_eq expected_saved_space saved_from chunk_size_of chunks_count_of
    new_data_server_config push new_connection
runs = tt

unfoldable to_save_c-IsTested : IsTested env to_save_c (25 * 4096) server
unfolding runs
to_save_c-IsTested = record {
  dir = codes "/w/bob/files/";
  room = refl;
  accepted_dir = refl;
  accepted_name = refl;
  to_save = refl;
  not_empty = omega arith;
  space = refl;
}

-- The same file on the disk of a server, and a request to read it.
abbrev on_disk : Files
on_disk = insert path bytes disk_files

abbrev with_file : DataServer memory_os
with_file = record server { world = on_disk }

abbrev to_read_c : ConnectionRequest
to_read_c = record to_save_c { mode = rdonly; size = 0 }
