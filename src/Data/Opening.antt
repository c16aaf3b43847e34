-- ===== src/Data/Opening.antt =====
-- CreateConnection of internal/grpc/data/server.go.
pub mod Registration
pub mod Admission
use mhserver.Common.{
  ℕ, not, Option, none, some, ◌++◌, Text, ltb, ◌==◌, ok, ◌>>=◌, ◌>>◌, done, guard,
}
use mhserver.Common.Words.{sub64}
use mhserver.Regex.{match_string}
use mhserver.Dirs.{filename_regexp}
use mhserver.Data.Chunks.{chunk_size_of, chunks_count_of}
use mhserver.Data.Connections.{
  Uuid, ConnectionMode, rdonly, rdwr, unknown, File, new_chunks_info, new_connection, push,
  expected_saved_space,
}
use mhserver.Data.Errors.{
  dir_not_found, bad_filename_syntax, null_size_to_save, not_enough_disk_space, file_not_exist,
  internal,
}
use mhserver.Data.Messages.{ConnectionRequest, ConnectionReply}
use mhserver.Data.Server.{
  Env, Call, with_semaphore, with_world, of_result, data_path, missing, get_available_disk_space,
}

module _ (env : Env) where
  -- The switch on `req.Mode` in CreateConnection: the open file and the size of its content.
  abbrev open_to_read : Text → Call env (Option env.os.Handle × ℕ)
  open_to_read file_path = do
    opened ← with_world env (env.os.open_rdonly file_path)
    handle ← of_result env (missing file_not_exist) opened
    now_size ← with_world env (λ w. (w, env.os.stat_size handle w))
    size ← of_result env (λ _. internal) now_size
    done (some handle, size)

  abbrev open_to_save : ℕ → Text → Call env (Option env.os.Handle × ℕ)
  open_to_save size file_path = do
    guard (not (size == 0)) null_size_to_save
    space ← λ s. (s, ok (get_available_disk_space env s.cfg.workspace_path s.world))
    disk_space ← of_result env (λ _. internal) space
    reserved ← λ s. (s, ok (expected_saved_space s.active_connections))
    guard (not (ltb (sub64 disk_space reserved) size)) not_enough_disk_space
    opened ← with_world env (env.os.open_create file_path)
    handle ← of_result env (missing dir_not_found) opened
    done (some handle, size)

  unfoldable pub open_file : ConnectionMode → ℕ → Text → Call env (Option env.os.Handle × ℕ)
  unfolding get_available_disk_space
  open_file rdonly size file_path = open_to_read file_path
  open_file rdwr size file_path = open_to_save size file_path
  open_file (unknown n) size file_path = done (none, 0)

  -- From the chunk size on: the connection is registered and described.
  unfoldable pub register_connection :
      Uuid → ℕ → ConnectionMode → Text → Option env.os.Handle × ℕ → Call env ConnectionReply
  register_connection id now mode file_path (handle, file_size) s =
      let chunk_size = chunk_size_of env.floats s.cfg.memory file_size in
      let chunks_count = chunks_count_of env.floats file_size chunk_size in
      let file : File env.os.Handle = record {
        handle = handle;
        path = file_path;
        chunks = new_chunks_info chunk_size chunks_count;
      } in
      (
        record s {
          active_connections = push id (new_connection now file mode) s.active_connections;
        },
        ok (record {
          uuid = env.uuid_text id;
          chunk_size = chunk_size;
          chunks_count = chunks_count;
        }),
      )

  unfoldable pub create_connection : Uuid → ℕ → ConnectionRequest → Call env ConnectionReply
  unfolding with_semaphore
  create_connection id now req = with_semaphore env do
    dir ← data_path env req.username req.directory
    guard (match_string (filename_regexp env.unicode) req.filename) bad_filename_syntax
    let file_path = dir ++ req.filename
    opened ← open_file req.mode req.size file_path
    register_connection id now req.mode file_path opened
