-- ===== src/Data/Folders.antt =====
-- GetAvailableDiskSpace, GetFiles, CreateDir and RemoveDir of internal/grpc/data/server.go.
use mhserver.Common.{ℕ, Option, none, some, List, map, codes, ok, ◌>>=◌, done, fail}
use mhserver.Common.Words.{sub64}
use mhserver.Os.{OsError, not_exist, exist, eof, other, DirEntry}
use mhserver.Data.Connections.{expected_saved_space}
use mhserver.Data.Errors.{dir_not_found, dir_already_exist, internal}
use mhserver.Data.Messages.{Directory, FileInfo}
use mhserver.Data.Server.{
  Env, Call, with_semaphore, with_world, of_result, or_internal, data_path,
  get_available_disk_space,
}

module _ (env : Env) where
  -- GetAvailableDiskSpace
  unfoldable pub available_space : Directory → Call env ℕ
  unfolding with_semaphore get_available_disk_space
  available_space dir = with_semaphore env do
    dir_path ← data_path env dir.user (codes "/")
    found ← λ s. (s, ok (get_available_disk_space env dir_path s.world))
    space ← of_result env (λ _. dir_not_found) found
    (λ s. (s, ok (sub64 space (expected_saved_space s.active_connections))))

  abbrev file_info : DirEntry → FileInfo
  file_info file = elim file.info [
    | none ↦ record { name = file.name; is_dir = file.is_dir; size = 0; mod_time = 0 }
    | some info ↦ record {
      name = file.name;
      is_dir = file.is_dir;
      size = info.0;
      mod_time = info.1;
    }
  ]

  unfoldable pub get_files : Directory → Call env (List FileInfo)
  unfolding with_semaphore
  get_files dir = with_semaphore env do
    dir_path ← data_path env dir.user dir.value
    found ← with_world env (λ w. (w, env.os.read_dir dir_path w))
    files ← of_result env (λ _. dir_not_found) found
    done (map file_info files)

  abbrev made : Option OsError → Call env (Unit {0})
  made none = done tt
  made (some exist) = fail dir_already_exist
  made (some not_exist) = fail internal
  made (some eof) = fail internal
  made (some other) = fail internal

  unfoldable pub create_dir : Directory → Call env (Unit {0})
  unfolding with_semaphore
  create_dir dir = with_semaphore env do
    dir_path ← data_path env dir.user dir.value
    error ← with_world env (env.os.mkdir_all dir_path)
    made error

  unfoldable pub remove_dir : Directory → Call env (Unit {0})
  unfolding with_semaphore
  remove_dir dir = with_semaphore env do
    dir_path ← data_path env dir.user dir.value
    error ← with_world env (env.os.remove_all dir_path)
    or_internal env error
