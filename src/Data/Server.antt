-- ===== src/Data/Server.antt =====
-- internal/grpc/data/server.go: the state of the data server, and what its calls share. A call returns
-- the new state and its outcome; each reading of the clock and each new identifier is an argument.
-- Requests run one after another here.
use mhserver.Common.{
  ℕ, ◌/◌, Option, none, some, List, [], Text, codes, if◌then◌else◌, ◌==◌, ok, err, blocked, Method,
}
use mhserver.Common.Words.{make_chan, mul64}
use mhserver.Config.{MemoryConfig}
use mhserver.Os.{Os, OsError, not_exist, exist, eof, other, OsResult, got, failed}
use mhserver.Dirs.{Unicode, get_data_path}
use mhserver.Data.Chunks.{Floats}
use mhserver.Data.Connections.{Uuid, Connections}
use mhserver.Data.Errors.{DataError, bad_dir_syntax, internal}
use mhserver.Data.Semaphore.{Semaphore, has_room, acquired, released}

-- What the server calls and does not implement.
pub record Env : Type 1 where
  pub os : Os
  pub floats : Floats
  pub unicode : Unicode
  -- uuid.Parse and UUID.String of github.com/google/uuid
  pub parse_uuid : Text → Option Uuid
  pub uuid_text : Uuid → Text
  -- crypto/sha256
  pub sha256 : List ℕ → List ℕ

pub record DataServiceConfig : Type 0 where
  pub service_name : Text
  pub workspace_path : Text
  pub memory : MemoryConfig

pub record DataServer (os : Os) : Type 0 where
  pub cfg : DataServiceConfig
  pub active_connections : Connections os.Handle
  pub sem : Semaphore
  pub world : os.World

-- NewDataServerConfig and NewDataServer
abbrev pub service_name : Text
service_name = codes "files"

unfoldable pub new_data_server_config : Text → MemoryConfig → DataServiceConfig
new_data_server_config workspace_path data_memory_cfg = record {
  service_name = service_name;
  workspace_path = workspace_path;
  memory = data_memory_cfg;
}

-- make(chan any, (cfg.Memory.Allocated * 985 / 1000) / cfg.Memory.MaxChunkSize); `none` is a panic: a
-- maximal size of 0, or a channel that is too large.
unfoldable pub data_sem_size : MemoryConfig → Option ℕ
data_sem_size memory =
    if memory.max_chunk_size == 0
    then none
    else make_chan (mul64 memory.allocated 985 / 1000 / memory.max_chunk_size)

module _ (os : Os) where
  abbrev sized_server : DataServiceConfig → os.World → Option ℕ → Option (DataServer os)
  sized_server cfg w none = none
  sized_server cfg w (some size) = some (record {
    cfg = cfg;
    active_connections = [];
    sem = record { capacity = size; in_use = 0 };
    world = w;
  })

  unfoldable pub new_data_server : DataServiceConfig → os.World → Option (DataServer os)
  unfolding data_sem_size
  new_data_server cfg w = sized_server cfg w (data_sem_size cfg.memory)

-- `e` for os.ErrNotExist, ErrInternal for any other error.
abbrev pub missing : DataError → OsError → DataError
missing e not_exist = e
missing e exist = internal
missing e eof = internal
missing e other = internal

module _ (env : Env) where
  abbrev pub Call : Type 0 → Type 0
  Call A = Method (DataServer env.os) DataError A

  -- `defer func() { <-s.sem }()` and `s.sem <- struct{}{}` round the body of a call.
  unfoldable pub with_semaphore : {A : Type 0} → Call A → Call A
  with_semaphore body s =
      if has_room s.sem
      then (let (s', r) = body (record s { sem = acquired s.sem }) in
          (record s' { sem = released s'.sem }, r))
      else (s, blocked)

  abbrev pub with_world : {A : Type 0} → (env.os.World → env.os.World × A) → Call A
  with_world f s = let (w, a) = f s.world in (record s { world = w }, ok a)

  abbrev pub of_option : {A : Type 0} → DataError → Option A → Call A
  of_option e none s = (s, err e)
  of_option e (some a) s = (s, ok a)

  abbrev pub of_result : {A : Type 0} → (OsError → DataError) → OsResult A → Call A
  of_result f (got a) s = (s, ok a)
  of_result f (failed e) s = (s, err (f e))

  abbrev pub or_internal : Option OsError → Call (Unit {0})
  or_internal none s = (s, ok tt)
  or_internal (some e) s = (s, err internal)

  abbrev pub data_path : Text → Text → Call Text
  data_path user dir s =
      of_option bad_dir_syntax
        (get_data_path env.unicode s.cfg.workspace_path user dir s.cfg.service_name) s

  -- freemem.GetAvailableDiskSpace (internal/repository/freemem/free.go)
  unfoldable pub get_available_disk_space : Text → env.os.World → OsResult ℕ
  get_available_disk_space dir w = elim (env.os.statfs dir w) [
    | got stat ↦ got (mul64 stat.bavail stat.bsize)
    | failed e ↦ failed e
  ]
