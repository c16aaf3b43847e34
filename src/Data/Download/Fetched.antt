-- ===== src/Data/Download/Fetched.antt =====
-- A file on the disk, from CreateConnection to its last chunk (internal/grpc/data/server.go), and a file
-- that one client stores and another one fetches.
use mhserver.Common.{ℕ, ◌≡◌, true, some, Text, ◌++◌}
use mhserver.Common.Dict.{nat_eq}
use mhserver.Regex.{match_string}
use mhserver.Os.{got}
use mhserver.Dirs.{filename_regexp, get_data_path}
use mhserver.Data.Connections.{Connection, rdonly, new_connection, new_chunks_info}
use mhserver.Data.Messages.{ConnectionRequest, ConnectionReply}
use mhserver.Data.Semaphore.{has_room}
use mhserver.Data.Server.{Env, DataServer}

module _ (env : Env) where
  -- A request to read a file that is there: it can be opened, and its size can be told.
  pub record IsThere (req : ConnectionRequest) (handle : env.os.Handle) (size : ℕ)
      (w : env.os.World) (s : DataServer env.os) : Type 0 where
    pub dir : Text
    pub room : has_room s.sem ≡ true
    pub accepted_dir :
        get_data_path env.unicode s.cfg.workspace_path req.username req.directory s.cfg.service_name
        ≡ some dir
    pub accepted_name : match_string (filename_regexp env.unicode) req.filename ≡ true
    pub to_read : req.mode ≡ rdonly
    pub opened : env.os.open_rdonly (dir ++ req.filename) s.world ≡ (w, got handle)
    pub measured : env.os.stat_size handle w ≡ got size

  abbrev reading : ℕ → env.os.Handle → Text → ConnectionReply → Connection env.os.Handle
  reading now handle path reply =
      new_connection now
        (record {
          handle = some handle;
          path = path;
          chunks = new_chunks_info reply.chunk_size reply.chunks_count;
        })
        rdonly
