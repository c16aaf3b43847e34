-- ===== src/Data/Opening/Registration.antt =====
-- What CreateConnection registers (internal/grpc/data/server.go).
use mhserver.Common.{
  ◌+◌, ℕ, ◌≡◌, refl, true, false, Option, none, some, ◌++◌, ◌⊎◌, arith, inl, inr, Option-cases,
  Bool-cases, Outcome, ok, err, panic, blocked, Text,
}
use mhserver.Common.Dict.{insert, nat_eq}
use mhserver.Regex.{match_string}
use mhserver.Dirs.{filename_regexp, get_data_path}
use mhserver.Data.Connections.{
  ConnectionMode, rdonly, rdwr, unknown, Connection, push, new_connection, new_chunks_info,
  file_lifetime,
}
use mhserver.Common.Time.{unix}
use mhserver.Data.Semaphore.{acquired, has_room}
use mhserver.Data.Chunks.{chunk_size_of, chunks_count_of}
use mhserver.Data.Errors.{DataError}
use mhserver.Data.Messages.{ConnectionRequest, ConnectionReply}
use mhserver.Data.Server.{Env, DataServer}
use mhserver.Data.Opening.{create_connection, open_file, register_connection}

module _ (env : Env) where
  -- What is kept of a connection that a request has opened, and what the client is told.
  pub record IsRegistered (id now : ℕ) (req : ConnectionRequest) (reply : ConnectionReply)
      (s s' : DataServer env.os) : Type 0 where
    pub dir : Text
    pub conn : Connection env.os.Handle
    pub accepted_dir :
        get_data_path env.unicode s.cfg.workspace_path req.username req.directory s.cfg.service_name
        ≡ some dir
    pub accepted_name : match_string (filename_regexp env.unicode) req.filename ≡ true
    pub added : s'.active_connections ≡ insert id conn s.active_connections
    pub same_mode : conn.mode ≡ req.mode
    pub same_path : conn.file.path ≡ dir ++ req.filename
    pub nothing_loaded : conn.file.chunks.loaded ≡ 0
    pub same_size : reply.chunk_size ≡ conn.file.chunks.chunk_size
    pub same_count : reply.chunks_count ≡ conn.file.chunks.count
    pub same_uuid : reply.uuid ≡ env.uuid_text id
    pub expires : conn.expiration ≡ unix (now + file_lifetime)

  pub open_file_connections :
      (mode : ConnectionMode) (size : ℕ) (path : Text) (s : DataServer env.os)
      → (open_file env mode size path s).0.active_connections ≡ s.active_connections
  unfolding open_file
  open_file_connections rdonly size path s = ground arith
  open_file_connections rdwr size path s = ground arith
  open_file_connections (unknown n) size path s = refl

  abbrev IsRefused : ℕ → ℕ → ConnectionRequest → DataServer env.os → Type 0
  IsRefused id now req s =
      let r = create_connection env id now req s in
      (¬ ((reply : ConnectionReply) × (r.1 ≡ ok reply)))
      × (r.0.active_connections ≡ s.active_connections)

  IsRefused-dir :
      (id now : ℕ) (req : ConnectionRequest) (s : DataServer env.os)
      → get_data_path env.unicode s.cfg.workspace_path req.username req.directory s.cfg.service_name
        ≡ none
      → IsRefused id now req s
  unfolding create_connection
  IsRefused-dir id now req s e = (ground (arith, e), ground (arith, e))

  IsRefused-name :
      (id now : ℕ) (req : ConnectionRequest) (s : DataServer env.os) (dir : Text)
      → get_data_path env.unicode s.cfg.workspace_path req.username req.directory s.cfg.service_name
        ≡ some dir
      → match_string (filename_regexp env.unicode) req.filename ≡ false
      → IsRefused id now req s
  unfolding create_connection
  IsRefused-name id now req s dir e e' = (ground (arith, e, e'), ground (arith, e, e'))

  opened_cases :
      (id now : ℕ) (req : ConnectionRequest) (s : DataServer env.os) (dir : Text)
      (r : DataServer env.os × Outcome DataError (Option env.os.Handle × ℕ))
      → has_room s.sem ≡ true
      → get_data_path env.unicode s.cfg.workspace_path req.username req.directory s.cfg.service_name
        ≡ some dir
      → match_string (filename_regexp env.unicode) req.filename ≡ true
      → open_file env req.mode req.size (dir ++ req.filename) (record s { sem = acquired s.sem })
        ≡ r
      → let r' = create_connection env id now req s in
        ((reply : ConnectionReply) × (r'.1 ≡ ok reply) × IsRegistered id now req reply s r'.0)
        ⊎ IsRefused id now req s
  unfolding create_connection register_connection new_connection push
  opened_cases id now req s dir (s', ok (handle, size)) room e e' opened =
      let kept =
        open_file_connections req.mode req.size (dir ++ req.filename)
          (record s { sem = acquired s.sem }) in
      inl (
        record {
          uuid = env.uuid_text id;
          chunk_size = chunk_size_of env.floats s'.cfg.memory size;
          chunks_count =
              chunks_count_of env.floats size (chunk_size_of env.floats s'.cfg.memory size);
        },
        ground (arith, room, e, e', opened),
        record {
          dir = dir;
          conn =
              new_connection now
                (record {
                  handle = handle;
                  path = dir ++ req.filename;
                  chunks = new_chunks_info (chunk_size_of env.floats s'.cfg.memory size) (
                      chunks_count_of env.floats size
                        (chunk_size_of env.floats s'.cfg.memory size));
                })
                req.mode;
          accepted_dir = e;
          accepted_name = e';
          added = ground (arith, room, e, e', opened, kept);
          same_mode = refl;
          same_path = refl;
          nothing_loaded = refl;
          same_size = refl;
          same_count = refl;
          same_uuid = refl;
          expires = refl;
        },
      )
  opened_cases id now req s dir (s', err x) room e e' opened =
      let kept =
        open_file_connections req.mode req.size (dir ++ req.filename)
          (record s { sem = acquired s.sem }) in
      inr (ground (arith, room, e, e', opened), ground (arith, room, e, e', opened, kept))
  opened_cases id now req s dir (s', panic) room e e' opened =
      let kept =
        open_file_connections req.mode req.size (dir ++ req.filename)
          (record s { sem = acquired s.sem }) in
      inr (ground (arith, room, e, e', opened), ground (arith, room, e, e', opened, kept))
  opened_cases id now req s dir (s', blocked) room e e' opened =
      let kept =
        open_file_connections req.mode req.size (dir ++ req.filename)
          (record s { sem = acquired s.sem }) in
      inr (ground (arith, room, e, e', opened), ground (arith, room, e, e', opened, kept))

  no_room :
      (id now : ℕ) (req : ConnectionRequest) (s : DataServer env.os)
      → has_room s.sem ≡ false
      → IsRefused id now req s
  unfolding create_connection
  no_room id now req s e = (ground (arith, e), ground (arith, e))

  -- CreateConnection replies with a connection that it has registered under the new identifier: for
  -- an accepted directory and file name, in the requested mode, with nothing loaded, with the
  -- chunk size and count that it replies, and with a full lifetime. Otherwise it gives no reply and
  -- leaves the connections as they are.
  pub create_connection_lem :
      (id now : ℕ) (req : ConnectionRequest) (s : DataServer env.os)
      → let r = create_connection env id now req s in
        ((reply : ConnectionReply) × (r.1 ≡ ok reply) × IsRegistered id now req reply s r.0)
        ⊎ IsRefused id now req s
  create_connection_lem id now req s = elim (Bool-cases (has_room s.sem)) [
    | inr full ↦ inr (no_room id now req s full)
    | inl room ↦
        elim (Option-cases (
          get_data_path env.unicode s.cfg.workspace_path req.username req.directory
            s.cfg.service_name)) [
              | inl e ↦ inr (IsRefused-dir id now req s e)
              | inr (dir, e) ↦
                  elim (Bool-cases (match_string (filename_regexp env.unicode) req.filename)) [
                    | inl e' ↦ opened_cases id now req s dir _ room e e' refl
                    | inr e' ↦ inr (IsRefused-name id now req s dir e e')
                  ]
            ]
  ]
