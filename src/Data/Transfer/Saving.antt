-- ===== src/Data/Transfer/Saving.antt =====
-- What SaveData lets through to the file system.
use mhserver.Common.{
  ℕ, ◌<◌, ◌≡◌, true, not, ◌&&◌, some, arith, inl, inr, ◌⊎◌, length, Option-cases, Bool-cases,
}
use mhserver.Common.Dict.{lookup, nat_eq}
use mhserver.Common.Int.{pos, ltb_ℤ, ◌≤ℤ◌}
use mhserver.Common.Words.{to_i64}
use mhserver.Data.Connections.{
  Connection, ConnectionMode, rdwr, get, update_expiration, is_rdwr, is_loaded,
}
use mhserver.Data.Connections.Laws.{get_lem}
use mhserver.Data.Messages.{SaveChunk, FilePart}
use mhserver.Data.Server.{Env, DataServer}
use mhserver.Data.Semaphore.{has_room}
use mhserver.Data.Transfer.{save_data, write_handle}

is_rdwr-eq : (mode : ConnectionMode) → is_rdwr mode ≡ true → mode ≡ rdwr
is_rdwr-eq mode h = ground arith

module _ (env : Env) where
  -- A write that SaveData lets through: over an existing connection that was opened for saving
  -- and still misses chunks, of at most a chunk, at the offset that the client names.
  pub record IsLetThrough (chunk : SaveChunk) (s s' : DataServer env.os) : Type 0 where
    pub id : ℕ
    pub conn : Connection env.os.Handle
    pub part : FilePart
    pub parsed : env.parse_uuid chunk.uuid ≡ some id
    pub found : lookup id s.active_connections ≡ some conn
    pub for_saving : conn.mode ≡ rdwr
    pub incomplete : conn.file.chunks.loaded < conn.file.chunks.count
    pub given : chunk.part ≡ some part
    pub fits : pos (length part.chunk) ≤ℤ to_i64 conn.file.chunks.chunk_size
    pub written :
        s'.world ≡ (write_handle env conn.file.handle part.chunk (to_i64 part.offset) s.world).0

  -- SaveData leaves the file system as it was, or makes just one write, to the file of a connection
  -- that exists, was opened for saving and still misses chunks, of at most one chunk, at the offset
  -- that the client names.
  pub save_data_guarded :
      (now later : ℕ) (chunk : SaveChunk) (s : DataServer env.os)
      → let s' = (save_data env now later chunk s).0 in
        (s'.world ≡ s.world) ⊎ IsLetThrough chunk s s'
  unfolding save_data is_loaded update_expiration
  save_data_guarded now later chunk s = elim (Option-cases (env.parse_uuid chunk.uuid)) [
    | inl e ↦ inl (ground (arith, e))
    | inr (id, e) ↦ elim (Option-cases (get id now s.active_connections)) [
      | inl e' ↦ inl (ground (arith, e, e'))
      | inr ((c, m), e') ↦
          let (old, found, ec, _) = get_lem id now s.active_connections m c e' in
          elim (Bool-cases (is_rdwr c.mode && not (is_loaded c.file))) [
            | inr refused ↦ inl (ground (arith, e, e'))
            | inl open_ ↦ elim (Option-cases chunk.part) [
              | inl e'' ↦ inl (ground (arith, e, e', e''))
              | inr (part, e'') ↦
                  elim (Bool-cases
                    (ltb_ℤ (to_i64 c.file.chunks.chunk_size) (pos (length part.chunk)))) [
                      | inl large ↦ inl (ground (arith, e, e', e''))
                      | inr fits ↦ elim (Bool-cases (has_room s.sem)) [
                        | inr full ↦ inl (ground arith)
                        | inl room ↦ inr (record {
                          id = id;
                          conn = old;
                          part = part;
                          parsed = e;
                          found = found;
                          for_saving = is_rdwr-eq old.mode (ground arith);
                          incomplete = ground arith;
                          given = e'';
                          fits = ground arith;
                          written = ground (arith, e, e', e'');
                        })
                      ]
                    ]
            ]
          ]
    ]
  ]
