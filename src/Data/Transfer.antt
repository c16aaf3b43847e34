-- ===== src/Data/Transfer.antt =====
-- GetData, GetSum and SaveData of internal/grpc/data/server.go.
pub mod Sums
pub mod Saving
pub mod RoundTrip
use mhserver.Common.{
  ℕ, not, Option, none, some, List, [], ◌∷◌, Text, length, ok, err, panic, ◌>>=◌, ◌>>◌, done, fail,
  guard, if◌then◌else◌,
}
use mhserver.Common.Int.{ℤ, pos, ltb_ℤ}
use mhserver.Common.Words.{can_make_bytes, mul64, to_i64, mul_i64}
use mhserver.Os.{OsError, not_exist, exist, eof, other}
use mhserver.Data.Connections.{
  Uuid, is_rdwr, Connection, File, get, update_loaded_file_chunks, is_loaded,
}
use mhserver.Data.Errors.{
  bad_uuid, connection_not_found, unexpected_file_change, incorrect_chunk_size, read_out_of_file,
  internal,
}
use mhserver.Data.Messages.{FilePart, SaveChunk, GetChunk}
use mhserver.Data.Server.{Env, Call, with_semaphore, with_world, of_option, or_internal}

module _ (env : Env) where
  -- `uuid.Parse` and `activeConnections.Get`, which prolongs the connection.
  unfoldable pub get_connection : ℕ → Text → Call env (Uuid × Connection env.os.Handle)
  get_connection now uuid = do
    id ← of_option env bad_uuid (env.parse_uuid uuid)
    (λ s. elim (get id now s.active_connections) [
      | none ↦ (s, err connection_not_found)
      | some found ↦ let (conn, m) = found in (record s { active_connections = m }, ok (id, conn))
    ])

  abbrev pub read_handle : Option env.os.Handle → ℕ → ℤ → env.os.World → List ℕ × Option OsError
  read_handle none n offset w = ([], some other)
  read_handle (some h) n offset w = env.os.read_at h n offset w

  -- `err != nil && err != io.EOF`, then `n == 0 && err == io.EOF`
  abbrev pub check_read : List ℕ × Option OsError → Call env (List ℕ)
  check_read (bytes, none) = done bytes
  check_read ([], some eof) = fail read_out_of_file
  check_read (b ∷ bytes, some eof) = done (b ∷ bytes)
  check_read (bytes, some not_exist) = fail internal
  check_read (bytes, some exist) = fail internal
  check_read (bytes, some other) = fail internal

  -- make([]byte, ChunkSize), which panics on a size that is too large, and ReadAt of a whole chunk.
  unfoldable pub read_chunk : File env.os.Handle → ℤ → Call env (List ℕ)
  read_chunk file offset s =
      if can_make_bytes file.chunks.chunk_size
      then check_read (read_handle file.handle file.chunks.chunk_size offset s.world) s
      else (s, panic)

  unfoldable pub get_data : ℕ → GetChunk → Call env FilePart
  unfolding with_semaphore get_connection read_chunk
  get_data now chunk = with_semaphore env do
    found ← get_connection now chunk.uuid
    let file = found.1.file
    let offset = mul64 file.chunks.chunk_size chunk.chunk_id
    bytes ← read_chunk file (to_i64 offset)
    done (record { chunk = bytes; offset = offset })

  unfoldable pub get_sum : ℕ → GetChunk → Call env (List ℕ)
  unfolding with_semaphore get_connection read_chunk
  get_sum now chunk = with_semaphore env do
    found ← get_connection now chunk.uuid
    let file = found.1.file
    body ← read_chunk file (mul_i64 (to_i64 file.chunks.chunk_size) (to_i64 chunk.chunk_id))
    done (env.sha256 body)

  abbrev pub write_handle :
      Option env.os.Handle → List ℕ → ℤ → env.os.World → env.os.World × Option OsError
  write_handle none bytes offset w = (w, some other)
  write_handle (some h) bytes offset w = env.os.write_at h bytes offset w

  -- `chunk.Data` is a pointer.
  abbrev pub dereference : {A : Type 0} → Option A → Call env A
  dereference none s = (s, panic)
  dereference (some a) s = (s, ok a)

  -- `_ = s.activeConnections.UpdateLoadedFileChunks(uuid)`
  abbrev pub count_loaded : Uuid → ℕ → Call env (Unit {0})
  count_loaded id now s = elim (update_loaded_file_chunks id now s.active_connections) [
    | none ↦ (s, ok tt)
    | some m ↦ (record s { active_connections = m }, ok tt)
  ]

  unfoldable pub save_data : ℕ → ℕ → SaveChunk → Call env (Unit {0})
  unfolding with_semaphore get_connection
  save_data now later chunk = with_semaphore env do
    found ← get_connection now chunk.uuid
    let (id, conn) = found
    guard (is_rdwr conn.mode) unexpected_file_change
    let file = conn.file
    guard (not (is_loaded file)) unexpected_file_change
    part ← dereference chunk.part
    guard (not (ltb_ℤ (to_i64 file.chunks.chunk_size) (pos (length part.chunk))))
        incorrect_chunk_size
    error ← with_world env (write_handle file.handle part.chunk (to_i64 part.offset))
    or_internal env error
    count_loaded id later
