-- ===== src/Data/Overlap.antt =====
-- SaveData of internal/grpc/data/server.go in two steps, with other calls between them: up to the tests, and
-- from the write on. A call between its steps keeps its place in the semaphore. Each lock of the map
-- of connections lies within one step.
pub mod Follows
pub mod Calls
pub mod Halves
pub mod Steps
pub mod Bound
pub mod LastChunk
mod Tests
use mhserver.Common.{
  ℕ, not, Option, none, some, List, [], ◌∷◌, ◌++◌, length, ok, err, panic, blocked, ◌≡◌, Outcome,
  ◌>>=◌, ◌>>◌, done, guard, if◌then◌else◌,
}
use mhserver.Common.Int.{pos, ltb_ℤ}
use mhserver.Common.Words.{to_i64}
use mhserver.Data.Connections.{Uuid, is_rdwr, is_loaded}
use mhserver.Data.Errors.{DataError, unexpected_file_change, incorrect_chunk_size}
use mhserver.Data.Messages.{FilePart, SaveChunk}
use mhserver.Data.Semaphore.{has_room, acquired, released}
use mhserver.Data.Server.{Env, DataServer, Call, with_world, or_internal}
use mhserver.Data.Service.{Event, step}
use mhserver.Data.Transfer.{get_connection, write_handle, dereference, count_loaded}

module _ (env : Env) where
  -- A call of SaveData that has passed its tests: what it is going to write, and where.
  pub record Pending : Type 0 where
    pub id : Uuid
    pub handle : Option env.os.Handle
    pub part : FilePart

  unfoldable pub admit : ℕ → SaveChunk → Call env Pending
  unfolding get_connection
  admit now chunk = do
    found ← get_connection env now chunk.uuid
    let (id, conn) = found
    guard (is_rdwr conn.mode) unexpected_file_change
    let file = conn.file
    guard (not (is_loaded file)) unexpected_file_change
    part ← dereference env chunk.part
    guard (not (ltb_ℤ (to_i64 file.chunks.chunk_size) (pos (length part.chunk))))
        incorrect_chunk_size
    done (record { id = id; handle = file.handle; part = part })

  -- A call that fails gives its place back.
  abbrev settled :
      DataServer env.os × Outcome DataError Pending → DataServer env.os × Outcome DataError Pending
  settled (s, ok p) = (s, ok p)
  settled (s, err e) = (record s { sem = released s.sem }, err e)
  settled (s, panic) = (record s { sem = released s.sem }, panic)
  settled (s, blocked) = (record s { sem = released s.sem }, blocked)

  unfoldable pub begin : ℕ → SaveChunk → Call env Pending
  unfolding admit
  begin now chunk s =
      if has_room s.sem
      then settled (admit now chunk (record s { sem = acquired s.sem }))
      else (s, blocked)

  unfoldable pub commit : ℕ → Pending → Call env (Unit {0})
  commit later p = do
    error ← with_world env (write_handle env p.handle p.part.chunk (to_i64 p.part.offset))
    or_internal env error
    count_loaded env p.id later

  unfoldable pub finish : ℕ → Pending → Call env (Unit {0})
  unfolding commit
  finish later p s = let (s', r) = commit later p s in (record s' { sem = released s'.sem }, r)

  -- The data server, and the calls that are between their steps.
  pub record Shared : Type 0 where
    pub server : DataServer env.os
    pub pending : List Pending

  -- What happens next: a call begins, and is refused or goes on; one that is pending ends; or anything
  -- else takes place as a whole, another call or a round of the cleaner.
  pub data Step (x y : Shared) : Type 0 where
    begins :
        (now : ℕ) (chunk : SaveChunk) (p : Pending)
        → (begin now chunk x.server).1 ≡ ok p
        → y.server ≡ (begin now chunk x.server).0
        → y.pending ≡ p ∷ x.pending
        → Step x y
    refuses :
        (now : ℕ) (chunk : SaveChunk) (e : DataError)
        → (begin now chunk x.server).1 ≡ err e
        → y.server ≡ (begin now chunk x.server).0
        → y.pending ≡ x.pending
        → Step x y
    ends :
        (later : ℕ) (before after : List Pending) (p : Pending)
        → x.pending ≡ before ++ (p ∷ after)
        → y.server ≡ (finish later p x.server).0
        → y.pending ≡ before ++ after
        → Step x y
    passes : (e : Event) → y.server ≡ step env e x.server → y.pending ≡ x.pending → Step x y

  pub data Reach (x : Shared) : Shared → Type 0 where
    here : Reach x x
    next : {y z : Shared} → Reach x y → Step y z → Reach x z
