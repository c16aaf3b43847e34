-- ===== src/Server/Crowd.antt =====
-- WithMainSemaphore of internal/server/server.go in two steps, with other requests between them: net/http runs
-- each request in a goroutine of its own.
pub mod Memory
use mhserver.Common.{
  ℕ, suc, ◌+◌, ◌≡◌, true, Outcome, ok, err, panic, blocked, Option, none, some, if◌then◌else◌,
}
use mhserver.Data.Semaphore.{Semaphore, has_room, acquired, released}

-- `s.sem <- struct{}{}`: `none` while there is no room.
unfoldable pub take_place : Semaphore → Option Semaphore
take_place sem = if has_room sem then some (acquired sem) else none

-- `<-s.sem`, which a panic does not reach, nor an endpoint that blocks.
unfoldable pub leave : {E A : Type 0} → Outcome E A → Semaphore → Semaphore
leave (ok a) sem = released sem
leave (err e) sem = released sem
leave panic sem = sem
leave blocked sem = sem

-- The requests that are inside an endpoint, and the places that were not given back.
pub record Crowd : Type 0 where
  pub sem : Semaphore
  pub inside : ℕ
  pub lost : ℕ

pub data Step (x y : Crowd) : Type 0 where
  enters : take_place x.sem ≡ some y.sem → y.inside ≡ x.inside + 1 → y.lost ≡ x.lost → Step x y
  returns :
      x.inside ≡ suc y.inside
      → y.sem ≡ leave {E = ⊥} {A = Unit {0}} (ok tt) x.sem
      → y.lost ≡ x.lost
      → Step x y
  panics :
      x.inside ≡ suc y.inside
      → y.sem ≡ leave {E = ⊥} {A = Unit {0}} panic x.sem
      → y.lost ≡ x.lost + 1
      → Step x y

pub data Reach (x : Crowd) : Crowd → Type 0 where
  here : Reach x x
  next : {y z : Crowd} → Reach x y → Step y z → Reach x z
