-- ===== src/Server/Places.antt =====
-- How many requests the two semaphores let through, and what a panic does to them.
use mhserver.Common.{
  ℕ, zero, suc, ◌+◌, ◌*◌, ◌/◌, ◌≤◌, ◌<◌, ◌≡◌, ◌↔◌, refl, ap, ◌∙◌, some, arith, panic, blocked,
  Method,
}
use native.Mathlib.Nat.{div-eq_of_lt}
use mhserver.Common.Words.{u64_mod}
use mhserver.Config.{MemoryConfig, with_allocated}
use mhserver.Config.Application.{min_allocated_memory}
use mhserver.Data.Semaphore.{Semaphore, acquired}
use mhserver.Server.{main_sem_size, with_main_semaphore, calls}

positive_quotient_iff : (a b : ℕ) → 0 < b → (0 < a / b) ↔ (b ≤ a)
positive_quotient_iff a b h = grind arith

-- The main server has a place for a request exactly if 99 % of its memory, rounded down, is at least
-- one largest chunk and 1024 bytes, as long as the products fit in 64 bits.
pub main_sem_size_positive_iff :
    (memory : MemoryConfig) (n : ℕ)
    → memory.allocated * 99 < u64_mod
    → memory.max_chunk_size + 1024 < u64_mod
    → main_sem_size memory ≡ some n
    → (0 < n) ↔ (memory.max_chunk_size + 1024 ≤ memory.allocated * 99 / 100)
unfolding main_sem_size
main_sem_size_positive_iff memory n h k e =
    let size = memory.max_chunk_size + 1024 in
    let same : n ≡ memory.allocated * 99 / 100 / size = ground arith in
    rw same (positive_quotient_iff (memory.allocated * 99 / 100) size (omega arith))

no_quotient : (a b : ℕ) → a < b → a / b ≡ 0
no_quotient a b h = div-eq_of_lt h

-- The least memory that the configuration's check lets a main server have leaves it without a
-- place, as long as 99 times that memory fits in 64 bits: it starts, and every request blocks.
pub least_memory_blocks :
    {S E A : Type 0} (memory : MemoryConfig) (endpoint : Method S E A) (s : S)
    → (memory.max_chunk_size + 1024) * 99 < u64_mod
    → (n : ℕ) × (main_sem_size (with_allocated (min_allocated_memory memory) memory) ≡ some n)
      × ((with_main_semaphore endpoint (record { capacity = n; in_use = 0 }, s)).1 ≡ blocked)
unfolding main_sem_size with_main_semaphore with_allocated
least_memory_blocks memory endpoint s h = (
  0,
  ground (
    arith,
    no_quotient ((memory.max_chunk_size + 1024) * 99 / 100) (memory.max_chunk_size + 1024)
        (omega arith),
  ),
  refl,
)

module _ {ℓ} {S : Type ℓ} {E A : Type 0} where
  panicked :
      (endpoint : Method S E A) (sem : Semaphore) (s : S)
      → (endpoint s).1 ≡ panic
      → sem.in_use < sem.capacity
      → (with_main_semaphore endpoint (sem, s)).0 ≡ (acquired sem, (endpoint s).0)
  unfolding with_main_semaphore
  panicked endpoint sem s e h = ground (arith, e)

  filled :
      (endpoint : Method S E A) (n : ℕ) (sem : Semaphore) (s : S)
      → ((s : S) → (endpoint s).1 ≡ panic)
      → sem.in_use + n ≡ sem.capacity
      → (calls n endpoint (sem, s)).0 ≡ record sem { in_use = sem.capacity }
  unfolding calls
  filled endpoint zero sem s always full = ground arith
  filled endpoint (suc n) sem s always full =
      ap (λ p. (calls n endpoint p).0) (panicked endpoint sem s (always s) (omega arith))
      ∙ (filled endpoint n (acquired sem) (endpoint s).0 always (omega arith))

  -- An endpoint that panics in every state takes a place for good: after one such request for each
  -- free place, every later request to the server blocks.
  pub panics_take_places :
      (endpoint other : Method S E A) (n : ℕ) (sem : Semaphore) (s : S)
      → ((s : S) → (endpoint s).1 ≡ panic)
      → sem.in_use + n ≡ sem.capacity
      → (with_main_semaphore other (calls n endpoint (sem, s))).1 ≡ blocked
  unfolding with_main_semaphore
  panics_take_places endpoint other n sem s always full =
      ground (arith, filled endpoint n sem s always full)
