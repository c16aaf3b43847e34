-- ===== src/Server/Crowd/Memory.antt =====
-- How many requests are inside the main server at once, and what memory they can take.
use native.Mathlib.Nat.{div-mul-le_self, mul-le-mul_right}
use mhserver.Common.{
  ℕ, ◌+◌, ◌*◌, ◌/◌, ◌%◌, ◌≤◌, ◌<◌, ◌≡◌, refl, Option, none, some, Outcome, blocked, Method,
  Bool-cases, inl, inr, arith,
}
use mhserver.Common.Words.{u64_mod}
use mhserver.Config.{MemoryConfig}
use mhserver.Data.Semaphore.{Semaphore, has_room}
use mhserver.Server.{main_sem_size, with_main_semaphore}
use mhserver.Server.Crowd.{
  take_place, leave, Crowd, Step, enters, returns, panics, Reach, here, next,
}

-- A request that nothing comes between.
abbrev in_steps :
    {S E A : Type 0}
    → Method S E A
    → S
    → Semaphore
    → Option Semaphore
    → (Semaphore × S) × Outcome E A
in_steps endpoint s sem none = ((sem, s), blocked)
in_steps endpoint s sem (some sem') = let (s', r) = endpoint s in ((leave r sem', s'), r)

-- The two steps, one behind the other, are WithMainSemaphore.
pub take_place-leave :
    {S E A : Type 0} (endpoint : Method S E A) (sem : Semaphore) (s : S)
    → with_main_semaphore endpoint (sem, s) ≡ in_steps endpoint s sem (take_place sem)
unfolding with_main_semaphore take_place leave
take_place-leave endpoint sem s = elim (Bool-cases (has_room sem)) [
  | inr full ↦ ground (arith, full)
  | inl room ↦ ground (arith, room)
]

-- Every place that is taken is that of a request inside, or lost.
record IsCounted (size : ℕ) (x : Crowd) : Type 0 where
  sized : x.sem.capacity ≡ size
  taken : x.inside + x.lost ≡ x.sem.in_use
  within : x.sem.in_use ≤ size

Step-IsCounted : (size : ℕ) (x y : Crowd) → Step x y → IsCounted size x → IsCounted size y
unfolding take_place leave
Step-IsCounted size x y (enters room more same) v = record {
  sized = ground (arith, v.sized);
  taken = ground (arith, v.taken);
  within = ground (arith, v.sized, v.within);
}
Step-IsCounted size x y (returns one sem same) v = record {
  sized = ground (arith, v.sized);
  taken = ground (arith, v.taken);
  within = ground (arith, v.within);
}
Step-IsCounted size x y (panics one sem more) v = record {
  sized = ground (arith, v.sized);
  taken = ground (arith, v.taken);
  within = ground (arith, v.within);
}

Reach-IsCounted : (size : ℕ) (x y : Crowd) → Reach x y → IsCounted size x → IsCounted size y
Reach-IsCounted size x y here v = v
Reach-IsCounted size x z (next {y} r step) v =
    Step-IsCounted size y z step (Reach-IsCounted size x y r v)

places_fit :
    (memory : MemoryConfig) (size : ℕ)
    → memory.max_chunk_size + 1024 < u64_mod
    → main_sem_size memory ≡ some size
    → size * (memory.max_chunk_size + 1024) ≤ memory.allocated
unfolding main_sem_size
places_fit memory size small e =
    let room : ℕ = memory.allocated * 99 % u64_mod / 100 in
    let each : ℕ = memory.max_chunk_size + 1024 in
    let same : size ≡ room / each = ground arith in
    rw same (omega (arith, div-mul-le_self room each))

-- However requests come, return and panic at a main server that starts with no request: each place that is
-- taken is that of a request inside or of one that panicked, and one largest chunk with 1024 bytes for each
-- request inside fits into the memory of the main server, if that sum fits in 64 bits.
pub requests_fit :
    (memory : MemoryConfig) (size : ℕ) (y : Crowd)
    → memory.max_chunk_size + 1024 < u64_mod
    → main_sem_size memory ≡ some size
    → Reach (record { sem = record { capacity = size; in_use = 0 }; inside = 0; lost = 0 }) y
    → (y.inside + y.lost ≡ y.sem.in_use)
      × (y.sem.in_use ≤ size)
      × (y.inside * (memory.max_chunk_size + 1024) ≤ memory.allocated)
requests_fit memory size y small e r =
    let v =
      Reach-IsCounted size _ y r (record { sized = refl; taken = refl; within = omega arith }) in
    (
      v.taken,
      v.within,
      omega (
        arith,
        mul-le-mul_right {m = y.inside} {n = size} (memory.max_chunk_size + 1024)
            (omega (arith, v.taken, v.within)),
        places_fit memory size small e,
      ),
    )
