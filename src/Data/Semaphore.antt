-- ===== src/Data/Semaphore.antt =====
-- The channel `sem` of the data server: a send takes a place, a receive gives it back.
use mhserver.Common.{ℕ, ◌+◌, ◌-◌, ltb, Bool}

pub record Semaphore : Type 0 where
  pub capacity : ℕ
  pub in_use : ℕ

-- `s.sem <- struct{}{}` goes through.
abbrev pub has_room : Semaphore → Bool
has_room sem = ltb sem.in_use sem.capacity

abbrev pub acquired : Semaphore → Semaphore
acquired sem = record sem { in_use = sem.in_use + 1 }

-- `<-s.sem`
abbrev pub released : Semaphore → Semaphore
released sem = record sem { in_use = sem.in_use - 1 }
