-- ===== src/Server/Tests.antt =====
-- The main semaphore on concrete settings and endpoints, and the theorems on them.
use mhserver.Common.{
  ℕ, ◌+◌, ◌*◌, ◌/◌, ◌≤◌, ◌<◌, ◌≡◌, ◌↔◌, refl, some, arith, ok, panic, blocked, Method,
}
use mhserver.Config.{MemoryConfig, with_allocated}
use mhserver.Config.Application.{min_allocated_memory}
use mhserver.Server.{main_sem_size, with_main_semaphore, calls}
use mhserver.Server.Crowd.{Crowd, Reach, here, next, take_place, leave, enters, panics}
use mhserver.Server.Crowd.Memory.{requests_fit}
use mhserver.Server.Places.{main_sem_size_positive_iff, least_memory_blocks, panics_take_places}

abbrev memory : MemoryConfig
memory = record { allocated = 20000; max_chunk_size = 8192; min_chunk_size = 1024 }

abbrev answers : Method ℕ ℕ ℕ
answers s = (s, ok s)

abbrev always_panics : Method ℕ ℕ ℕ
always_panics s = (s + 1, panic)

server_runs : Unit {0}
unfolding main_sem_size with_main_semaphore calls
server_runs = tt

two_places : main_sem_size memory ≡ some 2
unfolding server_runs
two_places = refl

answered : (with_main_semaphore answers (record { capacity = 2; in_use = 1 }, 5)).1 ≡ ok 5
unfolding server_runs
answered = refl

enough_for_a_place : (0 < 2) ↔ (8192 + 1024 ≤ 20000 * 99 / 100)
enough_for_a_place = main_sem_size_positive_iff memory 2 (omega arith) (omega arith) two_places

least_memory_blocks_example :
    (n : ℕ) × (main_sem_size (with_allocated (min_allocated_memory memory) memory) ≡ some n)
    × ((with_main_semaphore answers (record { capacity = n; in_use = 0 }, 5)).1 ≡ blocked)
least_memory_blocks_example = least_memory_blocks memory answers 5 (omega arith)

two_panics_block :
    (with_main_semaphore answers (calls 2 always_panics (record { capacity = 2; in_use = 0 }, 5))).1
    ≡ blocked
two_panics_block =
    panics_take_places always_panics answers 2 (record { capacity = 2; in_use = 0 }) 5 (λ s. refl)
      (omega arith)

-- Two requests come, one panics.
abbrev crowd : ℕ → ℕ → ℕ → Crowd
crowd in_use inside lost = record {
  sem = record { capacity = 2; in_use = in_use };
  inside = inside;
  lost = lost;
}

two_come : Reach (crowd 0 0 0) (crowd 2 1 1)
unfolding take_place leave
two_come =
    next {y = crowd 2 2 0}
      (next {y = crowd 1 1 0}
        (next {y = crowd 0 0 0} {z = crowd 1 1 0} here (enters refl refl refl))
        (enters refl refl refl))
      (panics refl refl refl)

requests_fit_example :
    (1 + 1 ≡ 2) × (2 ≤ 2) × (1 * (memory.max_chunk_size + 1024) ≤ memory.allocated)
requests_fit_example = requests_fit memory 2 (crowd 2 1 1) (omega arith) two_places two_come
