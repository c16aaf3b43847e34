-- ===== src/Server.antt =====
-- internal/server/server.go: the semaphore round every endpoint of the main server.
pub mod Places
pub mod Endpoints
pub mod Crowd
pub mod Routes
mod Tests
use mhserver.Common.{
  ℕ, zero, suc, ◌/◌, Option, none, some, ok, err, panic, blocked, Method, ◌==◌, if◌then◌else◌,
}
use mhserver.Common.Words.{add64, mul64, make_chan}
use mhserver.Config.{MemoryConfig}
use mhserver.Data.Semaphore.{Semaphore, has_room, acquired, released}

-- make(chan any, (memory_cfg.Allocated * 99 / 100) / (memory_cfg.MaxChunkSize + 1024)) of NewServer;
-- `none` is a panic: a division by 0, when the sum wraps around to 0, or a channel that is too large.
unfoldable pub main_sem_size : MemoryConfig → Option ℕ
main_sem_size memory =
    let size = add64 memory.max_chunk_size 1024 in
    if size == 0 then none else make_chan (mul64 memory.allocated 99 / 100 / size)

-- WithMainSemaphore: the place is given back after the endpoint, and there is no `defer`. A panic in
-- the endpoint goes through to net/http, which keeps the server running.
unfoldable pub with_main_semaphore {ℓ} :
    {S : Type ℓ} {E A : Type 0} → Method S E A → Method (Semaphore × S) E A
with_main_semaphore endpoint (sem, s) =
    if has_room sem
    then (let (s', r) = endpoint s in
        elim r [
          | ok a ↦ ((released (acquired sem), s'), ok a)
          | err e ↦ ((released (acquired sem), s'), err e)
          | panic ↦ ((acquired sem, s'), panic)
          | blocked ↦ ((acquired sem, s'), blocked)
        ])
    else ((sem, s), blocked)

-- The same endpoint, called so many times.
unfoldable pub calls {ℓ} :
    {S : Type ℓ} {E A : Type 0} → ℕ → Method S E A → Semaphore × S → Semaphore × S
calls zero endpoint s = s
calls (suc n) endpoint s = calls n endpoint (with_main_semaphore endpoint s).0
