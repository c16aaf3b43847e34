-- ===== src/Data/Transfer/Sums.antt =====
-- GetSum against GetData.
use mhserver.Common.{ℕ, ◌<◌, ◌≡◌, arith, inl, inr, Option-cases, Outcome, ok, err, panic, blocked}
use mhserver.Common.Dict.{nat_eq, AllValues, lookup-AllValues}
use mhserver.Common.Words.{u32_mod, u64_mod}
use mhserver.Common.Words.Laws.{mul_i64-eq-mul64}
use mhserver.Data.Connections.{Connection, get, update_expiration}
use mhserver.Data.Connections.Laws.{get_lem}
use mhserver.Data.Errors.{DataError}
use mhserver.Data.Messages.{GetChunk, FilePart}
use mhserver.Data.Server.{Env, DataServer}
use mhserver.Data.Transfer.{get_data, get_sum}

abbrev pub map_outcome : {A B : Type 0} → (A → B) → Outcome DataError A → Outcome DataError B
map_outcome f (ok a) = ok (f a)
map_outcome f (err e) = err e
map_outcome f panic = panic
map_outcome f blocked = blocked

-- Chunk sizes are uint64.
abbrev pub HasWordSize : {H : Type 0} → Connection H → Type 0
HasWordSize c = c.file.chunks.chunk_size < u64_mod

module _ (env : Env) where
  -- Where chunk sizes fit in 64 bits and the number of the chunk in 32, GetSum answers with the
  -- SHA-256 of exactly the bytes that GetData returns for the same chunk, fails with the same error
  -- where that fails, and leaves the same state. Its offset is computed in int64, the other in
  -- uint64.
  pub get_sum-get_data :
      (now : ℕ) (chunk : GetChunk) (s : DataServer env.os)
      → AllValues HasWordSize s.active_connections
      → chunk.chunk_id < u32_mod
      → ((get_sum env now chunk s).1
          ≡ map_outcome (λ (part : FilePart). env.sha256 part.chunk) (get_data env now chunk s).1)
        × ((get_sum env now chunk s).0 ≡ (get_data env now chunk s).0)
  unfolding get_sum get_data update_expiration
  get_sum-get_data now chunk s sizes small = elim (Option-cases (env.parse_uuid chunk.uuid)) [
    | inl e ↦ ground (arith, e)
    | inr (id, e) ↦ elim (Option-cases (get id now s.active_connections)) [
      | inl e' ↦ ground (arith, e, e')
      | inr ((c, m), e') ↦
          let (old, found, ec, _) = get_lem id now s.active_connections m c e' in
          let size : c.file.chunks.chunk_size < u64_mod =
            rw ec (lookup-AllValues HasWordSize id s.active_connections old sizes found) in
          ground (
            arith,
            e,
            e',
            mul_i64-eq-mul64 c.file.chunks.chunk_size chunk.chunk_id size (omega arith),
          )
    ]
  ]
