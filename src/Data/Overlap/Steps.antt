-- ===== src/Data/Overlap/Steps.antt =====
-- What the two steps of SaveData do to the semaphore and to the map of connections.
use mhserver.Common.{
  ℕ, ◌+◌, ◌≤◌, ◌<◌, ◌≡◌, ◌⊎◌, refl, some, arith, inl, inr, Option-cases, ok, err, ◌==◌,
  if◌then◌else◌,
}
use mhserver.Common.Dict.{lookup, nat_eq, NodupKeys, lookup-insert, insert-NodupKeys}
use mhserver.Data.Connections.{
  Uuid, Connection, Connections, get, update_loaded_file_chunks, is_loaded, update_expiration,
  one_more,
}
use mhserver.Data.Connections.Laws.{update_loaded_lem}
use mhserver.Data.Errors.{DataError}
use mhserver.Data.Messages.{SaveChunk}
use mhserver.Data.Semaphore.{acquired, released}
use mhserver.Data.Server.{Env, DataServer}
use mhserver.Data.Overlap.{Pending, begin, finish}
use mhserver.Data.Overlap.Follows.{Follows, Follows-refl, get-Follows}

module _ (env : Env) where
  -- What a first step has found that lets its call go on.
  pub record IsBegun (now : ℕ) (p : Pending env) (s s' : DataServer env.os) : Type 0 where
    pub room : s.sem.in_use < s.sem.capacity
    pub conn : Connection env.os.Handle
    pub found : get p.id now s.active_connections ≡ some (conn, s'.active_connections)
    pub incomplete : conn.file.chunks.loaded < conn.file.chunks.count
    pub place : s'.sem ≡ acquired s.sem

  pub begin_ok :
      (now : ℕ) (chunk : SaveChunk) (p : Pending env) (s : DataServer env.os)
      → (begin env now chunk s).1 ≡ ok p
      → IsBegun now p s (begin env now chunk s).0
  unfolding begin is_loaded
  begin_ok now chunk p s e = elim (Option-cases (env.parse_uuid chunk.uuid)) [
    | inl bad ↦ absurd (ground (arith, bad))
    | inr (id, parsed) ↦ elim (Option-cases (get id now s.active_connections)) [
      | inl missing ↦ absurd (ground (arith, parsed, missing))
      | inr ((c, m'), found) ↦ record {
        room = ground arith;
        conn = c;
        found = ground (arith, parsed, found);
        incomplete = ground (arith, parsed, found);
        place = ground (arith, parsed, found);
      }
    ]
  ]

  pub begin_err :
      (now : ℕ) (chunk : SaveChunk) (e : DataError) (s : DataServer env.os)
      → (begin env now chunk s).1 ≡ err e
      → let s' = (begin env now chunk s).0 in
        (s.sem.in_use < s.sem.capacity)
        × (s'.sem ≡ s.sem)
        × Follows s.active_connections s'.active_connections
  unfolding begin is_loaded
  begin_err now chunk e s h =
      let m = s.active_connections in
      elim (Option-cases (env.parse_uuid chunk.uuid)) [
        | inl bad ↦ ground (arith, bad, Follows-refl m)
        | inr (id, parsed) ↦ elim (Option-cases (get id now m)) [
          | inl missing ↦ ground (arith, parsed, missing, Follows-refl m)
          | inr ((c, m'), found) ↦
              ground (arith, parsed, found, Follows-refl m, get-Follows id now m m' c found)
        ]
      ]

  pub finish_lem :
      (later : ℕ) (p : Pending env) (s : DataServer env.os)
      → let s' = (finish env later p s).0 in
        (s'.sem ≡ released s.sem)
        × ((s'.active_connections ≡ s.active_connections)
            ⊎ (update_loaded_file_chunks p.id later s.active_connections
                ≡ some s'.active_connections))
  unfolding finish
  finish_lem later p s =
      elim (Option-cases (update_loaded_file_chunks p.id later s.active_connections)) [
        | inl gone ↦ ground (arith, gone)
        | inr (m', counted) ↦ ground (arith, counted)
      ]

  -- A second step counts at most one chunk, for its own connection.
  abbrev pub Counts : Uuid → Connections env.os.Handle → Connections env.os.Handle → Type 0
  Counts k m m' =
      NodupKeys m'
      × ((id : Uuid) (c : Connection env.os.Handle)
          → lookup id m' ≡ some c
          → (old : Connection env.os.Handle) × (lookup id m ≡ some old)
            × (c.file.chunks.loaded ≤ old.file.chunks.loaded + (if k == id then 1 else 0))
            × (c.file.chunks.count ≡ old.file.chunks.count))

  updated_lem :
      (k : Uuid) (later : ℕ) (m m' : Connections env.os.Handle)
      → NodupKeys m
      → update_loaded_file_chunks k later m ≡ some m'
      → Counts k m m'
  unfolding update_expiration update_loaded_file_chunks
  updated_lem k later m m' u h = elim (Option-cases (lookup k m)) [
    | inl missing ↦ absurd (ground (arith, missing))
    | inr (old, found) ↦
        let new =
          update_expiration later
            (record old { file = record (old.file) { chunks = one_more (old.file.chunks) } }) in
        rw (update_loaded_lem k later m m' old found h) (
          insert-NodupKeys k new m u,
          λ id c e. elim (nat_eq.dec k id) [
            | yes same ↦ (
              old,
              ground (arith, found, same),
              ground (arith, lookup-insert id k new m, same),
              ground (arith, lookup-insert id k new m, same),
            )
            | no other ↦
                (c, ground (arith, lookup-insert id k new m, other), ground (arith, other), refl)
          ],
        )
  ]

  pub finish_loads :
      (later : ℕ) (p : Pending env) (s : DataServer env.os)
      → NodupKeys s.active_connections
      → Counts p.id s.active_connections (finish env later p s).0.active_connections
  finish_loads later p s u = elim (finish_lem later p s).1 [
    | inl same ↦ rw same (u, λ id c e. (c, e, omega arith, refl))
    | inr counted ↦
        updated_lem p.id later s.active_connections (finish env later p s).0.active_connections u
          counted
  ]
