-- ===== src/Data/Overlap/Follows.antt =====
-- What a whole call can do to the counters of connections, also where calls of SaveData overlap.
use mhserver.Common.{ℕ, ◌<◌, ◌≡◌, ◌⊎◌, refl, ◌∙◌, some, arith, inl, inr}
use mhserver.Common.Dict.{
  lookup, insert, nat_eq, NodupKeys, lookup-insert, insert-NodupKeys, delete_where-NodupKeys,
  lookup-delete_where,
}
use mhserver.Os.{Os}
use mhserver.Data.Connections.{
  Uuid, Connection, Connections, one_more, is_expired, update_expiration, push, get,
  update_loaded_file_chunks, clean,
}
use mhserver.Data.Connections.Laws.{IsWithin, get_lem, update_loaded_lem}

module _ {H : Type 0} where
  -- A connection has the counters that its identifier had before.
  abbrev pub HasCounters : Connections H → Uuid → Connection H → Type 0
  HasCounters m id c =
      (old : Connection H) × (lookup id m ≡ some old)
      × (c.file.chunks.loaded ≡ old.file.chunks.loaded)
      × (c.file.chunks.count ≡ old.file.chunks.count)

  -- One map comes from another by calls that run as a whole: each connection has its old counters, or is
  -- within its count.
  pub data Follows (m m' : Connections H) : Type 0 where
    follows :
        (NodupKeys m
          → NodupKeys m'
            × ((id : Uuid) (c : Connection H)
                → lookup id m' ≡ some c
                → HasCounters m id c ⊎ IsWithin c))
        → Follows m m'

  pub Follows-NodupKeys : (m m' : Connections H) → Follows m m' → NodupKeys m → NodupKeys m'
  Follows-NodupKeys m m' (follows f) u = (f u).0

  pub Follows-refl : (m : Connections H) → Follows m m
  Follows-refl m = follows λ u. (u, λ id c e. inl (c, e, refl, refl))

  pub Follows-trans : (m m' m'' : Connections H) → Follows m m' → Follows m' m'' → Follows m m''
  Follows-trans m m' m'' (follows f) (follows g) = follows λ u.
      let (u', f') = f u in
      let (u'', g') = g u' in
      (
        u'',
        λ id c e. elim (g' id c e) [
          | inr within ↦ inr within
          | inl (mid, found, loaded, count) ↦ elim (f' id mid found) [
            | inr within ↦ inr (omega (arith, loaded, count))
            | inl (old, found', loaded', count') ↦
                inl (old, found', loaded ∙ loaded', count ∙ count')
          ]
        ],
      )

  insert-Follows :
      (id : Uuid) (c : Connection H) (m : Connections H)
      → HasCounters m id c ⊎ IsWithin c
      → Follows m (insert id c m)
  insert-Follows id c m h = follows λ u. (
    insert-NodupKeys id c m u,
    λ k d e. elim (nat_eq.dec id k) [
      | yes same ↦
          let ed : d ≡ c = ground (arith, lookup-insert k id c m, same) in rw (ed, ← same) h
      | no other ↦ inl (d, ground (arith, lookup-insert k id c m, other), refl, refl)
    ],
  )

  pub get-Follows :
      (id : Uuid) (now : ℕ) (m m' : Connections H) (c : Connection H)
      → get id now m ≡ some (c, m')
      → Follows m m'
  unfolding update_expiration
  get-Follows id now m m' c h =
      let (old, found, ec, em) = get_lem id now m m' c h in
      rw em (insert-Follows id c m (inl (old, found, ground (arith, ec), ground (arith, ec))))

  pub push-Follows :
      (id : Uuid) (c : Connection H) (m : Connections H) → IsWithin c → Follows m (push id c m)
  unfolding push
  push-Follows id c m h = insert-Follows id c m (inr h)

  pub update_loaded-Follows :
      (id : Uuid) (now : ℕ) (m m' : Connections H) (c : Connection H)
      → lookup id m ≡ some c
      → c.file.chunks.loaded < c.file.chunks.count
      → update_loaded_file_chunks id now m ≡ some m'
      → Follows m m'
  unfolding update_expiration
  update_loaded-Follows id now m m' c e lt h =
      let n =
        update_expiration now
          (record c { file = record (c.file) { chunks = one_more (c.file.chunks) } }) in
      rw (update_loaded_lem id now m m' c e h) (insert-Follows id n m (inr (ground arith)))

module _ (os : Os) where
  pub clean-Follows :
      (now : ℕ) (m : Connections os.Handle) (w : os.World) → Follows m (clean os now m w).0
  unfolding clean
  clean-Follows now m w = follows λ u. (
    delete_where-NodupKeys _ m u,
    λ id c e. inl (c, ground (arith, lookup-delete_where (is_expired now) id m u), refl, refl),
  )
