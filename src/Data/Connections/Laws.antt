-- ===== src/Data/Connections/Laws.antt =====
-- What single operations on the map of connections do and keep.
use mhserver.Common.{
  ℕ, ◌+◌, ◌≤◌, ◌<◌, ◌≡◌, none, some, arith, ite, leb, if◌then◌else◌, inl, inr, Option-cases,
}
use mhserver.Common.Dict.{
  lookup, insert, nat_eq, NodupKeys, AllValues, lookup-insert, insert-NodupKeys, insert-AllValues,
  lookup-AllValues, delete_where-NodupKeys, delete_where-AllValues, lookup-delete_where,
  keep_unless,
}
use mhserver.Common.Time.{unix}
use mhserver.Os.{Os}
use mhserver.Data.Connections.{
  Uuid, Connection, Connections, one_more, is_expired, update_expiration, push, get,
  update_loaded_file_chunks, file_lifetime, clean,
}

module _ {H : Type 0} where
  -- No more chunks are counted as loaded than there are.
  abbrev pub IsWithin : Connection H → Type 0
  IsWithin c = c.file.chunks.loaded ≤ c.file.chunks.count

  -- Each identifier stands for one connection, and each connection is within its count.
  abbrev pub IsValid : Connections H → Type 0
  IsValid m = NodupKeys m × AllValues IsWithin m

  pub push-IsValid :
      (id : Uuid) (c : Connection H) (m : Connections H)
      → IsWithin c
      → IsValid m
      → IsValid (push id c m)
  unfolding push
  push-IsValid id c m h (u, all) =
      (insert-NodupKeys id c m u, insert-AllValues IsWithin id c m h all)

  -- What `Get` returns: the stored connection with a new expiration, which is also stored.
  pub get_lem :
      (id : Uuid) (now : ℕ) (m m' : Connections H) (c : Connection H)
      → get id now m ≡ some (c, m')
      → (old : Connection H) × (lookup id m ≡ some old)
        × (c ≡ update_expiration now old)
        × (m' ≡ insert id c m)
  unfolding get
  get_lem id now m m' c h = elim (Option-cases (lookup id m)) [
    | inl e ↦ absurd (ground (arith, e))
    | inr (old, e) ↦ (old, e, ground (arith, e), ground (arith, e))
  ]

  pub lookup-get :
      (id k : Uuid) (now : ℕ) (m m' : Connections H) (c : Connection H)
      → get id now m ≡ some (c, m')
      → lookup k m' ≡ ite (nat_eq.dec id k) (some c) (lookup k m)
  lookup-get id k now m m' c h =
      let (old, e, _, em) = get_lem id now m m' c h in rw em (lookup-insert k id c m)

  pub get-IsValid :
      (id : Uuid) (now : ℕ) (m m' : Connections H) (c : Connection H)
      → get id now m ≡ some (c, m')
      → IsValid m
      → IsValid m' × IsWithin c
  unfolding update_expiration
  get-IsValid id now m m' c h (u, all) =
      let (old, e, ec, em) = get_lem id now m m' c h in
      let within : IsWithin c = rw ec (lookup-AllValues IsWithin id m old all e) in
      (rw em (insert-NodupKeys id c m u, insert-AllValues IsWithin id c m within all), within)

  pub update_loaded_lem :
      (id : Uuid) (now : ℕ) (m m' : Connections H) (c : Connection H)
      → lookup id m ≡ some c
      → update_loaded_file_chunks id now m ≡ some m'
      → m'
        ≡ insert id
            (update_expiration now
              (record c { file = record (c.file) { chunks = one_more (c.file.chunks) } }))
            m
  unfolding update_loaded_file_chunks
  update_loaded_lem id now m m' c e h = ground (arith, e)

  -- A count below the number of chunks is raised by one.
  pub update_loaded-IsValid :
      (id : Uuid) (now : ℕ) (m m' : Connections H) (c : Connection H)
      → lookup id m ≡ some c
      → c.file.chunks.loaded < c.file.chunks.count
      → update_loaded_file_chunks id now m ≡ some m'
      → IsValid m
      → IsValid m'
  unfolding update_expiration
  update_loaded-IsValid id now m m' c e lt h (u, all) =
      let n =
        update_expiration now
          (record c { file = record (c.file) { chunks = one_more (c.file.chunks) } }) in
      rw (update_loaded_lem id now m m' c e h)
        (insert-NodupKeys id n m u, insert-AllValues IsWithin id n m (ground arith) all)

module _ (os : Os) where
  pub clean-IsValid :
      (now : ℕ) (m : Connections os.Handle) (w : os.World)
      → IsValid m
      → IsValid (clean os now m w).0
  unfolding clean
  clean-IsValid now m w (u, all) =
      (delete_where-NodupKeys _ m u, delete_where-AllValues IsWithin _ m all)

  -- The cleaner removes exactly the expired connections.
  pub lookup-clean :
      (id : Uuid) (now : ℕ) (m : Connections os.Handle) (w : os.World)
      → IsValid m
      → lookup id (clean os now m w).0 ≡ keep_unless (is_expired now) (lookup id m)
  unfolding clean
  lookup-clean id now m w v = lookup-delete_where (is_expired now) id m (v.0)

  -- In a valid map, a connection that was used at a time survives the cleaner as long as not more
  -- than its lifetime, in whole seconds of the clock, has passed since; then it is gone.
  pub get-clean :
      (id : Uuid) (now later : ℕ) (m m' : Connections os.Handle) (c : Connection os.Handle)
      (w : os.World)
      → IsValid m
      → get id now m ≡ some (c, m')
      → lookup id (clean os later m' w).0
        ≡ (if leb (unix later) (unix (now + file_lifetime)) then some c else none)
  unfolding is_expired update_expiration
  get-clean id now later m m' c w v h =
      let (old, _, ec, _) = get_lem id now m m' c h in
      ground (
        arith,
        lookup-clean id later m' w (get-IsValid id now m m' c h v).0,
        lookup-get id id now m m' c h,
        ec,
      )
