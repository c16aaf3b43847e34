-- ===== src/Data/Download/Contents.antt =====
-- A whole download gives what the open file holds, and a whole upload comes back.
use native.Mathlib.Nat.{mul-le-mul_left}
use mhserver.Common.{
  ℕ, suc, ◌+◌, ◌-◌, ◌*◌, ◌%◌, ◌≤◌, ◌<◌, ◌≡◌, ◌⊎◌, refl, ◌∙◌, ap, true, none, some, List, [], ◌∷◌,
  ◌++◌, Text, length, arith, inl, inr, ok, err, panic, blocked, Outcome, Method, then_on, ◌>>=◌,
  done,
}
use mhserver.Common.Dict.{lookup, nat_eq, lookup-insert}
use mhserver.Common.Int.{pos}
use mhserver.Common.Words.{u32_mod, i64_mod, max_alloc, u64_mod}
use mhserver.Os.{HasFiles, IsWorking, eof}
use mhserver.Data.Connections.{Connection, update_expiration, get}
use mhserver.Data.Errors.{DataError}
use mhserver.Data.Messages.{FilePart}
use mhserver.Data.Semaphore.{has_room}
use mhserver.Data.Server.{Env, DataServer, Call}
use mhserver.Data.Service.{run}
use mhserver.Data.Transfer.{get_data}
use mhserver.Data.Transfer.RoundTrip.{get_data_lem, to_i64_of_small}
use mhserver.Data.Upload.{Turn, chunk_at, saves}
use mhserver.Data.Upload.Chunks.{is_sent, AllInside, length-chunk_at, patched_all}
use mhserver.Data.Upload.Contents.{Receives, sent_all}
use mhserver.Data.Download.{get_all}
use mhserver.Data.Download.Chunks.{chunks_from, chunks_from_all}

some_bytes : (xs : List ℕ) → 0 < length xs → (b : ℕ) × (bytes : List ℕ) × (xs ≡ b ∷ bytes)
some_bytes [] h = absurd (omega arith)
some_bytes (b ∷ bytes) h = (b, bytes, refl)

le_pred : (j n : ℕ) → j < 0 + n → j ≤ n - 1
le_pred j n lt = omega arith

of_pair :
    {S E A B : Type 0} (f : A → Method S E B) (a : A) (r : S × Outcome E A)
    → r.1 ≡ ok a
    → then_on f r ≡ f a r.0
of_pair f a (s, ok b) e = ground arith
of_pair f a (s, err x) e = absurd (ground arith)
of_pair f a (s, panic) e = absurd (ground arith)
of_pair f a (s, blocked) e = absurd (ground arith)

bound :
    {S E A B : Type 0} (m : Method S E A) (f : A → Method S E B) (a : A) (s : S)
    → (m s).1 ≡ ok a
    → (m >>= f) s ≡ f a (m s).0
bound m f a s e = of_pair f a (m s) e

module _ (env : Env) where
  -- An open file in chunks of `size` bytes, in either mode.
  pub record Offers (uuid : Text) (id size : ℕ) (handle : env.os.Handle) (s : DataServer env.os)
      : Type 0 where
    pub conn : Connection env.os.Handle
    pub room : has_room s.sem ≡ true
    pub parsed : env.parse_uuid uuid ≡ some id
    pub found : lookup id s.active_connections ≡ some conn
    pub opened : conn.file.handle ≡ some handle
    pub sized : conn.file.chunks.chunk_size ≡ size

  -- What a read of some bytes gives, at its end or before.
  abbrev GivesBytes : env.os.Handle → ℕ → ℕ → env.os.World → List ℕ → Type 0
  GivesBytes handle n offset w bytes =
      (env.os.read_at handle n (pos offset) w ≡ (bytes, none))
      ⊎ (env.os.read_at handle n (pos offset) w ≡ (bytes, some eof))

  -- GetData then prolongs the connection and changes nothing else.
  kept :
      (t id : ℕ) (uuid : Text) (k : ℕ) (conn : Connection env.os.Handle) (handle : env.os.Handle)
      (b : ℕ) (bytes : List ℕ) (s : DataServer env.os)
      → has_room s.sem ≡ true
      → env.parse_uuid uuid ≡ some id
      → lookup id s.active_connections ≡ some conn
      → conn.file.handle ≡ some handle
      → conn.file.chunks.chunk_size * k < i64_mod
      → conn.file.chunks.chunk_size ≤ max_alloc
      → GivesBytes handle conn.file.chunks.chunk_size
          (conn.file.chunks.chunk_size * k)
          s.world
          (b ∷ bytes)
      → let r = get_data env t (record { uuid = uuid; chunk_id = k }) s in
        (r.0.world ≡ s.world)
        × (r.0.sem ≡ s.sem)
        × (lookup id r.0.active_connections ≡ some (update_expiration t conn))
  unfolding get_data get update_expiration
  kept t id uuid k conn handle b bytes s room parsed found opened small made (inl read) =
      let offset = conn.file.chunks.chunk_size * k in
      let same : offset % u64_mod ≡ offset = omega arith in
      ground (
        arith,
        same,
        to_i64_of_small offset small,
        lookup-insert id id (update_expiration t conn) s.active_connections,
      )
  kept t id uuid k conn handle b bytes s room parsed found opened small made (inr read) =
      let offset = conn.file.chunks.chunk_size * k in
      let same : offset % u64_mod ≡ offset = omega arith in
      ground (
        arith,
        same,
        to_i64_of_small offset small,
        lookup-insert id id (update_expiration t conn) s.active_connections,
      )

  module _ (laws : HasFiles env.os) (works : IsWorking env.os laws) (uuid : Text) (id size : ℕ)
      (handle : env.os.Handle) (file : List ℕ) (file_small : length file < i64_mod)
      (positive : 0 < size) (made : size ≤ max_alloc) where
    read_lem :
        (k : ℕ) (w : env.os.World)
        → laws.contents handle w ≡ file
        → laws.IsReadable handle w
        → GivesBytes handle size (size * k) w (chunk_at size file k)
    read_lem k w holds readable =
        let (bytes, outcome) = works.reads handle size (size * k) w readable in
        elim outcome [
          | inl e ↦
              let same : bytes ≡ chunk_at size file k =
                (laws.read_full handle size (size * k) w bytes e).0
                ∙ ap (λ f. chunk_at size f k) holds in
              inl (e ∙ ap (λ x. (x, none)) same)
          | inr e ↦
              let same : bytes ≡ chunk_at size file k =
                (laws.read_short handle size (size * k) w bytes e).0
                ∙ ap (λ f. chunk_at size f k) holds in
              inr (e ∙ ap (λ x. (x, some eof)) same)
        ]

    got :
        (t k : ℕ) (s : DataServer env.os)
        → size * k < length file
        → laws.contents handle s.world ≡ file
        → laws.IsReadable handle s.world
        → Offers uuid id size handle s
        → let r = get_data env t (record { uuid = uuid; chunk_id = k }) s in
          (r.1 ≡ ok (record { chunk = chunk_at size file k; offset = size * k }))
          × (laws.contents handle r.0.world ≡ file)
          × laws.IsReadable handle r.0.world
          × Offers uuid id size handle r.0
    unfolding update_expiration
    got t k s inside holds readable h =
        let (b, bytes, split) =
          some_bytes (chunk_at size file k) (omega (arith, length-chunk_at size file k)) in
        let small : h.conn.file.chunks.chunk_size * k < i64_mod = rw h.sized (omega arith) in
        let sized : h.conn.file.chunks.chunk_size ≤ max_alloc = rw h.sized made in
        let reads : GivesBytes handle h.conn.file.chunks.chunk_size
            (h.conn.file.chunks.chunk_size * k) s.world (b ∷ bytes) =
          rw (h.sized, ← split) (read_lem k s.world holds readable) in
        let reply =
          get_data_lem env t id uuid k h.conn handle b bytes s h.room h.parsed h.found h.opened
            small sized reads in
        let (world, sem, found) =
          kept t id uuid k h.conn handle b bytes s h.room h.parsed h.found h.opened small sized
            reads in
        (
          rw (h.sized, ← split) at reply,
          ap (laws.contents handle) world ∙ holds,
          rw world readable,
          record {
            conn = update_expiration t h.conn;
            room = ap has_room sem ∙ h.room;
            parsed = h.parsed;
            found = found;
            opened = h.opened;
            sized = h.sized;
          },
        )

    -- As many chunks as there are readings of the clock, all of them in the file.
    got_all :
        (k : ℕ) (times : List ℕ) (s : DataServer env.os)
        → ((j : ℕ) → j < k + length times → size * j < length file)
        → laws.contents handle s.world ≡ file
        → laws.IsReadable handle s.world
        → Offers uuid id size handle s
        → (get_all env uuid k times s).1 ≡ ok (chunks_from size file k (length times))
    unfolding get_all
    got_all k [] s inside holds readable h = refl
    got_all k (t ∷ times) s inside holds readable h =
        let call = get_data env t (record { uuid = uuid; chunk_id = k }) in
        let part : FilePart = record { chunk = chunk_at size file k; offset = size * k } in
        let (reply, holds', readable', h') = got t k s (inside k (omega arith)) holds readable h in
        let rest =
          got_all (suc k) times (call s).0 (λ j lt. inside j (omega arith)) holds' readable' h' in
        let next : FilePart → Call env (List ℕ) =
          λ p. get_all env uuid (suc k) times >>= (λ others. done (p.chunk ++ others)) in
        ap (λ (r : DataServer env.os × Outcome DataError (List ℕ)). r.1)
          (bound call next part s reply)
        ∙ ap (λ (r : DataServer env.os × Outcome DataError (List ℕ)). r.1)
            (bound (get_all env uuid (suc k) times) (λ others. done (part.chunk ++ others))
              (chunks_from size file (suc k) (length times)) (call s).0 rest)

    -- On a working device, getting the chunks of an open file one after another gives the file: as many of
    -- them as hold it, none of them behind its end.
    pub downloaded :
        (times : List ℕ) (s : DataServer env.os)
        → size * (length times - 1) < length file
        → length file ≤ size * length times
        → laws.contents handle s.world ≡ file
        → laws.IsReadable handle s.world
        → Offers uuid id size handle s
        → (get_all env uuid 0 times s).1 ≡ ok file
    downloaded times s inside covered holds readable h =
        got_all 0 times s
          (λ j lt. omega (arith, mul-le-mul_left size (le_pred j (length times) lt))) holds readable
          h
        ∙ ap ok (chunks_from_all size file (length times) covered)

    pub uploaded-downloaded :
        (count : ℕ) (ts : List Turn) (times : List ℕ) (s : DataServer env.os)
        → size < i64_mod
        → count < u32_mod
        → length file ≤ works.largest
        → Receives env uuid id size count 0 handle s
        → laws.IsReadable handle s.world × laws.IsWritable handle s.world
        → length (laws.contents handle s.world) ≤ length file
        → AllInside size file ts
        → ((k : ℕ) → size * k < length file → is_sent k ts ≡ true)
        → length ts ≡ count
        → length times ≡ count
        → size * (count - 1) < length file
        → length file ≤ size * count
        → (get_all env uuid 0 times (run env (saves uuid size file ts) s)).1 ≡ ok file
    uploaded-downloaded count ts times s size_small count_small largest h usable short inside all
          sent asked begun covered =
        let s' = run env (saves uuid size file ts) s in
        let (h', holds, (readable, _)) =
          sent_all env laws works uuid id size count handle file size_small file_small count_small
            positive largest ts 0 s inside (omega arith) h usable in
        let whole =
          holds
          ∙ patched_all size file ts (laws.contents handle s.world) positive short inside all in
        downloaded times s' (rw asked begun) (rw asked covered) whole readable (record {
          conn = h'.conn;
          room = h'.room;
          parsed = h'.parsed;
          found = h'.found;
          opened = h'.opened;
          sized = h'.sized;
        })
