-- ===== src/Data/Transfer/RoundTrip.antt =====
-- What is saved is what is read: SaveData followed by GetData of the same chunk.
use mhserver.Common.{
  ℕ, ◌+◌, ◌*◌, ◌%◌, ◌≤◌, ◌<◌, ◌≡◌, ◌∙◌, ap, true, none, some, List, [], ◌∷◌, Text, arith, inl, inr,
  ◌⊎◌, length, take, drop, ok,
}
use mhserver.Common.Dict.{lookup, insert, lookup-insert, nat_eq}
use mhserver.Common.Int.{pos}
use mhserver.Common.Words.{to_i64, max_alloc, i64_mod, u64_mod}
use mhserver.Os.{HasFiles, IsWorking, patch, eof}
use mhserver.Os.Patches.{take-drop-patch}
use mhserver.Data.Connections.{
  Connection, rdwr, get, update_expiration, update_loaded_file_chunks, is_loaded, one_more,
}
use mhserver.Data.Messages.{SaveChunk}
use mhserver.Data.Semaphore.{has_room}
use mhserver.Data.Server.{Env, DataServer}
use mhserver.Data.Transfer.{save_data, get_data}

pub to_i64_of_small : (n : ℕ) → n < i64_mod → to_i64 n ≡ pos n
to_i64_of_small n h = ground arith

module _ (env : Env) where
  -- A connection that SaveData can use, and a chunk for it.
  pub record CanSave (uuid : Text) (k : ℕ) (bytes : List ℕ) (s : DataServer env.os) : Type 0 where
    pub id : ℕ
    pub conn : Connection env.os.Handle
    pub handle : env.os.Handle
    pub room : has_room s.sem ≡ true
    pub parsed : env.parse_uuid uuid ≡ some id
    pub found : lookup id s.active_connections ≡ some conn
    pub for_saving : conn.mode ≡ rdwr
    pub opened : conn.file.handle ≡ some handle
    pub incomplete : conn.file.chunks.loaded < conn.file.chunks.count
    pub size_small : conn.file.chunks.chunk_size < i64_mod
    pub offset_small : conn.file.chunks.chunk_size * k < i64_mod
    pub not_empty : 0 < length bytes
    pub fits : length bytes ≤ conn.file.chunks.chunk_size

  abbrev pub the_chunk : Text → List ℕ → ℕ → SaveChunk
  the_chunk uuid bytes offset = record {
    uuid = uuid;
    part = some (record { chunk = bytes; offset = offset });
  }

  -- The connection when its chunk has been written.
  abbrev pub counted : ℕ → Connection env.os.Handle → Connection env.os.Handle
  counted later c =
      update_expiration later
        (record c { file = record (c.file) { chunks = one_more (c.file.chunks) } })

  pub save_data_lem :
      (now later : ℕ) (uuid : Text) (k : ℕ) (bytes : List ℕ) (s : DataServer env.os)
      (w : env.os.World)
      → (h : CanSave uuid k bytes s)
      → env.os.write_at h.handle bytes (pos (h.conn.file.chunks.chunk_size * k)) s.world ≡ (w, none)
      → let r =
          save_data env now later (the_chunk uuid bytes (h.conn.file.chunks.chunk_size * k)) s in
        (r.1 ≡ ok tt)
        × (r.0.world ≡ w)
        × (r.0.sem ≡ s.sem)
        × (lookup h.id r.0.active_connections ≡ some (counted later h.conn))
  unfolding save_data get update_loaded_file_chunks is_loaded update_expiration
  save_data_lem now later uuid k bytes s w h written = ground (
    arith,
    h.room,
    h.parsed,
    h.found,
    h.for_saving,
    h.opened,
    h.incomplete,
    h.fits,
    written,
    to_i64_of_small (h.conn.file.chunks.chunk_size * k) h.offset_small,
    to_i64_of_small h.conn.file.chunks.chunk_size h.size_small,
    lookup-insert h.id h.id (update_expiration now h.conn) s.active_connections,
    lookup-insert h.id h.id (counted later h.conn)
        (insert h.id (update_expiration now h.conn) s.active_connections),
  )

  pub get_data_lem :
      (t id : ℕ) (uuid : Text) (k : ℕ) (conn : Connection env.os.Handle) (handle : env.os.Handle)
      (b : ℕ) (bytes : List ℕ) (s : DataServer env.os)
      → has_room s.sem ≡ true
      → env.parse_uuid uuid ≡ some id
      → lookup id s.active_connections ≡ some conn
      → conn.file.handle ≡ some handle
      → conn.file.chunks.chunk_size * k < i64_mod
      → conn.file.chunks.chunk_size ≤ max_alloc
      → (env.os.read_at handle conn.file.chunks.chunk_size
            (pos (conn.file.chunks.chunk_size * k))
            s.world
          ≡ (b ∷ bytes, none))
        ⊎ (env.os.read_at handle conn.file.chunks.chunk_size
              (pos (conn.file.chunks.chunk_size * k))
              s.world
            ≡ (b ∷ bytes, some eof))
      → (get_data env t (record { uuid = uuid; chunk_id = k }) s).1
        ≡ ok (record { chunk = b ∷ bytes; offset = conn.file.chunks.chunk_size * k })
  unfolding get_data get update_expiration
  get_data_lem t id uuid k conn handle b bytes s room parsed found opened small made (inl read) =
      let offset = conn.file.chunks.chunk_size * k in
      let same : offset % u64_mod ≡ offset = omega arith in
      ground (arith, same, to_i64_of_small offset small)
  get_data_lem t id uuid k conn handle b bytes s room parsed found opened small made (inr read) =
      let offset = conn.file.chunks.chunk_size * k in
      let same : offset % u64_mod ≡ offset = omega arith in
      ground (arith, same, to_i64_of_small offset small)

  -- What a working device reads back behind a write of a chunk.
  read_back :
      (laws : HasFiles env.os) (works : IsWorking env.os laws)
      → (h : env.os.Handle) (n offset : ℕ) (bytes : List ℕ) (w w' : env.os.World) → 0 < length bytes
      → laws.IsReadable h w'
      → env.os.write_at h bytes (pos offset) w ≡ (w', none)
      → length bytes ≤ n
      → (length bytes ≡ n) ⊎ (length (laws.contents h w) ≤ offset + length bytes)
      → (env.os.read_at h n (pos offset) w' ≡ (bytes, none))
        ⊎ (env.os.read_at h n (pos offset) w' ≡ (bytes, some eof))
  read_back laws works h n offset bytes w w' some_byte readable written le ends =
      let back : take n (drop offset (laws.contents h w')) ≡ bytes =
        rw (laws.written h bytes offset w w' some_byte written)
          (take-drop-patch (laws.contents h w) offset bytes n le ends) in
      let (got, outcome) = works.reads h n offset w' readable in
      elim outcome [
        | inl e ↦
            let same : got ≡ bytes = (laws.read_full h n offset w' got e).0 ∙ back in
            inl (e ∙ ap (λ x. (x, none)) same)
        | inr e ↦
            let same : got ≡ bytes = (laws.read_short h n offset w' got e).0 ∙ back in
            inr (e ∙ ap (λ x. (x, some eof)) same)
      ]

  -- On a working device a chunk that can be saved is saved, and is then what GetData returns
  -- under its number, with its offset: if it is a whole chunk, or the file ends with it. The
  -- file then holds its old contents with the chunk in place, and one more chunk counts as loaded.
  pub save_data-get_data :
      (laws : HasFiles env.os)
      → (works : IsWorking env.os laws)
      → (now later t : ℕ) (uuid : Text) (k : ℕ) (bytes : List ℕ) (s : DataServer env.os)
      → (h : CanSave uuid k bytes s)
      → laws.IsReadable h.handle s.world × laws.IsWritable h.handle s.world
      → h.conn.file.chunks.chunk_size ≤ max_alloc
      → h.conn.file.chunks.chunk_size * k + length bytes ≤ works.largest
      → let size = h.conn.file.chunks.chunk_size in
        (length bytes ≡ size) ⊎ (length (laws.contents h.handle s.world) ≤ size * k + length bytes)
        → let r =
            save_data env now later
              (record { uuid = uuid; part = some (record { chunk = bytes; offset = size * k }) })
              s in
          (r.1 ≡ ok tt)
          × ((get_data env t (record { uuid = uuid; chunk_id = k }) r.0).1
              ≡ ok (record { chunk = bytes; offset = size * k }))
          × (laws.contents h.handle r.0.world
              ≡ patch (laws.contents h.handle s.world) (size * k) bytes)
          × (lookup h.id r.0.active_connections ≡ some (counted later h.conn))
  unfolding update_expiration
  save_data-get_data laws works now later t uuid k [] s h usable made inside ends =
      elim h.not_empty [ ]
  save_data-get_data laws works now later t uuid k (b ∷ bytes) s h usable made inside ends =
      let size = h.conn.file.chunks.chunk_size in
      let (w, wrote, (readable, _)) =
        works.writes h.handle (b ∷ bytes) (size * k) s.world usable inside in
      let saved = save_data_lem now later uuid k (b ∷ bytes) s w h wrote in
      let r = save_data env now later (the_chunk uuid (b ∷ bytes) (size * k)) s in
      let (done_ok, world, sem, found) = saved in
      let reads =
        read_back laws works h.handle size (size * k) (b ∷ bytes) s.world w h.not_empty readable
          wrote h.fits ends in
      let room : has_room r.0.sem ≡ true = ap has_room sem ∙ h.room in
      (
        done_ok,
        get_data_lem t h.id uuid k (counted later h.conn) h.handle b bytes r.0 room h.parsed found
            h.opened h.offset_small made (rw world reads),
        rw world (laws.written h.handle (b ∷ bytes) (size * k) s.world w h.not_empty wrote),
        found,
      )
