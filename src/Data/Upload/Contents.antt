-- ===== src/Data/Upload/Contents.antt =====
-- A whole upload: what the file holds when every chunk has been sent.
use mhserver.Common.{
  ℕ, suc, ◌+◌, ◌*◌, ◌≤◌, ◌<◌, ◌≡◌, refl, ◌∙◌, ap, true, some, List, [], ◌∷◌, Text, length, arith,
  err, Option,
}
use mhserver.Common.Dict.{lookup, nat_eq}
use mhserver.Common.Words.{u32_mod, i64_mod}
use mhserver.Os.{HasFiles, IsWorking, patch}
use mhserver.Data.Connections.{Connection, rdwr, update_expiration, get, is_loaded}
use mhserver.Data.Errors.{unexpected_file_change}
use mhserver.Data.Messages.{FilePart}
use mhserver.Data.Semaphore.{has_room}
use mhserver.Data.Server.{Env, DataServer}
use mhserver.Data.Service.{step, run}
use mhserver.Data.Transfer.{save_data}
use mhserver.Data.Transfer.RoundTrip.{CanSave, counted, save_data_lem, the_chunk}
use mhserver.Data.Upload.{Turn, chunk_at, chunk_message, saves, patched}
use mhserver.Data.Upload.Chunks.{is_sent, AllInside, length-chunk_at, patched_all}

module _ (env : Env) where
  -- A connection for saving, of `count` chunks of `size` bytes, `loaded` of which were counted.
  pub record Receives (uuid : Text) (id size count loaded : ℕ) (handle : env.os.Handle)
      (s : DataServer env.os) : Type 0 where
    pub conn : Connection env.os.Handle
    pub room : has_room s.sem ≡ true
    pub parsed : env.parse_uuid uuid ≡ some id
    pub found : lookup id s.active_connections ≡ some conn
    pub for_saving : conn.mode ≡ rdwr
    pub opened : conn.file.handle ≡ some handle
    pub sized : conn.file.chunks.chunk_size ≡ size
    pub counts : conn.file.chunks.count ≡ count
    pub has_loaded : conn.file.chunks.loaded ≡ loaded

  module _ (laws : HasFiles env.os) (works : IsWorking env.os laws) (uuid : Text)
      (id size count : ℕ) (handle : env.os.Handle) (file : List ℕ) (size_small : size < i64_mod)
      (file_small : length file < i64_mod) (count_small : count < u32_mod) (positive : 0 < size)
      (largest : length file ≤ works.largest) where
    abbrev IsUsable : env.os.World → Type 0
    IsUsable w = laws.IsReadable handle w × laws.IsWritable handle w

    abbrev can_save :
        (k loaded : ℕ) (s : DataServer env.os)
        → size * k < length file
        → loaded < count
        → Receives uuid id size count loaded handle s
        → CanSave env uuid k (chunk_at size file k) s
    can_save k loaded s inside left h = record {
      id = id;
      conn = h.conn;
      handle = handle;
      room = h.room;
      parsed = h.parsed;
      found = h.found;
      for_saving = h.for_saving;
      opened = h.opened;
      incomplete = omega (arith, h.counts, h.has_loaded);
      size_small = omega (arith, h.sized);
      offset_small = rw h.sized (omega arith);
      not_empty = omega (arith, length-chunk_at size file k);
      fits = rw h.sized (omega (arith, length-chunk_at size file k));
    }

    received :
        (t : Turn) (loaded : ℕ) (s : DataServer env.os)
        → size * t.number < length file
        → loaded < count
        → Receives uuid id size count loaded handle s
        → IsUsable s.world
        → let s' = (save_data env t.now t.later (chunk_message uuid size file t.number) s).0 in
          Receives uuid id size count (loaded + 1) handle s'
          × (laws.contents handle s'.world
              ≡ patch
                  (laws.contents handle s.world)
                  (size * t.number)
                  (chunk_at size file t.number))
          × IsUsable s'.world
    unfolding update_expiration
    received t loaded s inside left h usable =
        let bytes = chunk_at size file t.number in
        let some_byte : 0 < length bytes = omega (arith, length-chunk_at size file t.number) in
        let (w, wrote, after) =
          works.writes handle bytes (size * t.number) s.world usable
            (omega (arith, length-chunk_at size file t.number, largest)) in
        let offset = size * t.number in
        let sized : h.conn.file.chunks.chunk_size * t.number ≡ offset =
          ap (λ n. n * t.number) h.sized in
        let saved =
          save_data_lem env t.now t.later uuid t.number bytes s w
            (can_save t.number loaded s inside left h) (rw sized wrote) in
        let message : the_chunk env uuid bytes (h.conn.file.chunks.chunk_size * t.number)
            ≡ chunk_message uuid size file t.number =
          ap (the_chunk env uuid bytes) sized in
        let (done_ok, world, sem, found) = rw message at saved in
        (
          record {
            conn = counted env t.later h.conn;
            room = ap has_room sem ∙ h.room;
            parsed = h.parsed;
            found = found;
            for_saving = h.for_saving;
            opened = h.opened;
            sized = h.sized;
            counts = h.counts;
            has_loaded = ground (arith, h.has_loaded);
          },
          ap (laws.contents handle) world
              ∙ laws.written handle bytes offset s.world w some_byte wrote,
          rw world after,
        )

    -- Sending every chunk of a file, in any order, puts it together.
    pub sent_all :
        (ts : List Turn) (loaded : ℕ) (s : DataServer env.os)
        → AllInside size file ts
        → loaded + length ts ≤ count
        → Receives uuid id size count loaded handle s
        → IsUsable s.world
        → let s' = run env (saves uuid size file ts) s in
          Receives uuid id size count (loaded + length ts) handle s'
          × (laws.contents handle s'.world ≡ patched size file ts (laws.contents handle s.world))
          × IsUsable s'.world
    unfolding run saves step patched
    sent_all [] loaded s inside left h usable =
        ((let e : loaded + 0 ≡ loaded = omega arith in rw e h), refl, usable)
    sent_all (t ∷ ts) loaded s inside left h usable =
        let (h', wrote, usable') = received t loaded s inside.0 (omega arith) h usable in
        let s' = (save_data env t.now t.later (chunk_message uuid size file t.number) s).0 in
        let (h'', rest, after) = sent_all ts (loaded + 1) s' inside.1 (omega arith) h' usable' in
        let e : loaded + 1 + length ts ≡ loaded + suc (length ts) = omega arith in
        (rw e at h'', rest ∙ ap (patched size file ts) wrote, after)

    refuses_more :
        (now later : ℕ) (part : Option FilePart) (s : DataServer env.os)
        → Receives uuid id size count count handle s
        → let r = save_data env now later (record { uuid = uuid; part = part }) s in
          (r.1 ≡ err unexpected_file_change) × (r.0.world ≡ s.world)
    unfolding save_data get is_loaded update_expiration
    refuses_more now later part s h =
        ground (arith, h.room, h.parsed, h.found, h.for_saving, h.counts, h.has_loaded)

    -- On a working device, the calls of SaveData that send the chunks of a file to a connection for
    -- saving leave just that file: in any order, with any readings of the clock, and also when a chunk
    -- is sent again, if each chunk is sent, the calls fill up the connection's count and the file did
    -- not hold more before. SaveData then refuses a further chunk and writes nothing.
    pub uploaded :
        (ts : List Turn) (loaded : ℕ) (s : DataServer env.os) (now later : ℕ)
        (part : Option FilePart)
        → Receives uuid id size count loaded handle s
        → IsUsable s.world
        → length (laws.contents handle s.world) ≤ length file
        → AllInside size file ts
        → ((k : ℕ) → size * k < length file → is_sent k ts ≡ true)
        → loaded + length ts ≡ count
        → let s' = run env (saves uuid size file ts) s in
          let r = save_data env now later (record { uuid = uuid; part = part }) s' in
          (laws.contents handle s'.world ≡ file)
          × (r.1 ≡ err unexpected_file_change)
          × (laws.contents handle r.0.world ≡ file)
    uploaded ts loaded s now later part h usable short inside all filled =
        let s' = run env (saves uuid size file ts) s in
        let (h', holds, _) = sent_all ts loaded s inside (omega arith) h usable in
        let whole =
          holds
          ∙ patched_all size file ts (laws.contents handle s.world) positive short inside all in
        let full : Receives uuid id size count count handle s' = rw filled at h' in
        let (refused, kept) = refuses_more now later part s' full in
        (whole, refused, ap (laws.contents handle) kept ∙ whole)
