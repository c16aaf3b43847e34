-- ===== src/Data/Overlap/LastChunk.antt =====
-- Two calls of SaveData that overlap at the last chunk of a file.
use mhserver.Common.{ℕ, ◌+◌, ◌-◌, ◌≤◌, ◌<◌, ◌≡◌, refl, ◌∙◌, ap, none, some, Text, length, arith, ok}
use mhserver.Common.Dict.{lookup, nat_eq, lookup-insert}
use mhserver.Common.Words.{u32_mod, i64_mod, mul64, sub32}
use mhserver.Common.Int.{pos}
use mhserver.Os.{HasFiles, IsWorking, patch}
use mhserver.Data.Connections.{
  Uuid, Connection, rdwr, get, update_loaded_file_chunks, update_expiration, is_loaded, unsaved,
}
use mhserver.Data.Messages.{FilePart, SaveChunk}
use mhserver.Data.Server.{Env, DataServer}
use mhserver.Data.Transfer.RoundTrip.{to_i64_of_small, counted}
use mhserver.Data.Overlap.{Pending, begin, finish}

module _ (env : Env) where
  -- A connection for saving that a call can begin on, wherever else the places of the semaphore are.
  pub record IsOpen (uuid : Text) (id : Uuid) (handle : env.os.Handle)
      (conn : Connection env.os.Handle) (s : DataServer env.os) : Type 0 where
    pub parsed : env.parse_uuid uuid ≡ some id
    pub found : lookup id s.active_connections ≡ some conn
    pub for_saving : conn.mode ≡ rdwr
    pub opened : conn.file.handle ≡ some handle

  abbrev pub Fits : FilePart → Connection env.os.Handle → Type 0
  Fits part conn =
      (length part.chunk ≤ conn.file.chunks.chunk_size)
      × (conn.file.chunks.chunk_size < i64_mod)
      × (part.offset < i64_mod)

  abbrev pub save_message : Text → FilePart → SaveChunk
  save_message uuid part = record { uuid = uuid; part = some part }

  abbrev pub held : Uuid → env.os.Handle → FilePart → Pending env
  held id handle part = record { id = id; handle = some handle; part = part }

  begin_passes :
      (now : ℕ) (uuid : Text) (id : Uuid) (handle : env.os.Handle) (part : FilePart)
      (conn : Connection env.os.Handle) (s : DataServer env.os)
      → IsOpen uuid id handle conn s
      → Fits part conn
      → conn.file.chunks.loaded < conn.file.chunks.count
      → s.sem.in_use < s.sem.capacity
      → let r = begin env now (save_message uuid part) s in
        (r.1 ≡ ok (held id handle part))
        × IsOpen uuid id handle (update_expiration now conn) r.0
        × (r.0.sem ≡ record (s.sem) { in_use = s.sem.in_use + 1 })
        × (r.0.world ≡ s.world)
  unfolding begin get is_loaded update_expiration
  begin_passes now uuid id handle part conn s h fits left room =
      let small = to_i64_of_small conn.file.chunks.chunk_size fits.1 in
      let m = s.active_connections in
      let stored = lookup-insert id id (update_expiration now conn) m in
      (
        ground (arith, h.parsed, h.found, h.for_saving, h.opened, small),
        record {
          parsed = h.parsed;
          found = ground (arith, h.parsed, h.found, h.for_saving, h.opened, small, stored);
          for_saving = h.for_saving;
          opened = h.opened;
        },
        ground (arith, h.parsed, h.found, h.for_saving, h.opened, small),
        ground (arith, h.parsed, h.found, h.for_saving, h.opened, small),
      )

  finish_passes :
      (later : ℕ) (id : Uuid) (handle : env.os.Handle) (part : FilePart)
      (conn : Connection env.os.Handle) (s : DataServer env.os) (w : env.os.World)
      → env.os.write_at handle part.chunk (pos part.offset) s.world ≡ (w, none)
      → lookup id s.active_connections ≡ some conn
      → part.offset < i64_mod
      → let r = finish env later (held id handle part) s in
        (r.1 ≡ ok tt)
        × (r.0.world ≡ w)
        × (lookup id r.0.active_connections ≡ some (counted env later conn))
  unfolding finish update_loaded_file_chunks update_expiration
  finish_passes later id handle part conn s w wrote found small = ground (
    arith,
    found,
    wrote,
    to_i64_of_small part.offset small,
    lookup-insert id id (counted env later conn) s.active_connections,
  )

  -- When one chunk of a file is missing and two places are free, then of two calls of SaveData that overlap,
  -- the second beginning before the first ends, on a working device and with a part that is not empty each,
  -- both go on, both succeed and both write: the file holds the first part and over it the second. Both are
  -- counted: one chunk more than the file has. The space that is reserved for the connection is then that
  -- of 2^32 - 1 chunks, in 64 bits.
  pub last_chunk_twice :
      (laws : HasFiles env.os) (works : IsWorking env.os laws) (uuid : Text) (id : Uuid)
      (handle : env.os.Handle) (conn : Connection env.os.Handle) (s : DataServer env.os)
      (part1 part2 : FilePart) (now1 now2 later1 later2 : ℕ)
      → IsOpen uuid id handle conn s
      → laws.IsReadable handle s.world × laws.IsWritable handle s.world
      → Fits part1 conn
      → Fits part2 conn
      → 0 < length part1.chunk
      → 0 < length part2.chunk
      → part1.offset + length part1.chunk ≤ works.largest
      → part2.offset + length part2.chunk ≤ works.largest
      → conn.file.chunks.loaded + 1 ≡ conn.file.chunks.count
      → conn.file.chunks.count + 1 < u32_mod
      → s.sem.in_use + 1 < s.sem.capacity
      → let b1 = begin env now1 (save_message uuid part1) s in
        let b2 = begin env now2 (save_message uuid part2) b1.0 in
        let e1 = finish env later1 (held id handle part1) b2.0 in
        let e2 = finish env later2 (held id handle part2) e1.0 in
        (b1.1 ≡ ok (held id handle part1))
        × (b2.1 ≡ ok (held id handle part2))
        × (e1.1 ≡ ok tt)
        × (e2.1 ≡ ok tt)
        × (laws.contents handle e2.0.world
            ≡ patch
                (patch (laws.contents handle s.world) part1.offset part1.chunk)
                part2.offset
                part2.chunk)
        × (c : Connection env.os.Handle) × (lookup id e2.0.active_connections ≡ some c)
        × (c.file.chunks.count ≡ conn.file.chunks.count)
        × (c.file.chunks.loaded ≡ c.file.chunks.count + 1)
        × (unsaved c ≡ mul64 conn.file.chunks.chunk_size (u32_mod - 1))
  unfolding update_expiration
  last_chunk_twice laws works uuid id handle conn s part1 part2 now1 now2 later1 later2 h usable
        fits1 fits2 some1 some2 inside1 inside2 missing small room =
      let (ok1, open1, sem1, world1) =
        begin_passes now1 uuid id handle part1 conn s h fits1 (omega arith) (omega arith) in
      let s1 = (begin env now1 (save_message uuid part1) s).0 in
      let conn1 = update_expiration now1 conn in
      let (ok2, open2, sem2, world2) =
        begin_passes now2 uuid id handle part2 conn1 s1 open1 fits2 (omega arith)
          (ground (arith, sem1)) in
      let s2 = (begin env now2 (save_message uuid part2) s1).0 in
      let conn2 = update_expiration now2 conn1 in
      let same = world2 ∙ world1 in
      let (w3, wrote3, usable3) =
        works.writes handle part1.chunk part1.offset s.world usable inside1 in
      let (ok3, world3, found3) =
        finish_passes later1 id handle part1 conn2 s2 w3 (rw same wrote3) open2.found fits1.2 in
      let s3 = (finish env later1 (held id handle part1) s2).0 in
      let (w4, wrote4, _) = works.writes handle part2.chunk part2.offset w3 usable3 inside2 in
      let (ok4, world4, found4) =
        finish_passes later2 id handle part2 (counted env later1 conn2) s3 w4 (rw world3 wrote4)
          found3 fits2.2 in
      let c = counted env later2 (counted env later1 conn2) in
      let left : sub32 c.file.chunks.count c.file.chunks.loaded ≡ u32_mod - 1 = omega arith in
      (
        ok1,
        ok2,
        ok3,
        ok4,
        ap (laws.contents handle) world4
            ∙ laws.written handle part2.chunk part2.offset w3 w4 some2 wrote4
            ∙ ap (λ old. patch old part2.offset part2.chunk)
                (laws.written handle part1.chunk part1.offset s.world w3 some1 wrote3),
        c,
        found4,
        refl,
        omega arith,
        ap (mul64 conn.file.chunks.chunk_size) left,
      )
