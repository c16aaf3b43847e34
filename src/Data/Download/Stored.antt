-- ===== src/Data/Download/Stored.antt =====
-- From CreateConnection to the last chunk that is got back (internal/grpc/data/server.go).
use Prim.Native.Nat.{max}
use native.Mathlib.Nat.{le_trans}
use mhserver.Common.{
  ℕ, ◌-◌, ◌*◌, ◌≤◌, ◌<◌, ◌≡◌, refl, ◌∙◌, ap, true, some, List, Text, ◌++◌, length, arith, ok,
}
use mhserver.Common.Dict.{Dict, lookup, insert, lookup-insert, nat_eq}
use mhserver.Common.Words.{max_alloc, u32_mod, sub64}
use mhserver.Os.{HasFiles, IsWorking, got}
use mhserver.Data.Chunks.{HasExactQuotients, exact_limit, chunk_size_of, chunks_count_of}
use mhserver.Data.Chunks.Laws.{chunk_size_of_bounds, chunks_count_of_covers, quotient_fits}
use mhserver.Data.Connections.{
  Connection, rdwr, new_connection, new_chunks_info, push, expected_saved_space,
}
use mhserver.Data.Messages.{ConnectionRequest, ConnectionReply}
use mhserver.Data.Semaphore.{has_room}
use mhserver.Data.Server.{Env, DataServer}
use mhserver.Data.Opening.{create_connection, open_file, register_connection}
use mhserver.Data.Opening.Admission.{IsTested}
use mhserver.Data.Service.{run}
use mhserver.Data.Upload.{Turn, saves}
use mhserver.Data.Upload.Chunks.{is_sent, AllInside}
use mhserver.Data.Upload.Contents.{Receives}
use mhserver.Data.Download.{get_all}
use mhserver.Data.Download.Contents.{uploaded-downloaded}

pub lookup-inserted :
    {V : Type 0} (id : ℕ) (v : V) (m : Dict ℕ V) → lookup id (insert id v m) ≡ some v
lookup-inserted id v m = ground (arith, lookup-insert id id v m)

module _ (env : Env) where
  -- The reply to a request to save a file of some size.
  abbrev pub granted : ℕ → ℕ → DataServer env.os → ConnectionReply
  granted id n s =
      let size = chunk_size_of env.floats s.cfg.memory n in
      record {
        uuid = env.uuid_text id;
        chunk_size = size;
        chunks_count = chunks_count_of env.floats n size;
      }

  -- A request that passes the tests, with a file that can be opened.
  pub record IsOpened (req : ConnectionRequest) (disk : ℕ) (handle : env.os.Handle)
      (w : env.os.World) (s : DataServer env.os) : Type 0 where
    pub tested : IsTested env req disk s
    pub fits : req.size ≤ sub64 disk (expected_saved_space s.active_connections)
    pub opened : env.os.open_create (tested.dir ++ req.filename) s.world ≡ (w, got handle)

  abbrev saving : ℕ → env.os.Handle → Text → ConnectionReply → Connection env.os.Handle
  saving now handle path reply =
      new_connection now
        (record {
          handle = some handle;
          path = path;
          chunks = new_chunks_info reply.chunk_size reply.chunks_count;
        })
        rdwr

  created :
      (id now disk : ℕ) (req : ConnectionRequest) (handle : env.os.Handle) (w : env.os.World)
      (s : DataServer env.os)
      → (h : IsOpened req disk handle w s)
      → let r = create_connection env id now req s in
        let reply = granted id req.size s in
        (r.1 ≡ ok reply)
        × (r.0.world ≡ w)
        × (r.0.sem ≡ s.sem)
        × (r.0.active_connections
            ≡ insert id
                (saving now handle (h.tested.dir ++ req.filename) reply)
                s.active_connections)
  unfolding create_connection open_file register_connection push
  created id now disk req handle w s h =
      let t = h.tested in
      ground (
        arith, t.accepted_dir, t.accepted_name, t.to_save, t.room, t.not_empty, t.space, h.fits,
        h.opened,
      )

  module _ (laws : HasFiles env.os) (works : IsWorking env.os laws)
      (exact : HasExactQuotients env.floats) where
    created-Receives :
        (id now disk : ℕ) (req : ConnectionRequest) (handle : env.os.Handle) (w : env.os.World)
        (s : DataServer env.os)
        → (h : IsOpened req disk handle w s) → env.parse_uuid (env.uuid_text id) ≡ some id
        → let reply = granted id req.size s in
          Receives env reply.uuid id reply.chunk_size reply.chunks_count 0 handle
            (create_connection env id now req s).0
    unfolding new_connection
    created-Receives id now disk req handle w s h known =
        let (_, _, sem, added) = created id now disk req handle w s h in
        let conn = saving now handle (h.tested.dir ++ req.filename) (granted id req.size s) in
        record {
          conn = conn;
          room = ap has_room sem ∙ h.tested.room;
          parsed = known;
          found = ap (lookup id) added ∙ lookup-inserted id conn s.active_connections;
          for_saving = refl;
          opened = refl;
          sized = refl;
          counts = refl;
          has_loaded = refl;
        }

    pub stored :
        (id now disk : ℕ) (req : ConnectionRequest) (handle : env.os.Handle) (w : env.os.World)
        (s : DataServer env.os) (file : List ℕ) (ts : List Turn) (times : List ℕ)
        → IsOpened req disk handle w s
        → env.parse_uuid (env.uuid_text id) ≡ some id
        → length file ≡ req.size
        → length (laws.contents handle w) ≤ length file
        → length file ≤ works.largest
        → let memory = s.cfg.memory in
          let reply = granted id req.size s in
          let r = create_connection env id now req s in
          0 < memory.min_chunk_size
          → req.size < exact_limit
          → max memory.min_chunk_size memory.max_chunk_size ≤ max_alloc
          → req.size ≤ (u32_mod - 1) * reply.chunk_size
          → AllInside reply.chunk_size file ts
          → ((k : ℕ) → reply.chunk_size * k < length file → is_sent k ts ≡ true)
          → length ts ≡ reply.chunks_count
          → length times ≡ reply.chunks_count
          → (r.1 ≡ ok reply)
            × ((get_all env reply.uuid 0 times
                  (run env (saves reply.uuid reply.chunk_size file ts) r.0)).1
                ≡ ok file)
    stored id now disk req handle w s file ts times h known same short largest positive small
          small_max few inside all sent asked =
        let reply = granted id req.size s in
        let r = create_connection env id now req s in
        let (made, world, _, _) = created id now disk req handle w s h in
        let size_fits : max s.cfg.memory.min_chunk_size s.cfg.memory.max_chunk_size < exact_limit =
          omega (arith, small_max) in
        let (size_positive, size_max, _) =
          chunk_size_of_bounds env.floats s.cfg.memory req.size h.tested.not_empty positive in
        let (covered, begun) =
          chunks_count_of_covers env.floats s.cfg.memory req.size exact h.tested.not_empty positive
            small size_fits few in
        (
          made,
          uploaded-downloaded env laws works reply.uuid id reply.chunk_size handle file
              (omega arith) size_positive (le_trans size_max small_max) reply.chunks_count ts times
              r.0 (omega arith)
              (quotient_fits reply.chunks_count reply.chunk_size req.size begun few) largest
              (created-Receives id now disk req handle w s h known)
              (rw world (works.opens_create _ handle s.world w h.opened)) (rw world short) inside
              all sent asked (rw same (omega (arith, begun))) (rw same (omega (arith, covered))),
        )
