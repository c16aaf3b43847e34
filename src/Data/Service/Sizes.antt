-- ===== src/Data/Service/Sizes.antt =====
-- The chunk sizes of the open files stay within the larger of the two configured ones.
use Prim.Native.Nat.{max}
use mhserver.Common.{ℕ, ◌≤◌, ◌≡◌, arith, Option, some, inl, inr, Option-cases, ◌++◌, Text}
use mhserver.Common.Dict.{
  lookup, nat_eq, AllValues, insert-AllValues, lookup-AllValues, delete_where-AllValues,
}
use mhserver.Config.{MemoryConfig}
use mhserver.Data.Chunks.Laws.{chunk_size_of_le}
use mhserver.Data.Connections.{
  Uuid, Connection, Connections, ConnectionMode, unknown, rdonly, rdwr, get,
  update_loaded_file_chunks, update_expiration, is_loaded, new_connection, push, clean,
}
use mhserver.Data.Connections.Laws.{get_lem, lookup-get, update_loaded_lem}
use mhserver.Data.Messages.{ConnectionRequest, SaveChunk, GetChunk}
use mhserver.Data.Server.{Env, DataServer, Call}
use mhserver.Common.Preserves.{Preserves, bind-Preserves}
use mhserver.Data.Semaphore.{acquired}
use mhserver.Dirs.{get_data_path}
use mhserver.Data.Opening.{create_connection, open_file, register_connection}
use mhserver.Data.Transfer.{get_data, get_sum, save_data}
use mhserver.Data.Folders.{available_space, get_files, create_dir, remove_dir}
use mhserver.Data.Service.{
  Event, creates_connection, gets_data, gets_sum, saves_data, gets_space, gets_files, creates_dir,
  removes_dir, cleans, step,
}

abbrev pub largest_chunk : MemoryConfig → ℕ
largest_chunk memory = max memory.min_chunk_size memory.max_chunk_size

module _ {H : Type 0} (n : ℕ) where
  abbrev pub IsAtMost : Connection H → Type 0
  IsAtMost c = c.file.chunks.chunk_size ≤ n

  abbrev pub AllAtMost : Connections H → Type 0
  AllAtMost = AllValues IsAtMost

  -- What `Get` returns is as small as what is stored.
  pub get-AllAtMost :
      (id : Uuid) (now : ℕ) (m m' : Connections H) (c : Connection H)
      → get id now m ≡ some (c, m')
      → AllAtMost m
      → AllAtMost m' × IsAtMost c
  unfolding update_expiration
  get-AllAtMost id now m m' c h all =
      let (old, e, ec, em) = get_lem id now m m' c h in
      let small : IsAtMost c = rw ec (lookup-AllValues IsAtMost id m old all e) in
      (rw em (insert-AllValues IsAtMost id c m small all), small)

  get_found :
      (id : Uuid) (now : ℕ) (m m' : Connections H) (c : Connection H)
      → get id now m ≡ some (c, m')
      → lookup id m' ≡ some c
  get_found id now m m' c h = rw (lookup-get id id now m m' c h) (ground arith)

  update_loaded-AllAtMost :
      (id : Uuid) (now : ℕ) (m m' : Connections H) (c : Connection H)
      → lookup id m ≡ some c
      → update_loaded_file_chunks id now m ≡ some m'
      → AllAtMost m
      → AllAtMost m'
  unfolding update_expiration
  update_loaded-AllAtMost id now m m' c e h all =
      rw (update_loaded_lem id now m m' c e h)
        (insert-AllValues IsAtMost id _ m (lookup-AllValues IsAtMost id m c all e) all)

module _ (env : Env) where
  -- Every open file has chunks no larger than the configured sizes let them be.
  abbrev pub HasChunksWithin : DataServer env.os → Type 0
  HasChunksWithin s = AllAtMost (largest_chunk s.cfg.memory) s.active_connections

  abbrev Keeps : {A : Type 0} → Call env A → Type 0
  Keeps = Preserves HasChunksWithin

  register_connection-Keeps :
      (id now : ℕ) (mode : ConnectionMode) (path : Text) (opened : Option env.os.Handle × ℕ)
      → Keeps (register_connection env id now mode path opened)
  unfolding register_connection new_connection push
  register_connection-Keeps id now mode path (handle, size) s v =
      insert-AllValues (IsAtMost (largest_chunk s.cfg.memory)) id _ s.active_connections
        (chunk_size_of_le env.floats s.cfg.memory size) v

  open_file-Keeps :
      (mode : ConnectionMode) (size : ℕ) (path : Text) → Keeps (open_file env mode size path)
  unfolding open_file
  open_file-Keeps rdonly size path s v = ground (arith, v)
  open_file-Keeps rdwr size path s v = ground (arith, v)
  open_file-Keeps (unknown n) size path s v = v

  create_connection-Keeps :
      (id now : ℕ) (req : ConnectionRequest) → Keeps (create_connection env id now req)
  unfolding create_connection
  create_connection-Keeps id now req s v =
      elim (Option-cases (
        get_data_path env.unicode s.cfg.workspace_path req.username req.directory
          s.cfg.service_name)) [
            | inl e ↦ ground (arith, e)
            | inr (dir, e) ↦ ground (
              arith,
              e,
              bind-Preserves HasChunksWithin (open_file env req.mode req.size (dir ++ req.filename))
                  (register_connection env id now req.mode (dir ++ req.filename))
                  (open_file-Keeps req.mode req.size (dir ++ req.filename))
                  (register_connection-Keeps id now req.mode (dir ++ req.filename))
                  (record s { sem = acquired s.sem }) v,
            )
          ]

  save_data-Keeps : (now later : ℕ) (chunk : SaveChunk) → Keeps (save_data env now later chunk)
  unfolding save_data is_loaded
  save_data-Keeps now later chunk s v = elim (Option-cases (env.parse_uuid chunk.uuid)) [
    | inl e ↦ ground (arith, e)
    | inr (id, e) ↦ elim (Option-cases (get id now s.active_connections)) [
      | inl e' ↦ ground (arith, e, e')
      | inr ((c, m), e') ↦
          let n = largest_chunk s.cfg.memory in
          let (all, small) = get-AllAtMost n id now s.active_connections m c e' v in
          elim (Option-cases (update_loaded_file_chunks id later m)) [
            | inl e'' ↦ ground (arith, e, e', e'', all)
            | inr (m', e'') ↦ ground (
              arith,
              e,
              e',
              e'',
              all,
              update_loaded-AllAtMost n id later m m' c
                  (get_found n id now s.active_connections m c e') e'' all,
            )
          ]
    ]
  ]

  get_data-Keeps : (now : ℕ) (chunk : GetChunk) → Keeps (get_data env now chunk)
  unfolding get_data
  get_data-Keeps now chunk s v = elim (Option-cases (env.parse_uuid chunk.uuid)) [
    | inl e ↦ ground (arith, e)
    | inr (id, e) ↦ elim (Option-cases (get id now s.active_connections)) [
      | inl e' ↦ ground (arith, e, e')
      | inr ((c, m), e') ↦ ground (
        arith,
        e,
        e',
        get-AllAtMost (largest_chunk s.cfg.memory) id now s.active_connections m c e' v,
      )
    ]
  ]

  get_sum-Keeps : (now : ℕ) (chunk : GetChunk) → Keeps (get_sum env now chunk)
  unfolding get_sum
  get_sum-Keeps now chunk s v = elim (Option-cases (env.parse_uuid chunk.uuid)) [
    | inl e ↦ ground (arith, e)
    | inr (id, e) ↦ elim (Option-cases (get id now s.active_connections)) [
      | inl e' ↦ ground (arith, e, e')
      | inr ((c, m), e') ↦ ground (
        arith,
        e,
        e',
        get-AllAtMost (largest_chunk s.cfg.memory) id now s.active_connections m c e' v,
      )
    ]
  ]

  -- Every call and every round of the cleaner keeps the chunk sizes within the configured ones.
  pub step-HasChunksWithin :
      (e : Event) (s : DataServer env.os) → HasChunksWithin s → HasChunksWithin (step env e s)
  unfolding step available_space get_files create_dir remove_dir clean
  step-HasChunksWithin (creates_connection id now req) s v = create_connection-Keeps id now req s v
  step-HasChunksWithin (gets_data now chunk) s v = get_data-Keeps now chunk s v
  step-HasChunksWithin (gets_sum now chunk) s v = get_sum-Keeps now chunk s v
  step-HasChunksWithin (saves_data now later chunk) s v = save_data-Keeps now later chunk s v
  step-HasChunksWithin (gets_space dir) s v = ground arith
  step-HasChunksWithin (gets_files dir) s v = ground arith
  step-HasChunksWithin (creates_dir dir) s v = ground arith
  step-HasChunksWithin (removes_dir dir) s v = ground arith
  step-HasChunksWithin (cleans now) s v = delete_where-AllValues _ _ s.active_connections v
