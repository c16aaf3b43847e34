-- ===== src/Data/Service/Invariant.antt =====
-- What every call of the data service keeps.
use mhserver.Common.{
  ℕ, ◌≡◌, refl, ◌∙◌, List, [], ◌∷◌, arith, Option, inl, inr, Option-cases, ◌++◌, ◌>>=◌, Text,
}
use mhserver.Common.Dict.{nat_eq}
use mhserver.Data.Connections.{
  ConnectionMode, unknown, rdonly, rdwr, get, update_loaded_file_chunks, is_loaded, new_connection,
}
use mhserver.Data.Connections.Laws.{
  IsValid, push-IsValid, get-IsValid, lookup-get, update_loaded-IsValid, clean-IsValid,
}
use mhserver.Data.Messages.{ConnectionRequest, SaveChunk, GetChunk}
use mhserver.Data.Server.{Env, DataServer, Call}
use mhserver.Common.Preserves.{Preserves, bind-Preserves}
use mhserver.Data.Semaphore.{acquired}
use mhserver.Dirs.{get_data_path}
use mhserver.Data.Opening.{create_connection, open_file, register_connection}
use mhserver.Data.Transfer.{get_data, get_sum, save_data, get_connection}
use mhserver.Data.Folders.{available_space, get_files, create_dir, remove_dir}
use mhserver.Data.Service.{
  Event, creates_connection, gets_data, gets_sum, saves_data, gets_space, gets_files, creates_dir,
  removes_dir, cleans, step, run,
}

module _ (env : Env) where
  -- Every call gives the place in the semaphore back, however it ends, and leaves the configuration.
  pub step-sem :
      (e : Event) (s : DataServer env.os)
      → ((step env e s).sem ≡ s.sem) × ((step env e s).cfg ≡ s.cfg)
  unfolding step create_connection open_file register_connection get_data get_sum save_data
      available_space get_files create_dir remove_dir
  step-sem (creates_connection id now req) s = ground arith
  step-sem (gets_data now chunk) s = ground arith
  step-sem (gets_sum now chunk) s = ground arith
  step-sem (saves_data now later chunk) s = ground arith
  step-sem (gets_space dir) s = ground arith
  step-sem (gets_files dir) s = ground arith
  step-sem (creates_dir dir) s = ground arith
  step-sem (removes_dir dir) s = ground arith
  step-sem (cleans now) s = ground arith

  abbrev Keeps : {A : Type 0} → Call env A → Type 0
  Keeps = Preserves (λ (s : DataServer env.os). IsValid s.active_connections)

  register_connection-IsValid :
      (id now : ℕ) (mode : ConnectionMode) (path : Text) (opened : Option env.os.Handle × ℕ)
      → Keeps (register_connection env id now mode path opened)
  unfolding register_connection new_connection
  register_connection-IsValid id now mode path (handle, size) s v =
      push-IsValid id _ s.active_connections (omega arith) v

  pub open_file_connections :
      (mode : ConnectionMode) (size : ℕ) (path : Text) (s : DataServer env.os)
      → (open_file env mode size path s).0.active_connections ≡ s.active_connections
  unfolding open_file
  open_file_connections rdonly size path s = ground arith
  open_file_connections rdwr size path s = ground arith
  open_file_connections (unknown n) size path s = refl

  open_and_register-IsValid :
      (id now : ℕ) (mode : ConnectionMode) (size : ℕ) (path : Text)
      → Keeps (open_file env mode size path >>= register_connection env id now mode path)
  open_and_register-IsValid id now mode size path =
      bind-Preserves (λ (s : DataServer env.os). IsValid s.active_connections)
        (open_file env mode size path) (register_connection env id now mode path)
        (λ s v. rw (open_file_connections mode size path s) v)
        (register_connection-IsValid id now mode path)

  create_connection-IsValid :
      (id now : ℕ) (req : ConnectionRequest) → Keeps (create_connection env id now req)
  unfolding create_connection
  create_connection-IsValid id now req s v =
      elim (Option-cases (
        get_data_path env.unicode s.cfg.workspace_path req.username req.directory
          s.cfg.service_name)) [
            | inl e ↦ ground (arith, e)
            | inr (dir, e) ↦ ground (
              arith,
              e,
              open_and_register-IsValid id now req.mode req.size (dir ++ req.filename)
                  (record s { sem = acquired s.sem }) v,
            )
          ]

  get_connection-IsValid : (now : ℕ) (uuid : Text) → Keeps (get_connection env now uuid)
  unfolding get_connection
  get_connection-IsValid now uuid s v = elim (Option-cases (env.parse_uuid uuid)) [
    | inl e ↦ ground (arith, e)
    | inr (id, e) ↦ elim (Option-cases (get id now s.active_connections)) [
      | inl e' ↦ ground (arith, e, e')
      | inr ((c, m), e') ↦ ground (arith, e, e', get-IsValid id now s.active_connections m c e' v)
    ]
  ]

  save_data-IsValid : (now later : ℕ) (chunk : SaveChunk) → Keeps (save_data env now later chunk)
  unfolding save_data is_loaded
  save_data-IsValid now later chunk s v = elim (Option-cases (env.parse_uuid chunk.uuid)) [
    | inl e ↦ ground (arith, e)
    | inr (id, e) ↦ elim (Option-cases (get id now s.active_connections)) [
      | inl e' ↦ ground (arith, e, e')
      | inr ((c, m), e') ↦ elim (Option-cases (update_loaded_file_chunks id later m)) [
        | inl e'' ↦ ground (arith, e, e', e'', get-IsValid id now s.active_connections m c e' v)
        | inr (m', e'') ↦ ground (
          arith,
          e,
          e',
          e'',
          get-IsValid id now s.active_connections m c e' v,
          lookup-get id id now s.active_connections m c e',
          update_loaded-IsValid id later m m' c,
        )
      ]
    ]
  ]

  get_data-IsValid : (now : ℕ) (chunk : GetChunk) → Keeps (get_data env now chunk)
  unfolding get_data
  get_data-IsValid now chunk s v = elim (Option-cases (env.parse_uuid chunk.uuid)) [
    | inl e ↦ ground (arith, e)
    | inr (id, e) ↦ elim (Option-cases (get id now s.active_connections)) [
      | inl e' ↦ ground (arith, e, e')
      | inr ((c, m), e') ↦ ground (arith, e, e', get-IsValid id now s.active_connections m c e' v)
    ]
  ]

  get_sum-IsValid : (now : ℕ) (chunk : GetChunk) → Keeps (get_sum env now chunk)
  unfolding get_sum
  get_sum-IsValid now chunk s v = elim (Option-cases (env.parse_uuid chunk.uuid)) [
    | inl e ↦ ground (arith, e)
    | inr (id, e) ↦ elim (Option-cases (get id now s.active_connections)) [
      | inl e' ↦ ground (arith, e, e')
      | inr ((c, m), e') ↦ ground (arith, e, e', get-IsValid id now s.active_connections m c e' v)
    ]
  ]

  -- Every call and every round of the cleaner keeps the map of connections valid: identifiers are
  -- unique and no connection has more chunks loaded than it has.
  pub step-IsValid :
      (e : Event) (s : DataServer env.os)
      → IsValid s.active_connections
      → IsValid (step env e s).active_connections
  unfolding step available_space get_files create_dir remove_dir
  step-IsValid (creates_connection id now req) s v = create_connection-IsValid id now req s v
  step-IsValid (gets_data now chunk) s v = get_data-IsValid now chunk s v
  step-IsValid (gets_sum now chunk) s v = get_sum-IsValid now chunk s v
  step-IsValid (saves_data now later chunk) s v = save_data-IsValid now later chunk s v
  step-IsValid (gets_space dir) s v = ground arith
  step-IsValid (gets_files dir) s v = ground arith
  step-IsValid (creates_dir dir) s v = ground arith
  step-IsValid (removes_dir dir) s v = ground arith
  step-IsValid (cleans now) s v = clean-IsValid env.os now s.active_connections s.world v

  -- After any history of calls and rounds of the cleaner that starts with a valid map of
  -- connections, the map is valid: identifiers are unique and no connection has more chunks loaded
  -- than it has. The places of the semaphore are then as they were.
  pub run-IsValid :
      (es : List Event) (s : DataServer env.os)
      → IsValid s.active_connections
      → IsValid (run env es s).active_connections × ((run env es s).sem ≡ s.sem)
  unfolding run
  run-IsValid [] s v = (v, refl)
  run-IsValid (e ∷ es) s v =
      let (later, same) = run-IsValid es (step env e s) (step-IsValid e s v) in
      (later, same ∙ (step-sem e s).0)
