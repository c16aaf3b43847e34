-- ===== src/Data/Overlap/Calls.antt =====
-- Every call and every round of the cleaner, as a whole, leaves a map that follows from the old one.
use mhserver.Common.{ℕ, ◌≡◌, some, arith, inl, inr, Option-cases, ◌>>=◌, Text, ◌++◌, Option, false}
use native.Mathlib.Decide.{dec_lt}
use mhserver.Common.Dict.{lookup, nat_eq, NodupKeys, lookup-delete_where}
use mhserver.Common.Preserves.{bind-Preserves}
use mhserver.Dirs.{get_data_path}
use mhserver.Data.Connections.{
  ConnectionMode, get, update_loaded_file_chunks, is_loaded, new_connection, Connection, is_expired,
  clean,
}
use mhserver.Data.Connections.Laws.{lookup-get}
use mhserver.Data.Messages.{ConnectionRequest, SaveChunk, GetChunk, Directory}
use mhserver.Data.Semaphore.{acquired, has_room}
use mhserver.Data.Server.{Env, DataServer}
use mhserver.Data.Opening.{create_connection, open_file, register_connection}
use mhserver.Data.Transfer.{get_data, get_sum, save_data}
use mhserver.Data.Folders.{available_space, get_files, create_dir, remove_dir}
use mhserver.Data.Service.{
  Event, creates_connection, gets_data, gets_sum, saves_data, gets_space, gets_files, creates_dir,
  removes_dir, cleans, step,
}
use mhserver.Data.Service.Invariant.{open_file_connections}
use mhserver.Data.Overlap.Follows.{
  Follows, Follows-refl, Follows-trans, get-Follows, push-Follows, update_loaded-Follows,
  clean-Follows,
}

module _ (env : Env) where
  save_data-Follows :
      (now later : ℕ) (chunk : SaveChunk) (s : DataServer env.os)
      → Follows s.active_connections (save_data env now later chunk s).0.active_connections
  unfolding save_data is_loaded
  save_data-Follows now later chunk s =
      let m = s.active_connections in
      elim (Option-cases (env.parse_uuid chunk.uuid)) [
        | inl e ↦ ground (arith, e, Follows-refl m)
        | inr (id, e) ↦ elim (Option-cases (get id now m)) [
          | inl e' ↦ ground (arith, e, e', Follows-refl m)
          | inr ((c, m'), e') ↦
              let got = get-Follows id now m m' c e' in
              elim (Option-cases (update_loaded_file_chunks id later m')) [
                | inl e'' ↦ ground (arith, e, e', e'', got, Follows-refl m)
                | inr (m'', e'') ↦ elim (dec_lt c.file.chunks.loaded c.file.chunks.count) [
                  | no full ↦ ground (arith, e, e', e'', full, got, Follows-refl m)
                  | yes room ↦
                      let here : lookup id m' ≡ some c =
                        ground (arith, lookup-get id id now m m' c e') in
                      let updated = update_loaded-Follows id later m' m'' c here room e'' in
                      ground
                        (arith, e, e', e'', got, Follows-refl m, Follows-trans m m' m'' got updated)
                ]
              ]
        ]
      ]

  get_data-Follows :
      (now : ℕ) (chunk : GetChunk) (s : DataServer env.os)
      → Follows s.active_connections (get_data env now chunk s).0.active_connections
  unfolding get_data
  get_data-Follows now chunk s =
      let m = s.active_connections in
      elim (Option-cases (env.parse_uuid chunk.uuid)) [
        | inl e ↦ ground (arith, e, Follows-refl m)
        | inr (id, e) ↦ elim (Option-cases (get id now m)) [
          | inl e' ↦ ground (arith, e, e', Follows-refl m)
          | inr ((c, m'), e') ↦ ground (arith, e, e', get-Follows id now m m' c e', Follows-refl m)
        ]
      ]

  get_sum-Follows :
      (now : ℕ) (chunk : GetChunk) (s : DataServer env.os)
      → Follows s.active_connections (get_sum env now chunk s).0.active_connections
  unfolding get_sum
  get_sum-Follows now chunk s =
      let m = s.active_connections in
      elim (Option-cases (env.parse_uuid chunk.uuid)) [
        | inl e ↦ ground (arith, e, Follows-refl m)
        | inr (id, e) ↦ elim (Option-cases (get id now m)) [
          | inl e' ↦ ground (arith, e, e', Follows-refl m)
          | inr ((c, m'), e') ↦ ground (arith, e, e', get-Follows id now m m' c e', Follows-refl m)
        ]
      ]

  register_connection-Follows :
      (id now : ℕ) (mode : ConnectionMode) (path : Text) (opened : Option env.os.Handle × ℕ)
      (s : DataServer env.os)
      → Follows s.active_connections
          (register_connection env id now mode path opened s).0.active_connections
  unfolding register_connection new_connection
  register_connection-Follows id now mode path (handle, size) s =
      push-Follows id _ s.active_connections (omega arith)

  open_and_register-Follows :
      (id now : ℕ) (mode : ConnectionMode) (size : ℕ) (path : Text) (s : DataServer env.os)
      → Follows s.active_connections
          ((open_file env mode size path >>= register_connection env id now mode path)
            s).0.active_connections
  open_and_register-Follows id now mode size path s =
      bind-Preserves
        (λ (s' : DataServer env.os). Follows s.active_connections s'.active_connections)
        (open_file env mode size path) (register_connection env id now mode path)
        (λ s' v. rw (open_file_connections env mode size path s') v)
        (λ opened s' v.
          Follows-trans s.active_connections s'.active_connections
            (register_connection env id now mode path opened s').0.active_connections v
            (register_connection-Follows id now mode path opened s'))
        s (Follows-refl s.active_connections)

  create_connection-Follows :
      (id now : ℕ) (req : ConnectionRequest) (s : DataServer env.os)
      → Follows s.active_connections (create_connection env id now req s).0.active_connections
  unfolding create_connection
  create_connection-Follows id now req s =
      elim (Option-cases (
        get_data_path env.unicode s.cfg.workspace_path req.username req.directory
          s.cfg.service_name)) [
            | inl e ↦ ground (arith, e, Follows-refl s.active_connections)
            | inr (dir, e) ↦ ground (
              arith,
              e,
              Follows-refl s.active_connections,
              open_and_register-Follows id now req.mode req.size (dir ++ req.filename)
                  (record s { sem = acquired s.sem }),
            )
          ]

  folders_keep :
      (s : DataServer env.os) (dir : Directory)
      → ((available_space env dir s).0.active_connections ≡ s.active_connections)
        × ((get_files env dir s).0.active_connections ≡ s.active_connections)
        × ((create_dir env dir s).0.active_connections ≡ s.active_connections)
        × ((remove_dir env dir s).0.active_connections ≡ s.active_connections)
  unfolding available_space get_files create_dir remove_dir
  folders_keep s dir = (ground arith, ground arith, ground arith, ground arith)

  -- A whole call leaves the map of connections with new counters only within their counts.
  pub step-Follows :
      (e : Event) (s : DataServer env.os)
      → Follows s.active_connections (step env e s).active_connections
  unfolding step
  step-Follows (creates_connection id now req) s = create_connection-Follows id now req s
  step-Follows (gets_data now chunk) s = get_data-Follows now chunk s
  step-Follows (gets_sum now chunk) s = get_sum-Follows now chunk s
  step-Follows (saves_data now later chunk) s = save_data-Follows now later chunk s
  step-Follows (gets_space dir) s = rw (folders_keep s dir).0 (Follows-refl s.active_connections)
  step-Follows (gets_files dir) s = rw (folders_keep s dir).1 (Follows-refl s.active_connections)
  step-Follows (creates_dir dir) s = rw (folders_keep s dir).2 (Follows-refl s.active_connections)
  step-Follows (removes_dir dir) s = rw (folders_keep s dir).3 (Follows-refl s.active_connections)
  step-Follows (cleans now) s = clean-Follows env.os now s.active_connections s.world

  -- Without a free place in the semaphore only the cleaner changes anything.
  pub step_blocked :
      (e : Event) (s : DataServer env.os) (id : ℕ) (c : Connection env.os.Handle)
      → has_room s.sem ≡ false
      → NodupKeys s.active_connections
      → lookup id (step env e s).active_connections ≡ some c
      → lookup id s.active_connections ≡ some c
  unfolding step create_connection get_data get_sum save_data available_space get_files create_dir
      remove_dir clean
  step_blocked (creates_connection k now req) s id c full u e = ground (arith, full)
  step_blocked (gets_data now chunk) s id c full u e = ground (arith, full)
  step_blocked (gets_sum now chunk) s id c full u e = ground (arith, full)
  step_blocked (saves_data now later chunk) s id c full u e = ground (arith, full)
  step_blocked (gets_space dir) s id c full u e = ground (arith, full)
  step_blocked (gets_files dir) s id c full u e = ground (arith, full)
  step_blocked (creates_dir dir) s id c full u e = ground (arith, full)
  step_blocked (removes_dir dir) s id c full u e = ground (arith, full)
  step_blocked (cleans now) s id c full u e =
      ground (arith, lookup-delete_where (is_expired now) id s.active_connections u)
