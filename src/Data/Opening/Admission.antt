-- ===== src/Data/Opening/Admission.antt =====
-- The test for disk space in CreateConnection (internal/grpc/data/server.go).
use mhserver.Common.{◌≢◌, ◌↔◌, ◌⊎◌, ℕ, ◌≡◌, ◌+◌, ◌<◌, ◌≤◌, true, some, arith, inl, inr, err, Text}
use mhserver.Common.Words.{u64_mod, sub64}
use mhserver.Regex.{match_string}
use mhserver.Os.{got}
use mhserver.Dirs.{filename_regexp, get_data_path}
use mhserver.Data.Connections.{rdwr, expected_saved_space}
use mhserver.Data.Errors.{not_enough_disk_space}
use mhserver.Data.Messages.{ConnectionRequest}
use mhserver.Data.Semaphore.{has_room}
use mhserver.Data.Server.{Env, DataServer, get_available_disk_space}
use mhserver.Data.Opening.{create_connection, open_file, register_connection}

module _ (env : Env) where
  -- A request to save a file that reaches the test for disk space.
  pub record IsTested (req : ConnectionRequest) (disk : ℕ) (s : DataServer env.os) : Type 0 where
    pub dir : Text
    pub room : has_room s.sem ≡ true
    pub accepted_dir :
        get_data_path env.unicode s.cfg.workspace_path req.username req.directory s.cfg.service_name
        ≡ some dir
    pub accepted_name : match_string (filename_regexp env.unicode) req.filename ≡ true
    pub to_save : req.mode ≡ rdwr
    pub not_empty : 0 < req.size
    pub space : get_available_disk_space env s.cfg.workspace_path s.world ≡ got disk

  short_of_space :
      (id now disk : ℕ) (req : ConnectionRequest) (s : DataServer env.os)
      → IsTested req disk s
      → sub64 disk (expected_saved_space s.active_connections) < req.size
      → let r = create_connection env id now req s in
        (r.1 ≡ err not_enough_disk_space)
        × (r.0.world ≡ s.world)
        × (r.0.active_connections ≡ s.active_connections)
  unfolding create_connection open_file
  short_of_space id now disk req s h lt =
      ground (arith, h.accepted_dir, h.accepted_name, h.to_save, h.room, h.not_empty, h.space)

  goes_on :
      (id now disk : ℕ) (req : ConnectionRequest) (s : DataServer env.os)
      → IsTested req disk s
      → req.size ≤ sub64 disk (expected_saved_space s.active_connections)
      → (create_connection env id now req s).1 ≢ err not_enough_disk_space
  unfolding create_connection open_file register_connection
  goes_on id now disk req s h le refused =
      ground (arith, h.accepted_dir, h.accepted_name, h.to_save, h.room, h.not_empty, h.space)

  -- If open connections have not reserved more than the free space on the disk, which fits in 64
  -- bits, then a request to save a file that gets as far as the test is refused for lack of space
  -- exactly if its size does not fit into what is left; a refusal leaves the disk and the
  -- connections.
  pub refused_iff :
      (id now disk : ℕ) (req : ConnectionRequest) (s : DataServer env.os)
      → IsTested req disk s
      → disk < u64_mod
      → expected_saved_space s.active_connections ≤ disk
      → let r = create_connection env id now req s in
        ((r.1 ≡ err not_enough_disk_space)
          ↔ (disk < expected_saved_space s.active_connections + req.size))
        × ((r.1 ≢ err not_enough_disk_space)
            ⊎ ((r.0.world ≡ s.world) × (r.0.active_connections ≡ s.active_connections)))
  refused_iff id now disk req s h small le =
      let reserved = expected_saved_space s.active_connections in
      let absurd_fits : (req.size ≤ sub64 disk reserved) → disk < reserved + req.size → ⊥ =
        λ a b. omega arith in
      let fits : (sub64 disk reserved < req.size) ⊎ (req.size ≤ sub64 disk reserved) =
        omega arith in
      elim fits [
        | inl lt ↦
            let (refused, world, kept) = short_of_space id now disk req s h lt in
            (((λ _. omega arith), (λ _. refused)), inr (world, kept))
        | inr ge ↦
            let no = goes_on id now disk req s h ge in
            (((λ e. elim (no e) [ ]), (λ lt. elim (absurd_fits ge lt) [ ])), inl no)
      ]

  -- If open connections have reserved more than the free space, the difference wraps around: then a
  -- request to save a file that gets as far as the test is not refused for lack of space, whatever
  -- its size is up to 2 ^ 64 less the missing space.
  pub overcommitted :
      (id now disk : ℕ) (req : ConnectionRequest) (s : DataServer env.os)
      → IsTested req disk s
      → disk < expected_saved_space s.active_connections
      → expected_saved_space s.active_connections < u64_mod
      → req.size + expected_saved_space s.active_connections ≤ disk + u64_mod
      → (create_connection env id now req s).1 ≢ err not_enough_disk_space
  overcommitted id now disk req s h lt small le = goes_on id now disk req s h (omega arith)
