-- ===== src/Application/Starting.antt =====
-- A configuration that Init accepts starts without a panic.
use native.Mathlib.Nat.{div-le_self}
use mhserver.Common.{
  ◌≤◌, false, Bool, Outcome, err, panic, blocked, ◌==◌, ◌*◌, ◌/◌, ◌%◌, ℕ, ◌+◌, ◌<◌, ◌≡◌, refl, true,
  not, ◌||◌, Option, none, some, List, [], ◌∷◌, Text, codes, arith, ok, inl, inr, Option-cases,
  Bool-cases,
}
use mhserver.Common.Dict.{lookup, text_eq, AllValues, lookup-AllValues}
use mhserver.Common.Words.{u64_mod}
use mhserver.Os.{Os, OsError}
use mhserver.Config.{MemoryConfig, with_allocated}
use mhserver.Config.Application.{
  SubServer, SubServers, ApplicationConfig, give, give_all, allocate, priority_sum, init,
}
use mhserver.Config.Application.Limits.{init_iff}
use mhserver.Data.Server.{new_data_server, new_data_server_config, data_sem_size}
use mhserver.Server.{main_sem_size}
use mhserver.Server.Endpoints.{serve_error}
use mhserver.Application.{
  AppMode, main_server_only, sub_servers_only, all_servers, MainServer, SubServerRun, Served,
  connect, but_first, names, is_main, setup_auth_service, main_server, run_main, register_all,
  register_grpc_server, run_subserver, run,
}

lookup-give_all :
    (k : Text) (chunk : ℕ) (m : SubServers) (srv : SubServer)
    → lookup k m ≡ some srv
    → lookup k (give_all chunk m) ≡ some (give chunk srv)
unfolding lookup give_all
lookup-give_all k chunk [] srv e = ground arith
lookup-give_all k chunk ((j, s) ∷ m) srv e = ground (arith, lookup-give_all k chunk m srv)

allocate-main :
    (k : Text) (cfg : ApplicationConfig) (srv : SubServer)
    → lookup k cfg.sub_servers ≡ some srv
    → (srv' : SubServer) × (lookup k (allocate cfg).sub_servers ≡ some srv')
unfolding allocate
allocate-main k cfg srv e = elim (Bool-cases (priority_sum 0 cfg.sub_servers == 0)) [
  | inl none_shared ↦ (srv, ground (arith, none_shared))
  | inr shared ↦
      let chunk = cfg.memory.allocated / priority_sum 0 cfg.sub_servers in
      (give chunk srv, ground (arith, shared, lookup-give_all k chunk cfg.sub_servers srv e))
]

-- A panic.
abbrev pub is_panic : {E A : Type 0} → Outcome E A → Bool
is_panic (ok a) = false
is_panic (err e) = false
is_panic panic = true
is_panic blocked = false

-- 8 TiB of memory: no channel is made of more places than bytes.
abbrev pub large : ℕ
large = 8796093022208

main_sem_size_lem :
    (memory : MemoryConfig)
    → memory.max_chunk_size + 1024 < u64_mod
    → memory.allocated ≤ large
    → (size : ℕ) × (main_sem_size memory ≡ some size)
unfolding main_sem_size
main_sem_size_lem memory small few =
    let room : ℕ = memory.allocated * 99 % u64_mod / 100 in
    let size : ℕ = room / (memory.max_chunk_size + 1024) in
    let fits : size ≤ room = div-le_self room (memory.max_chunk_size + 1024) in (size, ground arith)

data_sem_size_lem :
    (memory : MemoryConfig)
    → 0 < memory.max_chunk_size
    → memory.allocated ≤ large
    → (size : ℕ) × (data_sem_size memory ≡ some size)
unfolding data_sem_size
data_sem_size_lem memory positive few =
    let room : ℕ = memory.allocated * 985 % u64_mod / 1000 in
    let size : ℕ = room / memory.max_chunk_size in
    let fits : size ≤ room = div-le_self room memory.max_chunk_size in (size, ground arith)

abbrev pub IsSmall : SubServer → Type 0
IsSmall srv = srv.extra.allocated_memory ≤ large

setup_lem :
    (k : Text) (m : SubServers) (srv : SubServer)
    → lookup k m ≡ some srv
    → (catalogs : List Text) × (but_first (names m) ≡ some catalogs)
unfolding lookup
setup_lem k [] srv e = absurd (ground arith)
setup_lem k ((j, s) ∷ m) srv e = (names m, refl)

module _ (os : Os) (w : os.World) (cfg : ApplicationConfig)
    (positive : 0 < cfg.memory.max_chunk_size) where
  register_all_lem :
      (m : SubServers) (run : SubServerRun os)
      → AllValues IsSmall m
      → (run' : SubServerRun os) × (register_all os w cfg m run ≡ some run')
  unfolding register_all new_data_server new_data_server_config with_allocated
  register_all_lem [] run small = (run, refl)
  register_all_lem ((name, srv) ∷ m) run small =
      elim (Bool-cases (not srv.enabled || is_main name)) [
        | inl skipped ↦
            let (run', e) = register_all_lem m run small.1 in (run', ground (arith, skipped, e))
        | inr taken ↦
            let next = record run { address = srv.address; port = srv.port } in
            elim (Option-cases (register_grpc_server os w name cfg srv next)) [
              | inl failed ↦
                  let (size, sized) =
                    data_sem_size_lem (with_allocated srv.extra.allocated_memory cfg.memory)
                      positive small.0 in
                  absurd (ground (arith, failed, sized))
              | inr (run1, made) ↦
                  let (run', e) = register_all_lem m run1 small.1 in
                  (run', ground (arith, taken, made, e))
            ]
      ]

module _ {Conn : Type 0} (print : ℕ → Text) (new_client : Text → Option Conn)
    (listen : MainServer Conn → Served (Option OsError)) where
  run_main_lem :
      (cfg : ApplicationConfig) (main : SubServer)
      → lookup (codes "main") cfg.sub_servers ≡ some main
      → cfg.memory.max_chunk_size + 1024 < u64_mod
      → IsSmall main
      → is_panic (run_main print new_client listen cfg) ≡ false
  unfolding run_main main_server setup_auth_service with_allocated serve_error
  run_main_lem cfg main found small few =
      let (size, sized) =
        main_sem_size_lem (with_allocated main.extra.allocated_memory cfg.memory) small few in
      let (catalogs, listed) = setup_lem (codes "main") cfg.sub_servers main found in
      elim (Bool-cases main.enabled) [
        | inr off ↦ ground (arith, found, off)
        | inl on ↦ elim (Option-cases (connect print new_client cfg.sub_servers [])) [
          | inl failed ↦ ground (arith, found, on, failed)
          | inr (connections, made) ↦ ground (arith, found, on, made, sized, listed)
        ]
      ]

  -- Whatever configuration Init has accepted, with a largest chunk that is not 0 and to which 1024 can be
  -- added in 64 bits, and at most 8 TiB for each subserver: started in any mode, over any network, the
  -- application does not panic.
  pub run_lem :
      (os : Os) (w : os.World) (serve_grpc : SubServerRun os → Served (Unit {0})) (mode : AppMode)
      (loaded cfg : ApplicationConfig)
      → init (some loaded) ≡ ok cfg
      → 0 < cfg.memory.max_chunk_size
      → cfg.memory.max_chunk_size + 1024 < u64_mod
      → AllValues IsSmall cfg.sub_servers
      → is_panic (run print new_client listen os w serve_grpc mode cfg) ≡ false
  unfolding run run_subserver
  run_lem os w serve_grpc mode loaded cfg accepted positive small few =
      let ((main, found), same, _) = (init_iff loaded cfg).0 accepted in
      let (main', found') = allocate-main (codes "main") loaded main found in
      let here : lookup (codes "main") cfg.sub_servers ≡ some main' = rw same found' in
      let main_ends =
        run_main_lem cfg main' here small
          (lookup-AllValues IsSmall (codes "main") cfg.sub_servers main' few here) in
      let (subservers, started) =
        register_all_lem os w cfg positive cfg.sub_servers
          (record { service = none; address = []; port = 0 }) few in
      elim mode as (λ k. is_panic (run print new_client listen os w serve_grpc k cfg) ≡ false) [
        | main_server_only ↦ main_ends
        | sub_servers_only ↦ ground (arith, started)
        | all_servers ↦ ground (arith, started, main_ends)
      ]
