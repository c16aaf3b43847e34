-- ===== src/Application/Serving.antt =====
-- The servers that the application starts (internal/application/application.go), at work: the main server
-- over the data service that the same configuration registers.
use mhserver.Common.{
  ℕ, ◌*◌, ◌≡◌, ◌⊎◌, not, ◌||◌, Option, none, some, List, [], ◌∷◌, Text, arith, ok, inl, inr,
  Option-cases, Bool-cases,
}
use mhserver.Common.Time.{second}
use mhserver.Os.{Os}
use mhserver.RateLimit.Quota.{new_limiter-IsValid}
use mhserver.Config.{with_allocated}
use mhserver.Config.Application.{SubServer, SubServers, ApplicationConfig}
use mhserver.Auth.{AuthEnv}
use mhserver.Data.Connections.Laws.{IsValid}
use mhserver.Data.Server.{Env, DataServer, new_data_server, new_data_server_config, data_sem_size}
use mhserver.Data.Service.Invariant.{run-IsValid}
use mhserver.Http.{initial_errors}
use mhserver.Http.DataHandlers.Service.{Draws, data_client}
use mhserver.Server.Endpoints.{FileEndpoint, Endpoint, file}
use mhserver.Server.Routes.{Web, WebRequest, serve}
use mhserver.Server.Routes.Guards.{IsAdmitted, IsAccountRequest, requests_guarded}
use mhserver.Server.Routes.Histories.{WebEvent, Running, web_run}
use mhserver.Server.Routes.Histories.Ready.{IsReady, web_run-IsReady}
use mhserver.Server.Routes.Histories.Storage.{web_run-run}
use mhserver.Application.{
  MainServer, SubServerRun, main_server, run_subserver, register_all, register_grpc_server, is_main,
  is_files, auth_limiter, data_limiter,
}
use mhserver.Application.Connecting.{main_server-Made}

module _ (os : Os) (w : os.World) (cfg : ApplicationConfig) where
  -- A data service, if there is one, has no connection yet.
  abbrev IsNew : SubServerRun os → Type 0
  IsNew run = (server : DataServer os) → run.service ≡ some server → server.active_connections ≡ []

  register_grpc_server-IsNew :
      (name : Text) (srv : SubServer) (run run' : SubServerRun os)
      → IsNew run
      → register_grpc_server os w name cfg srv run ≡ some run'
      → IsNew run'
  unfolding new_data_server
  register_grpc_server-IsNew name srv run run' new e server there =
      let data_cfg =
        new_data_server_config cfg.workspace_path
          (with_allocated srv.extra.allocated_memory cfg.memory) in
      elim (Bool-cases (is_files name)) [
        | inr other ↦ new server (ground (arith, other))
        | inl files ↦ elim (Option-cases (data_sem_size data_cfg.memory)) [
          | inl no_size ↦ absurd (ground (arith, files, no_size))
          | inr (size, sized) ↦ ground (arith, files, sized)
        ]
      ]

  register_all-IsNew :
      (m : SubServers) (run run' : SubServerRun os)
      → IsNew run
      → register_all os w cfg m run ≡ some run'
      → IsNew run'
  unfolding register_all
  register_all-IsNew [] run run' new e = λ server there. new server (ground arith)
  register_all-IsNew ((name, srv) ∷ m) run run' new e =
      let next = record run { address = srv.address; port = srv.port } in
      elim (Bool-cases (not srv.enabled || is_main name)) [
        | inl skipped ↦ register_all-IsNew m run run' new (ground (arith, skipped))
        | inr taken ↦ elim (Option-cases (register_grpc_server os w name cfg srv next)) [
          | inl failed ↦ absurd (ground (arith, taken, failed))
          | inr (run1, made) ↦
              register_all-IsNew m run1 run'
                (register_grpc_server-IsNew name srv next run1 new made)
                (ground (arith, taken, made))
        ]
      ]

module _ {Conn : Type 0} (print : ℕ → Text) (new_client : Text → Option Conn) (auth_env : AuthEnv)
    (env : Env) {N : Type 0} (web : Web N) where
  -- The main server and the data service when the first request comes.
  abbrev pub running :
      MainServer Conn
      → DataServer env.os
      → auth_env.Db
      → auth_env.os.World
      → N
      → Running auth_env env N
  running srv server db world ns = (
    record { capacity = srv.sem_size; in_use = 0 },
    record {
      auth_limiter = srv.auth_limiter;
      data_limiter = srv.data_limiter;
      ns_limiter = ns;
      services = record {
        accounts = record { cfg = srv.auth; db = db; world = world };
        storage = server;
        errors = initial_errors;
      };
    },
  )

  running-IsReady :
      (cfg : ApplicationConfig) (srv : MainServer Conn) (server : DataServer env.os)
      (db : auth_env.Db) (world : auth_env.os.World) (ns : N)
      → main_server print new_client cfg ≡ ok (some srv)
      → IsReady 100 10 (running srv server db world ns).1
  unfolding auth_limiter data_limiter
  running-IsReady cfg srv server db world ns e =
      let made = main_server-Made print new_client cfg srv e in
      record {
        data_valid = rw made.data_limits (new_limiter-IsValid 100 (second * 5));
        auth_valid = rw made.auth_limits (new_limiter-IsValid 10 (60 * second));
      }

  -- A main server and a data service that are started from one configuration, after any history of requests,
  -- tickers and cleaners: no open file has more chunks loaded than it has, identifiers of connections are
  -- unique, and the places of the data service are as at the start. The next request leaves the
  -- services as they are, unless it is one for files with a token and fewer than 100 others from its address
  -- that count, or one for an account with fewer than 10, and there is room for it.
  pub serving_guarded :
      (cfg : ApplicationConfig) (srv : MainServer Conn) (world : env.os.World)
      (run : SubServerRun env.os) (server : DataServer env.os) (db : auth_env.Db)
      (auth_world : auth_env.os.World) (ns : N) (es : List WebEvent) (r : WebRequest) (d : Draws)
      (e : Endpoint)
      → main_server print new_client cfg ≡ ok (some srv)
      → run_subserver env.os world cfg ≡ some run
      → run.service ≡ some server
      → let x = web_run auth_env env web es (running srv server db auth_world ns) in
        let storage = x.1.services.storage in
        IsValid storage.active_connections
        × (storage.sem ≡ server.sem)
        × (((serve web (some (data_client env d)) r e x).0.1.services ≡ x.1.services)
            ⊎ (((f : FileEndpoint) × (e ≡ file f)
                  × IsAdmitted web (some (data_client env d)) r 100 f x.0 x.1)
                ⊎ IsAccountRequest web (some (data_client env d)) r 10 e x.0 x.1))
  unfolding run_subserver
  serving_guarded cfg srv world run server db auth_world ns es r d e made started there =
      let x0 = running srv server db auth_world ns in
      let ready0 = running-IsReady cfg srv server db auth_world ns made in
      let x = web_run auth_env env web es x0 in
      let ready = web_run-IsReady auth_env env web 100 10 es x0 ready0 in
      let (calls, _, same) = web_run-run auth_env env web 100 10 es x0 ready0 in
      let empty : server.active_connections ≡ [] =
        register_all-IsNew env.os world cfg cfg.sub_servers
          (record { service = none; address = []; port = 0 }) run (λ s e. absurd (ground arith))
          started server there in
      let (valid, sem) = run-IsValid env calls server (rw empty (tt, tt)) in
      (
        rw same valid,
        rw same sem,
        requests_guarded web (some (data_client env d)) r 100 10 e x.0 x.1 ready.data_valid
            ready.auth_valid,
      )
