-- ===== src/Application.antt =====
-- internal/application/application.go, internal/di and cmd/main.go: what is started from a configuration.
-- A Go map is ranged over in any order: that of the association list stands for the order that is met.
pub mod Program
pub mod Starting
pub mod Connecting
pub mod Serving
pub mod Ending
mod Tests
use mhserver.Common.{
  ℕ, ◌*◌, Bool, true, false, not, ◌&&◌, ◌||◌, Option, none, some, List, [], ◌∷◌, ◌++◌, Text, codes,
  ite, Outcome, ok, err, panic, blocked, if◌then◌else◌,
}
use mhserver.Common.Dict.{Dict, lookup, insert, text_eq}
use mhserver.Common.Int.{pos}
use mhserver.Common.Time.{second}
use mhserver.Os.{Os, OsError}
use mhserver.Config.{with_allocated}
use mhserver.Config.Application.{SubServer, SubServers, ApplicationConfig}
use mhserver.RateLimit.{Limiter}
use mhserver.Http.Limits.{new_middleware}
use mhserver.Auth.{AuthConfig}
use mhserver.Data.Server.{DataServer, new_data_server, new_data_server_config}
use mhserver.Server.{main_sem_size}
use mhserver.Server.Endpoints.{ServeError, serve_error}

pub data AppMode : Type 0 where
  main_server_only sub_servers_only all_servers : AppMode

-- ArgAppMode
abbrev pub arg_mode : Text → Option AppMode
arg_mode arg =
    ite (text_eq.dec arg (codes "-M")) (some main_server_only)
      (ite (text_eq.dec arg (codes "-S")) (some sub_servers_only) none)

abbrev set_mode : Option AppMode → AppMode → AppMode
set_mode none app_mode = app_mode
set_mode (some mode) app_mode = mode

-- The loop over os.Args
unfoldable pub app_mode_of : AppMode → List Text → AppMode
app_mode_of app_mode [] = app_mode
app_mode_of app_mode (arg ∷ args) = app_mode_of (set_mode (arg_mode arg) app_mode) args

abbrev pub is_main : Text → Bool
is_main name = ite (text_eq.dec name (codes "main")) true false

abbrev pub is_files : Text → Bool
is_files name = ite (text_eq.dec name (codes "files")) true false

abbrev names : SubServers → List Text
names [] = []
names ((name, _) ∷ m) = name ∷ names m

-- `available_services[1:]`, which panics on a map without entries: `none`
abbrev pub but_first : List Text → Option (List Text)
but_first [] = none
but_first (name ∷ rest) = some rest

-- SetupAuthService
unfoldable pub setup_auth_service : ApplicationConfig → Option AuthConfig
setup_auth_service cfg = elim (but_first (names cfg.sub_servers)) [
  | none ↦ none
  | some catalogs ↦ some (record {
    jwt_signature = cfg.jwt_signature;
    workspace_path = cfg.workspace_path;
    user_catalogs = catalogs;
  })
]

-- config.LimiterConfig of SetupAuthTransport and SetupDataTransport
unfoldable pub auth_limiter : Limiter
auth_limiter = new_middleware (record { limit = pos 10; interval = 60 * second })

unfoldable pub data_limiter : Limiter
data_limiter = new_middleware (record { limit = pos 100; interval = second * 5 })

pub data StartError : Type 0 where
  no_client : StartError
  not_served : ServeError → StartError

-- A server that listens: it returns, or serves for ever.
pub data Served (A : Type 0) : Type 0 where
  returns : A → Served A
  serves : Served A

-- The main server before it serves. Its data client is over the connection to "files", which is nil
-- (`none`) when there is none.
pub record MainServer (Conn : Type 0) : Type 0 where
  pub sem_size : ℕ
  pub auth : AuthConfig
  pub auth_limiter : Limiter
  pub data_limiter : Limiter
  pub files : Option Conn
  pub addr : Text

-- `print` writes a port; `new_client` is grpc.NewClient, `none` an error.
module _ {Conn : Type 0} (print : ℕ → Text) (new_client : Text → Option Conn) where
  -- fmt.Sprintf("%s:%d", …)
  abbrev pub address_of : SubServer → Text
  address_of srv = srv.address ++ (b':' ∷ print srv.port)

  -- The loop of runMain.
  unfoldable pub connect : SubServers → Dict Text Conn → Option (Dict Text Conn)
  connect [] connections = some connections
  connect ((name, srv) ∷ m) connections =
      if not srv.enabled || is_main name
      then connect m connections
      else (elim (new_client (address_of srv)) [
        | none ↦ none
        | some conn ↦ connect m (insert name conn connections)
      ])

  abbrev new_server :
      ApplicationConfig
      → SubServer
      → Dict Text Conn
      → Option ℕ
      → Option AuthConfig
      → Outcome StartError (Option (MainServer Conn))
  new_server cfg main connections none auth = panic
  new_server cfg main connections (some size) none = panic
  new_server cfg main connections (some size) (some auth) = ok (
      some (record {
        sem_size = size;
        auth = auth;
        auth_limiter = auth_limiter;
        data_limiter = data_limiter;
        files = lookup (codes "files") connections;
        addr = address_of main;
      }))

  -- runMain until it serves: `ok none` when the main server is disabled.
  unfoldable pub main_server : ApplicationConfig → Outcome StartError (Option (MainServer Conn))
  unfolding connect setup_auth_service
  main_server cfg = elim (lookup (codes "main") cfg.sub_servers) [
    | none ↦ panic
    | some main ↦ if not main.enabled then ok none else (elim (connect cfg.sub_servers []) [
      | none ↦ err no_client
      | some connections ↦
          new_server cfg main connections
            (main_sem_size (with_allocated main.extra.allocated_memory cfg.memory))
            (setup_auth_service cfg)
    ])
  ]

  abbrev ended : Option ServeError → Outcome StartError (Unit {0})
  ended none = ok tt
  ended (some e) = err (not_served e)

  abbrev listened : Served (Option OsError) → Outcome StartError (Unit {0})
  listened (returns e) = ended (serve_error e)
  listened serves = blocked

  -- runMain; `listen` is ListenAndServeTLS of a server at an address.
  unfoldable pub run_main :
      (MainServer Conn → Served (Option OsError))
      → ApplicationConfig
      → Outcome StartError (Unit {0})
  unfolding main_server
  run_main listen cfg = elim (main_server cfg) [
    | ok none ↦ ok tt
    | ok (some srv) ↦ listened (listen srv)
    | err e ↦ err e
    | panic ↦ panic
    | blocked ↦ blocked
  ]

-- The gRPC server of the subservers: the data service, if it is registered, and the address and port of
-- the last subserver that is enabled.
pub record SubServerRun (os : Os) : Type 0 where
  pub service : Option (DataServer os)
  pub address : Text
  pub port : ℕ

module _ (os : Os) (w : os.World) where
  abbrev registered : DataServer os → SubServerRun os → SubServerRun os
  registered server run = record run { service = some server }

  -- RegisterGrpcServer; `none` is a panic of NewDataServer.
  abbrev pub register_grpc_server :
      Text → ApplicationConfig → SubServer → SubServerRun os → Option (SubServerRun os)
  register_grpc_server name cfg srv run =
      if is_files name
      then (elim (new_data_server os
          (new_data_server_config cfg.workspace_path
            (with_allocated srv.extra.allocated_memory cfg.memory))
          w) [ none ↦ none | some server ↦ some (registered server run) ])
      else some run

  -- The loop of runSubserver.
  unfoldable pub register_all :
      ApplicationConfig → SubServers → SubServerRun os → Option (SubServerRun os)
  register_all cfg [] run = some run
  register_all cfg ((name, srv) ∷ m) run =
      if not srv.enabled || is_main name
      then register_all cfg m run
      else (elim (register_grpc_server name cfg srv
          (record run { address = srv.address; port = srv.port })) [
            | none ↦ none
            | some run' ↦ register_all cfg m run'
          ])

  -- runSubserver until it listens.
  unfoldable pub run_subserver : ApplicationConfig → Option (SubServerRun os)
  unfolding register_all
  run_subserver cfg =
      register_all cfg cfg.sub_servers (record { service = none; address = []; port = 0 })

module _ {Conn : Type 0} (print : ℕ → Text) (new_client : Text → Option Conn)
    (listen : MainServer Conn → Served (Option OsError)) (os : Os) (w : os.World)
    (serve_grpc : SubServerRun os → Served (Unit {0})) where
  -- `if wait { wg.Wait() }`: until the goroutine that listens and serves gRPC, and only logs its errors, is
  -- at its end.
  abbrev waited :
      Bool → Served (Unit {0}) → Outcome StartError (Unit {0}) → Outcome StartError (Unit {0})
  waited false end r = r
  waited true (returns _) r = r
  waited true serves r = blocked

  -- A panic of runSubserver, or its waiting and what comes behind it.
  abbrev after_subservers :
      Bool
      → Option (SubServerRun os)
      → Outcome StartError (Unit {0})
      → Outcome StartError (Unit {0})
  after_subservers wait none r = panic
  after_subservers wait (some subservers) r = waited wait (serve_grpc subservers) r

  -- Application.Run
  unfoldable pub run : AppMode → ApplicationConfig → Outcome StartError (Unit {0})
  unfolding run_main run_subserver
  run main_server_only cfg = run_main print new_client listen cfg
  run sub_servers_only cfg = after_subservers true (run_subserver os w cfg) (ok tt)
  run all_servers cfg =
      after_subservers false (run_subserver os w cfg) (run_main print new_client listen cfg)
