-- ===== src/Application/Tests.antt =====
-- A configuration with the subservers "main" and "files", started over clients that are their addresses.
use mhserver.Common.{List, ◌*◌, ◌⊎◌}
use mhserver.Common.Time.{second}
use mhserver.Auth.Sample.{service}
use mhserver.Auth.Sample as AuthSample
use mhserver.Data.Connections.Laws.{IsValid}
use mhserver.Data.Sample as DataSample
use mhserver.Data.Server.{DataServer, new_data_server, new_data_server_config, data_sem_size}
use mhserver.Http.Sample.{draws}
use mhserver.Http.DataHandlers.Service.{data_client}
use mhserver.Server.Endpoints.{FileEndpoint, mkdir, file}
use mhserver.Server.Routes.{serve}
use mhserver.Server.Routes.Guards.{IsAdmitted, IsAccountRequest}
use mhserver.Server.Routes.Histories.{WebEvent, requests, files_clean, web_run}
use mhserver.Server.Routes.Sample.{web, makes_dir}
use mhserver.Application.{Served, returns, serves, SubServerRun, run_subserver, register_all}
use mhserver.Application.Serving.{running, serving_guarded}
use mhserver.Common.{
  ℕ, ◌≡◌, refl, true, false, Option, none, some, [], ◌∷◌, Text, codes, arith, ok, replicate,
  ℕ_discrete,
}
use mhserver.Common.Dict.{lookup, insert, text_eq, NodupKeys, AllValues}
use mhserver.Os.{OsError, got, not_exist}
use mhserver.Os.Memory.{memory_os}
use mhserver.Config.{with_allocated}
use mhserver.Config.Application.{
  SubServer, ApplicationConfig, init, allocate, priority_sum, give_all,
  check_memory_incompatibility, check_subservers,
}
use mhserver.Server.{main_sem_size}
use mhserver.Application.{
  sub_servers_only, all_servers, app_mode_of, MainServer, connect, setup_auth_service, main_server,
  auth_limiter, data_limiter, run, address_of,
}
use mhserver.Config.Application.Loading.{Loader}
use mhserver.Application.Connecting.{wanted, files_connection}
use mhserver.Application.Starting.{is_panic, IsSmall, run_lem}

abbrev sub_server : ℕ → SubServer
sub_server port = record {
  enabled = true;
  address = codes "h";
  port = port;
  extra = record { priority = 1; allocated_memory = 20000 };
}

abbrev two : ApplicationConfig
two = record {
  workspace_path = codes "/w/";
  jwt_signature = codes "s";
  db_pass = codes "p";
  memory = record { allocated = 100000; max_chunk_size = 8192; min_chunk_size = 1024 };
  sub_servers = (codes "files", sub_server 2) ∷ (codes "main", sub_server 1) ∷ [];
  with_default = true;
}

-- Ports are written in strokes.
abbrev strokes : ℕ → Text
strokes port = replicate port b'|'

abbrev no_certificate : MainServer Text → Served (Option OsError)
no_certificate srv = returns (some not_exist)

last_mode :
    app_mode_of all_servers (codes "mhserver" ∷ codes "-M" ∷ codes "-x" ∷ codes "-S" ∷ [])
    ≡ sub_servers_only
unfolding app_mode_of text_eq ℕ_discrete
last_mode = refl

abbrev two_server : MainServer Text
two_server = record {
  sem_size = 2;
  auth = record {
    jwt_signature = codes "s";
    workspace_path = codes "/w/";
    user_catalogs = codes "main" ∷ [];
  };
  auth_limiter = auth_limiter;
  data_limiter = data_limiter;
  files = some (codes "h:||");
  addr = codes "h:|";
}

two_starts : main_server strokes (λ (addr : Text). some addr) two ≡ ok (some two_server)
unfolding main_server connect setup_auth_service lookup insert text_eq main_sem_size with_allocated
two_starts = refl

two_unique : NodupKeys two.sub_servers
unfolding lookup text_eq
two_unique = (refl, (refl, tt))

two_accepted : init (some two) ≡ ok two
unfolding init allocate priority_sum give_all check_memory_incompatibility check_subservers lookup
    text_eq
two_accepted = refl

files_connection_test :
    (two_server.files ≡ wanted strokes (λ (addr : Text). some addr) (codes "files") two.sub_servers)
    × ((main : SubServer) × (lookup (codes "main") two.sub_servers ≡ some main)
        × (main.enabled ≡ true)
        × (two_server.addr ≡ address_of strokes (λ (addr : Text). some addr) main))
files_connection_test =
    files_connection strokes (λ (addr : Text). some addr) two two_server two_unique two_starts

two_given : AllValues IsSmall two.sub_servers
two_given = (omega arith, (omega arith, tt))

-- gRPC is served for ever.
abbrev serves_grpc : SubServerRun memory_os → Served (Unit {0})
serves_grpc run = serves

two_starts_all :
    is_panic (
      run strokes
        (λ (addr : Text). some addr)
        no_certificate
        memory_os
        []
        serves_grpc
        all_servers
        two)
    ≡ false
two_starts_all =
    run_lem strokes (λ (addr : Text). some addr) no_certificate memory_os [] serves_grpc all_servers
      two two two_accepted (omega arith) (omega arith) two_given

abbrev loader : Loader
loader = record {
  read_file = λ path. got path;
  http_get = λ url. none;
  unmarshal = λ text cfg. some two;
  version = codes "1";
}

-- The data service of the configuration, over an empty disk.
abbrev two_data : DataServer memory_os
two_data = record {
  cfg = new_data_server_config (codes "/w/") (with_allocated 20000 two.memory);
  active_connections = [];
  sem = record { capacity = 2; in_use = 0 };
  world = [];
}

abbrev two_run : SubServerRun memory_os
two_run = record { service = some two_data; address = codes "h"; port = 2 }

two_serves : run_subserver memory_os [] two ≡ some two_run
unfolding run_subserver register_all new_data_server data_sem_size new_data_server_config
    with_allocated text_eq ℕ_discrete
two_serves = refl

abbrev evening : List WebEvent
evening = requests makes_dir draws (file mkdir) ∷ files_clean (3 * second) ∷ []

serving_guarded_example :
    let x = web_run AuthSample.env DataSample.env web evening (
      running strokes
        (λ (addr : Text). some addr)
        AuthSample.env
        DataSample.env
        web
        two_server
        two_data
        service.db
        []
        10) in
    let storage = x.1.services.storage in
    IsValid storage.active_connections
    × (storage.sem ≡ two_data.sem)
    × (((serve web (some (data_client DataSample.env draws)) makes_dir (file mkdir) x).0.1.services
          ≡ x.1.services)
        ⊎ (((f : FileEndpoint) × (file mkdir ≡ file f)
              × IsAdmitted web (some (data_client DataSample.env draws)) makes_dir 100 f x.0 x.1)
            ⊎ IsAccountRequest web
                (some (data_client DataSample.env draws))
                makes_dir
                10
                (file mkdir)
                x.0
                x.1))
serving_guarded_example =
    serving_guarded strokes (λ (addr : Text). some addr) AuthSample.env DataSample.env web two
      two_server [] two_run two_data service.db [] 10 evening makes_dir draws (file mkdir)
      two_starts two_serves refl
