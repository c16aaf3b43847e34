-- ===== src/Config/Application/Loading.antt =====
-- The part of ApplicationConfig.Init that reads and decodes the configuration, and NewApplication of
-- internal/application/application.go up to the database. What os.ReadFile, http.Get and toml.Unmarshal give is an argument.
use mhserver.Common.{
  Bool, true, ℕ, ◌≡◌, refl, Option, none, some, [], Text, codes, ◌++◌, arith, ◌==◌, if◌then◌else◌,
  Outcome, ok, err, panic, blocked,
}
use mhserver.Os.{OsResult, got, failed, not_exist, exist, eof, other}
use mhserver.Config.Application.{ApplicationConfig, ConfigError, init}

pub record Loader : Type 0 where
  pub read_file : Text → OsResult Text
  -- The status code and what io.ReadAll gives of the body; `none` is an error.
  pub http_get : Text → Option (ℕ × Option Text)
  -- toml.Unmarshal into a configuration; `none` is an error.
  pub unmarshal : Text → ApplicationConfig → Option ApplicationConfig
  pub version : Text

abbrev pub new_application_config : Bool → ApplicationConfig
new_application_config load_default = record {
  workspace_path = [];
  jwt_signature = [];
  db_pass = [];
  memory = record { allocated = 0; max_chunk_size = 0; min_chunk_size = 0 };
  sub_servers = [];
  with_default = load_default;
}

abbrev pub config_filename : Text
config_filename = codes "mhserver.conf"

abbrev pub default_config_filename : Text
default_config_filename = config_filename ++ codes ".default"

abbrev of_response : Option (ℕ × Option Text) → Option Text
of_response none = none
of_response (some (status, body)) = if status == 200 then body else none

abbrev download : Loader → Option Text
download l = of_response (
    l.http_get (
      codes "https://raw.githubusercontent.com/braginantonev/mhserver/v"
      ++ (l.version ++ (codes "/" ++ default_config_filename))))

abbrev or_download : Loader → OsResult Text → Option Text
or_download l (got def) = some def
or_download l (failed not_exist) = download l
or_download l (failed exist) = none
or_download l (failed eof) = none
or_download l (failed other) = none

abbrev of_file : OsResult Text → Option Text
of_file (got text) = some text
of_file (failed e) = none

abbrev decoded_into : Loader → ApplicationConfig → Option Text → Option ApplicationConfig
decoded_into l cfg none = none
decoded_into l cfg (some text) = l.unmarshal text cfg

abbrev own_settings : Loader → Text → Option ApplicationConfig → Option ApplicationConfig
own_settings l config_dir none = none
own_settings l config_dir (some cfg) =
    decoded_into l cfg (of_file (l.read_file (config_dir ++ config_filename)))

-- The default settings, if they are wanted, and then the own ones over them.
unfoldable pub load : Loader → Text → ApplicationConfig → Option ApplicationConfig
load l config_dir cfg = own_settings l config_dir (
    if cfg.with_default
    then decoded_into l cfg (or_download l (l.read_file (config_dir ++ default_config_filename)))
    else some cfg)

-- Init
unfoldable pub init_from : Loader → Text → ApplicationConfig → Outcome ConfigError ApplicationConfig
unfolding load
init_from l config_dir cfg = init (load l config_dir cfg)

-- With the default file in its place nothing is downloaded: the network does not matter.
pub load_offline :
    (l : Loader) (http_get : Text → Option (ℕ × Option Text)) (config_dir def : Text)
    (cfg : ApplicationConfig)
    → l.read_file (config_dir ++ default_config_filename) ≡ got def
    → load l config_dir cfg ≡ load (record l { http_get = http_get }) config_dir cfg
unfolding load
load_offline l http_get config_dir def cfg e = ground (arith, e)

-- Init succeeds only with the own file there, whatever the default file and the network give.
pub own_file_needed :
    (l : Loader) (config_dir : Text) (cfg cfg' : ApplicationConfig)
    → init_from l config_dir cfg ≡ ok cfg'
    → (text : Text) × (l.read_file (config_dir ++ config_filename) ≡ got text)
unfolding init_from init
own_file_needed l config_dir cfg cfg' e =
    elim (l.read_file (config_dir ++ config_filename))
        as (λ r.
          (l.read_file (config_dir ++ config_filename) ≡ r)
          → (text : Text) × (l.read_file (config_dir ++ config_filename) ≡ got text)) [
            | got text ↦ λ found. (text, found)
            | failed x ↦ λ missing. absurd (ground (arith, missing))
          ]
      refl

-- OpenDB of internal/repository/database/db.go for a password: sql.Open with the driver's configuration, and
-- Ping of the database that it gives. `none` is an error.
unfoldable pub open_db : {Db : Type 0} → (Text → Option Db) → (Db → Bool) → Text → Option Db
open_db sql_open ping password = elim (sql_open password) [
  | none ↦ none
  | some db ↦ if ping db then some db else none
]

-- NewApplication
pub data ApplicationError : Type 0 where
  config_error : ConfigError → ApplicationError
  db_error : ApplicationError

abbrev with_db :
    {Db : Type 0}
    → ApplicationConfig
    → Option Db
    → Outcome ApplicationError (ApplicationConfig × Db)
with_db cfg none = err db_error
with_db cfg (some db) = ok (cfg, db)

unfoldable pub new_application :
    {Db : Type 0}
    → Loader
    → (Text → Option Db)
    → (Db → Bool)
    → Outcome ApplicationError (ApplicationConfig × Db)
unfolding init_from open_db
new_application l sql_open ping =
    elim (init_from l (codes "/usr/share/mhserver/") (new_application_config true)) [
      | ok cfg' ↦ with_db cfg' (open_db sql_open ping cfg'.db_pass)
      | err e ↦ err (config_error e)
      | panic ↦ panic
      | blocked ↦ blocked
    ]
