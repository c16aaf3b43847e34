-- ===== src/Server/Endpoints.antt =====
-- The endpoints of internal/server/server.go with their paths and methods, and how Serve ends.
use mhserver.Common.{Bool, true, false, Option, none, some, Text, codes, if◌then◌else◌}
use mhserver.Os.{OsError, not_exist}

pub data FileEndpoint : Type 0 where
  connect save get sum files space mkdir rmdir : FileEndpoint

pub data Endpoint : Type 0 where
  log_in sign_up ping version : Endpoint
  file : FileEndpoint → Endpoint

abbrev pub file_path : FileEndpoint → Text
file_path connect = codes "/api/v1/files/connect"
file_path save = codes "/api/v1/files/save"
file_path get = codes "/api/v1/files/get"
file_path sum = codes "/api/v1/files/sum"
file_path files = codes "/api/v1/files"
file_path space = codes "/api/v1/files/space"
file_path mkdir = codes "/api/v1/files/mkdir"
file_path rmdir = codes "/api/v1/files/rmdir"

abbrev pub path_of : Endpoint → Text
path_of log_in = codes "/api/v1/users/login"
path_of sign_up = codes "/api/v1/users/register"
path_of (file e) = file_path e
path_of ping = codes "/api/v1/tools/ping"
path_of version = codes "/api"

abbrev pub is_get : Endpoint → Bool
is_get (file get) = true
is_get (file sum) = true
is_get (file files) = true
is_get (file space) = true
is_get e = false

abbrev pub method_of : Endpoint → Text
method_of e = if is_get e then codes "GET" else codes "POST"

-- errors.go, and the error of ListenAndServeTLS, if there is one: a missing certificate or another.
pub data ServeError : Type 0 where
  unsafe_protocol failed_start_server : ServeError

unfoldable pub serve_error : Option OsError → Option ServeError
serve_error none = none
serve_error (some not_exist) = some unsafe_protocol
serve_error (some e) = some failed_start_server
