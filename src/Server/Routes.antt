-- ===== src/Server/Routes.antt =====
-- Serve of internal/server/server.go: the endpoints, each behind the semaphore, a rate limiter and, for files,
-- a token. The router of gorilla/mux calls the endpoint that is registered for a path and a method.
pub mod Guards
pub mod SignedIn
pub mod ShortHeaders
pub mod Histories
pub mod Sample
mod Tests
use mhserver.Common.{
  ℕ, Bool, true, false, Option, none, some, List, [], ◌∷◌, Text, codes, ok, err, panic, blocked,
  Method, Outcome, if◌then◌else◌,
}
use mhserver.Os.{OsError, not_exist}
use mhserver.RateLimit.{Limiter}
use mhserver.Data.Messages.{ConnectionRequest, FilePart}
use mhserver.Data.Semaphore.{Semaphore}
use mhserver.Auth.{AuthEnv, AuthService, User, RegisterUser}
use mhserver.Auth.Middleware.{
  HttpAuthError, user_not_authorized, authorization_expired, jwt_signature_invalid, bad_jwt_token,
  internal, Parsed, with_auth,
}
use mhserver.Http.{
  HttpError, Response, Errors, Decoded, fresh, write, write_body, new_external_http_error,
}
use mhserver.Http.Limits.{Limited, too_many_requests, served, with_rate_limit}
use mhserver.Http.Exchange.{Exchange, Request, Returned, Handler, start}
use mhserver.Http.DataHandlers.{
  DataFormats, DataClient, create_connection, save_data, get_data, get_sum, get_files,
  get_available_disk_space, create_dir, remove_dir,
}
use mhserver.Http.AccountHandlers.{login, register}
use mhserver.Server.{with_main_semaphore}
use mhserver.Server.Endpoints.{
  FileEndpoint, connect, save, get, sum, files, space, mkdir, rmdir, Endpoint, log_in, sign_up,
  ping, version, file,
}

-- A request, as far as the endpoints read it, with the readings of the clock and the salt that are
-- drawn while it is answered.
pub record WebRequest : Type 0 where
  pub authorization : Text
  pub forwarded_for : Text
  pub query : Text → Text
  pub body : Text
  pub now : ℕ
  pub later : ℕ
  pub salt : Text

-- What the server calls of other packages: JSON and number formats, jwt.Parse under the service's key,
-- Allow of golang.org/x/time/rate, http.Error of net/http, and the version that the build sets.
pub record Web (N : Type 0) : Type 0 where
  pub formats : DataFormats
  pub decode_connection : Text → Decoded ConnectionRequest
  pub decode_part : Text → Decoded FilePart
  pub decode_user : Text → Decoded User
  pub decode_register_user : Text → Decoded RegisterUser
  pub parse : Text → Parsed
  pub ns_allow : N → N × Bool
  pub http_error : Text → ℕ → Response → Response
  pub version_text : Text

-- internal/http/auth/errors.go
unfoldable pub auth_error : HttpAuthError → Errors → HttpError
auth_error user_not_authorized es = new_external_http_error (codes "user not authorized") 401
auth_error authorization_expired es = new_external_http_error (codes "authorization expired") 401
auth_error jwt_signature_invalid es = new_external_http_error (codes "jwt signature is invalid") 400
auth_error bad_jwt_token es = new_external_http_error (codes "bad jwt token") 400
auth_error internal es = es.auth_internal

pub data Reply : Type 0 where
  under_limit : Limited Response → Reply
  unlimited : Response → Reply

module _ (env : AuthEnv) (D : Type 0) where
  -- What stands behind the middlewares: the accounts, the state behind the data client, the shared errors.
  pub record Services : Type 0 where
    pub accounts : AuthService env
    pub storage : D
    pub errors : Errors

pub record MainState (env : AuthEnv) (D N : Type 0) : Type 0 where
  pub auth_limiter : Limiter
  pub data_limiter : Limiter
  pub ns_limiter : N
  pub services : Services env D

-- A panic behind WithRateLimit, or a handler that blocks, is that of the whole endpoint.
abbrev limited_reply : Limited (Outcome ⊥ Response) → Outcome ⊥ Reply
limited_reply (too_many_requests after) = ok (under_limit (too_many_requests after))
limited_reply (served limit left reset (ok w)) = ok (under_limit (served limit left reset w))
limited_reply (served limit left reset (err e)) = err e
limited_reply (served limit left reset panic) = panic
limited_reply (served limit left reset blocked) = blocked

module _ {D N : Type 0} (web : Web N) (client : Option (DataClient D)) (r : WebRequest) where
  -- s.DataTransport.CreateConnection and the others, for the user of a token
  abbrev pub file_handler : FileEndpoint → Text → Handler D (Unit {0})
  file_handler connect name =
      create_connection web.formats client (record { query = r.query; username = some name })
        (web.decode_connection r.body)
  file_handler save name =
      save_data web.formats client (record { query = r.query; username = some name })
        (web.decode_part r.body)
  file_handler get name =
      get_data web.formats client (record { query = r.query; username = some name })
  file_handler sum name =
      get_sum web.formats client (record { query = r.query; username = some name })
  file_handler files name =
      get_files web.formats client (record { query = r.query; username = some name })
  file_handler space name =
      get_available_disk_space web.formats client (record { query = r.query; username = some name })
  file_handler mkdir name =
      create_dir web.formats client (record { query = r.query; username = some name })
  file_handler rmdir name =
      remove_dir web.formats client (record { query = r.query; username = some name })

module _ {env : AuthEnv} {D : Type 0} where
  -- A handler has written its reply when it returns, early or not.
  abbrev pub replied :
      {E : Type 0}
      → Services env D
      → Response
      → Outcome Returned (Unit {0})
      → Services env D × Outcome E Response
  replied s w (ok _) = (s, ok w)
  replied s w (err _) = (s, ok w)
  replied s w panic = (s, panic)
  replied s w blocked = (s, blocked)

  abbrev pub on_storage : {E : Type 0} → Handler D (Unit {0}) → Method (Services env D) E Response
  on_storage handler s =
      let (x, r) = handler (start s.storage s.errors) in
      replied (record s { storage = x.state; errors = x.errors }) x.response r

  abbrev pub on_accounts :
      {E : Type 0} → Handler (AuthService env) (Unit {0}) → Method (Services env D) E Response
  on_accounts handler s =
      let (x, r) = handler (start s.accounts s.errors) in
      replied (record s { accounts = x.state; errors = x.errors }) x.response r

  -- `e.Write(w); return` of WithAuth
  abbrev pub refused :
      Services env D × Outcome HttpAuthError Response → Services env D × Outcome ⊥ Response
  refused (s, ok w) = (s, ok w)
  refused (s, err e) = (s, ok (write (some (auth_error e s.errors)) fresh))
  refused (s, panic) = (s, panic)
  refused (s, blocked) = (s, blocked)

module _ {env : AuthEnv} {D N : Type 0} (r : WebRequest) where
  -- s.DataTransport.WithRateLimit(…), and s.AuthTransport.WithRateLimit(…)
  abbrev pub data_limited : Method (Services env D) ⊥ Response → Method (MainState env D N) ⊥ Reply
  data_limited next m =
      let ((l, s), a) = with_rate_limit r.forwarded_for r.now next (m.data_limiter, m.services) in
      (record m { data_limiter = l; services = s }, limited_reply a)

  abbrev pub auth_limited : Method (Services env D) ⊥ Response → Method (MainState env D N) ⊥ Reply
  auth_limited next m =
      let ((l, s), a) = with_rate_limit r.forwarded_for r.now next (m.auth_limiter, m.services) in
      (record m { auth_limiter = l; services = s }, limited_reply a)

module _ {env : AuthEnv} {D N : Type 0} (web : Web N) where
  -- The two endpoints without a service.
  abbrev pub ns_limited : Text → Text → Method (MainState env D N) ⊥ Reply
  ns_limited refusal text m =
      let (n, allowed) = web.ns_allow m.ns_limiter in
      (
        record m { ns_limiter = n },
        ok (
            unlimited
              (if allowed then write_body text fresh else web.http_error refusal 429 fresh)),
      )

module _ {env : AuthEnv} {D N : Type 0} (web : Web N) (client : Option (DataClient D))
    (r : WebRequest) where
  -- s.AuthTransport.WithAuth(…)
  abbrev pub authorized : FileEndpoint → Method (Services env D) ⊥ Response
  authorized e s = refused (
      with_auth web.parse (λ name. on_storage (file_handler web client r e name)) r.authorization s)

  unfoldable pub answer : Endpoint → Method (MainState env D N) ⊥ Reply
  answer log_in = auth_limited r (on_accounts (login env r.later (web.decode_user r.body)))
  answer sign_up =
      auth_limited r (on_accounts (register env r.salt (web.decode_register_user r.body)))
  answer (file e) = data_limited r (authorized e)
  answer ping = ns_limited web (codes "Too many requests") (codes "Welcome to MHServer API")
  answer version = ns_limited web (codes "to many requests") web.version_text

  -- What Serve registers for the endpoint's path and method.
  unfoldable pub serve : Endpoint → Method (Semaphore × MainState env D N) ⊥ Reply
  unfolding answer
  serve e = with_main_semaphore (answer e)
