-- ===== src/Server/Routes/Tests.antt =====
-- Requests to a main server over the file system and the database in memory.
use mhserver.Data.Service as Service
use mhserver.Server.Routes.Histories.{WebEvent, requests, files_clean, web_run}
use mhserver.Server.Routes.Histories.Storage.{web_run-run}
use mhserver.Common.{
  ◌≤◌, List, length, ◌*◌, ◌<◌, ◌≡◌, ◌⊎◌, refl, some, [], ◌∷◌, codes, arith, ok, blocked,
}
use mhserver.Common.Dict.{lookup, insert, text_eq}
use mhserver.Common.Time.{second}
use mhserver.Dirs.{generate_user_folders}
use mhserver.RateLimit.{new_limiter, allow}
use mhserver.RateLimit.Laws.{accepted}
use mhserver.RateLimit.Quota.{new_limiter-IsValid}
use mhserver.Data.Sample as DataSample
use mhserver.Auth.{byte_length, login, register}
use mhserver.Auth.Sample.{env, service, bob, new_bob}
use mhserver.Http.{initial_errors}
use mhserver.Http.Sample.{draws}
use mhserver.Http.Exchange.{start}
use mhserver.Http.DataHandlers.Service.{data_client}
use mhserver.Server.Endpoints.{FileEndpoint, mkdir, file}
use mhserver.Server.Routes.{WebRequest, file_handler, serve, answer}
use mhserver.Server.Routes.Guards.{IsAdmitted, IsAccountRequest, requests_guarded}
use mhserver.Server.Routes.SignedIn.{signed_in}
use mhserver.Server.Routes.ShortHeaders.{AllShort, serve_all, short_headers_block}
use mhserver.Server.{with_main_semaphore}
use mhserver.Http.Limits.{with_rate_limit}
use mhserver.Auth.Middleware.{with_auth, strip_bearer}
use mhserver.Server.Routes.Sample.{web, web-Verifies, limiter, fresh_server, makes_dir, places}

requests_guarded_example :
    let r =
      serve web
        (some (data_client DataSample.env draws))
        makes_dir
        (file mkdir)
        (places, fresh_server) in
    (r.0.1.services ≡ fresh_server.services)
    ⊎ (((f : FileEndpoint) × (file mkdir ≡ file f)
          × IsAdmitted web
              (some (data_client DataSample.env draws))
              makes_dir
              100
              f
              places
              fresh_server)
        ⊎ IsAccountRequest web
            (some (data_client DataSample.env draws))
            makes_dir
            10
            (file mkdir)
            places
            fresh_server)
requests_guarded_example =
    requests_guarded web (some (data_client DataSample.env draws)) makes_dir 100 10 (file mkdir)
      places fresh_server (new_limiter-IsValid 100 (60 * second))
      (new_limiter-IsValid 10 (60 * second))

bob_logs_in : (login env 0 bob (register env [] new_bob service).0).1 ≡ ok (codes "bobs")
unfolding register login byte_length generate_user_folders lookup insert text_eq
bob_logs_in = refl

none_yet : accepted (codes "1") (limiter 100) < 100
unfolding new_limiter lookup
none_yet = ground arith

signed_in_example :
    let client = some (data_client DataSample.env draws) in
    let x =
      (file_handler web client makes_dir mkdir
        (codes "bob")
        (start DataSample.server initial_errors)).0 in
    (serve web client makes_dir (file mkdir) (places, fresh_server)).0.1.services
    ≡ record (fresh_server.services) { storage = x.state; errors = x.errors }
unfolding register byte_length lookup text_eq generate_user_folders
signed_in_example =
    signed_in web (some (data_client DataSample.env draws)) makes_dir 100 0 bob
      (register env [] new_bob service).0 (codes "bobs") mkdir places fresh_server bob_logs_in
      (web-Verifies (2 * second)) (omega arith) (omega arith) refl refl
      (new_limiter-IsValid 100 (60 * second)) none_yet

-- Bob makes a directory, and the cleaner of open files comes round.
abbrev evening : List WebEvent
evening = requests makes_dir draws (file mkdir) ∷ files_clean (3 * second) ∷ []

web_run-run_test :
    (calls : List Service.Event) × (length calls ≤ length evening)
    × ((web_run env DataSample.env web evening (places, fresh_server)).1.services.storage
        ≡ Service.run DataSample.env calls fresh_server.services.storage)
web_run-run_test =
    web_run-run env DataSample.env web 100 10 evening (places, fresh_server)
      (record {
        data_valid = new_limiter-IsValid 100 (60 * second);
        auth_valid = new_limiter-IsValid 10 (60 * second);
      })

-- Two requests with the header "abc", for the two places.
abbrev abc : WebRequest
abc = record makes_dir { authorization = codes "abc" }

abbrev two_abc : List (WebRequest × FileEndpoint)
two_abc = (abc, mkdir) ∷ (abc, mkdir) ∷ []

two_abc-AllShort :
    AllShort web (some (data_client DataSample.env draws)) 100 two_abc (places, fresh_server)
unfolding serve answer with_main_semaphore with_rate_limit with_auth strip_bearer allow new_limiter
    lookup insert text_eq
two_abc-AllShort =
    ((omega arith, omega arith, omega arith), ((omega arith, omega arith, omega arith), tt))

short_headers_block_example :
    let client = some (data_client DataSample.env draws) in
    let x = serve_all web client two_abc (places, fresh_server) in
    (x.1.services ≡ fresh_server.services)
    × ((serve web client makes_dir (file mkdir) x).1 ≡ blocked)
short_headers_block_example =
    short_headers_block web (some (data_client DataSample.env draws)) 100 two_abc makes_dir
      (file mkdir) places fresh_server (new_limiter-IsValid 100 (60 * second)) two_abc-AllShort
      (omega arith)
