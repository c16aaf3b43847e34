-- ===== src/Server/Routes/Histories/Storage.antt =====
-- What a history of the main server is for the data service behind it.
use mhserver.Common.{ℕ, ◌≤◌, ◌≡◌, refl, ◌∙◌, ap, some, List, [], ◌∷◌, length, Text, arith, inl, inr}
use mhserver.Auth.{AuthEnv}
use mhserver.Data.Semaphore.{Semaphore}
use mhserver.Data.Server.{Env, DataServer}
use mhserver.Data.Service as Service
use mhserver.Http.{Errors}
use mhserver.Http.Exchange.{start}
use mhserver.Http.DataHandlers.Service.{Draws, data_client}
use mhserver.Http.DataHandlers.States.{
  Moved, create_connection-Moved, save_data-Moved, get_data-Moved, get_sum-Moved, get_files-Moved,
  available_space-Moved, create_dir-Moved, remove_dir-Moved,
}
use mhserver.Server.Endpoints.{
  FileEndpoint, connect, save, get, sum, files, space, mkdir, rmdir, Endpoint,
}
use mhserver.Server.Routes.{Web, WebRequest, Services, MainState, file_handler, serve}
use mhserver.Server.Routes.Guards.{requests_guarded}
use mhserver.Server.Routes.Histories.{
  WebEvent, requests, auth_ticks, auth_cleans, data_ticks, data_cleans, files_clean, Running,
  web_step, web_run,
}
use mhserver.Server.Routes.Histories.Ready.{IsReady, web_step-IsReady}

at_equal : (env : Env) {s t u : DataServer env.os} → t ≡ u → Moved env s u → Moved env s t
at_equal env e (inl same) = inl (e ∙ same)
at_equal env e (inr (call, moved)) = inr (call, e ∙ moved)

module _ (env : Env) {N : Type 0} (web : Web N) where
  file_handler-Moved :
      (d : Draws) (r : WebRequest) (f : FileEndpoint) (name : Text) (s : DataServer env.os)
      (es : Errors)
      → Moved env s (file_handler web (some (data_client env d)) r f name (start s es)).0.state
  file_handler-Moved d r connect name s es =
      create_connection-Moved env web.formats d r.query name s es (web.decode_connection r.body)
  file_handler-Moved d r save name s es =
      save_data-Moved env web.formats d r.query name s es (web.decode_part r.body)
  file_handler-Moved d r get name s es = get_data-Moved env web.formats d r.query name s es
  file_handler-Moved d r sum name s es = get_sum-Moved env web.formats d r.query name s es
  file_handler-Moved d r files name s es = get_files-Moved env web.formats d r.query name s es
  file_handler-Moved d r space name s es = available_space-Moved env web.formats d r.query name s es
  file_handler-Moved d r mkdir name s es = create_dir-Moved env web.formats d r.query name s es
  file_handler-Moved d r rmdir name s es = remove_dir-Moved env web.formats d r.query name s es

module _ (auth_env : AuthEnv) (env : Env) {N : Type 0} (web : Web N) where
  serve-Moved :
      (n k : ℕ) (d : Draws) (r : WebRequest) (e : Endpoint) (sem : Semaphore)
      (m : MainState auth_env (DataServer env.os) N)
      → IsReady n k m
      → Moved env m.services.storage
          (serve web (some (data_client env d)) r e (sem, m)).0.1.services.storage
  serve-Moved n k d r e sem m v =
      elim (requests_guarded web (some (data_client env d)) r n k e sem m v.data_valid
        v.auth_valid) [
          | inl same ↦ inl (ap (λ (s : Services auth_env (DataServer env.os)). s.storage) same)
          | inr (inl (f, which, a)) ↦
              let handled =
                ap
                  (λ (e' : Endpoint).
                    (serve web (some (data_client env d)) r e' (sem, m)).0.1.services)
                  which
                ∙ a.handled in
              at_equal env (ap (λ (s : Services auth_env (DataServer env.os)). s.storage) handled)
                (file_handler-Moved env web d r f a.name m.services.storage m.services.errors)
          | inr (inr a) ↦ inl a.storage_kept
        ]

  abbrev storage_of : Running auth_env env N → DataServer env.os
  storage_of x = x.1.services.storage

  web_step-Moved :
      (n k : ℕ) (e : WebEvent) (x : Running auth_env env N)
      → IsReady n k x.1
      → Moved env (storage_of x) (storage_of (web_step auth_env env web e x))
  unfolding web_step
  web_step-Moved n k (requests r d e) (sem, m) v = serve-Moved n k d r e sem m v
  web_step-Moved n k (auth_ticks ip now) (sem, m) v = inl refl
  web_step-Moved n k (auth_cleans now) (sem, m) v = inl refl
  web_step-Moved n k (data_ticks ip now) (sem, m) v = inl refl
  web_step-Moved n k (data_cleans now) (sem, m) v = inl refl
  web_step-Moved n k (files_clean now) (sem, m) v = inr (Service.cleans now, refl)

  -- Whatever reaches a main server with valid limiters, the data service behind it goes through a history of
  -- its own calls and rounds of its cleaner, at most one for each event of the main server.
  pub web_run-run :
      (n k : ℕ) (es : List WebEvent) (x : Running auth_env env N)
      → IsReady n k x.1
      → (calls : List Service.Event) × (length calls ≤ length es)
        × (storage_of (web_run auth_env env web es x) ≡ Service.run env calls (storage_of x))
  unfolding web_run Service.run
  web_run-run n k [] x v = ([], omega arith, refl)
  web_run-run n k (e ∷ es) x v =
      let (calls, few, later) =
        web_run-run n k es (web_step auth_env env web e x)
          (web_step-IsReady auth_env env web n k e x v) in
      elim (web_step-Moved n k e x v) [
        | inl same ↦ (calls, omega arith, later ∙ ap (Service.run env calls) same)
        | inr (call, moved) ↦ (call ∷ calls, omega arith, later ∙ ap (Service.run env calls) moved)
      ]
