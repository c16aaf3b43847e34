-- ===== src/Server/Routes/Histories/Ready.antt =====
-- Both limiters of a main server stay valid.
use mhserver.Common.{ℕ, ◌≡◌, Option, List, [], ◌∷◌, Text, arith, inl, inr}
use mhserver.RateLimit.{Limiter, request, ticks, cleans, step}
use mhserver.RateLimit.Quota.{IsValid, step-IsValid}
use mhserver.Auth.{AuthEnv}
use mhserver.Data.Server.{Env}
use mhserver.Http.Limits.{with_rate_limit}
use mhserver.Http.DataHandlers.{DataClient}
use mhserver.Server.Endpoints.{file, Endpoint, log_in, sign_up, ping, version}
use mhserver.Server.Routes.{Web, WebRequest, MainState, serve, answer}
use mhserver.Server.Routes.Guards.{with_main_semaphore_lem}
use mhserver.Server.Routes.Histories.{
  WebEvent, requests, auth_ticks, auth_cleans, data_ticks, data_cleans, files_clean, Running,
  web_step, web_run,
}
use mhserver.Data.Semaphore.{Semaphore}

limiter-with_rate_limit :
    {S A : Type 0} (ip : Text) (now : ℕ) (next : S → S × A) (l : Limiter) (s : S)
    → (with_rate_limit ip now next (l, s)).0.0 ≡ step (now, request ip) l
unfolding with_rate_limit step
limiter-with_rate_limit ip now next l s = ground arith

pub record IsReady (n k : ℕ) {env : AuthEnv} {D N : Type 0} (m : MainState env D N) : Type 0 where
  pub data_valid : IsValid n m.data_limiter
  pub auth_valid : IsValid k m.auth_limiter

module _ {env : AuthEnv} {D N : Type 0} (web : Web N) (client : Option (DataClient D))
    (r : WebRequest) where
  answer-IsReady :
      (n k : ℕ) (e : Endpoint) (m : MainState env D N)
      → IsReady n k m
      → IsReady n k (answer web client r e m).0
  unfolding answer
  answer-IsReady n k (file e) m v = record {
    data_valid =
        rw (limiter-with_rate_limit)
          (step-IsValid n (r.now, request r.forwarded_for) m.data_limiter v.data_valid);
    auth_valid = v.auth_valid;
  }
  answer-IsReady n k log_in m v = record {
    data_valid = v.data_valid;
    auth_valid =
        rw (limiter-with_rate_limit)
          (step-IsValid k (r.now, request r.forwarded_for) m.auth_limiter v.auth_valid);
  }
  answer-IsReady n k sign_up m v = record {
    data_valid = v.data_valid;
    auth_valid =
        rw (limiter-with_rate_limit)
          (step-IsValid k (r.now, request r.forwarded_for) m.auth_limiter v.auth_valid);
  }
  answer-IsReady n k ping m v = record { data_valid = v.data_valid; auth_valid = v.auth_valid }
  answer-IsReady n k version m v = record { data_valid = v.data_valid; auth_valid = v.auth_valid }

  serve-IsReady :
      (n k : ℕ) (e : Endpoint) (sem : Semaphore) (m : MainState env D N)
      → IsReady n k m
      → IsReady n k (serve web client r e (sem, m)).0.1
  unfolding serve
  serve-IsReady n k e sem m v = elim (with_main_semaphore_lem (answer web client r e) sem m) [
    | inl same ↦ rw same v
    | inr (_, ran) ↦ rw ran (answer-IsReady n k e m v)
  ]

module _ (auth_env : AuthEnv) (env : Env) {N : Type 0} (web : Web N) (n k : ℕ) where
  pub web_step-IsReady :
      (e : WebEvent) (x : Running auth_env env N)
      → IsReady n k x.1
      → IsReady n k (web_step auth_env env web e x).1
  unfolding web_step step
  web_step-IsReady (requests r d e) (sem, m) v = serve-IsReady web _ r n k e sem m v
  web_step-IsReady (auth_ticks ip now) (sem, m) v = record {
    data_valid = v.data_valid;
    auth_valid = step-IsValid k (now, ticks ip) m.auth_limiter v.auth_valid;
  }
  web_step-IsReady (auth_cleans now) (sem, m) v = record {
    data_valid = v.data_valid;
    auth_valid = step-IsValid k (now, cleans) m.auth_limiter v.auth_valid;
  }
  web_step-IsReady (data_ticks ip now) (sem, m) v = record {
    data_valid = step-IsValid n (now, ticks ip) m.data_limiter v.data_valid;
    auth_valid = v.auth_valid;
  }
  web_step-IsReady (data_cleans now) (sem, m) v = record {
    data_valid = step-IsValid n (now, cleans) m.data_limiter v.data_valid;
    auth_valid = v.auth_valid;
  }
  web_step-IsReady (files_clean now) (sem, m) v = record {
    data_valid = v.data_valid;
    auth_valid = v.auth_valid;
  }

  pub web_run-IsReady :
      (es : List WebEvent) (x : Running auth_env env N)
      → IsReady n k x.1
      → IsReady n k (web_run auth_env env web es x).1
  unfolding web_run
  web_run-IsReady [] x v = v
  web_run-IsReady (e ∷ es) x v =
      web_run-IsReady es (web_step auth_env env web e x) (web_step-IsReady e x v)
