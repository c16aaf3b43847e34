-- ===== src/Server/Routes/Histories.antt =====
-- Histories of a main server and the data service behind it: requests, the tickers and the cleaners of both
-- limiters (internal/repository/ratelimit), and the cleaner of open files, one after another.
pub mod Ready
pub mod Storage
use mhserver.Common.{ℕ, some, List, [], ◌∷◌, Text}
use mhserver.RateLimit.{tick, clean_expired}
use mhserver.Auth.{AuthEnv}
use mhserver.Data.Semaphore.{Semaphore}
use mhserver.Data.Server.{Env, DataServer}
use mhserver.Data.Service as Service
use mhserver.Http.DataHandlers.Service.{Draws, data_client}
use mhserver.Server.Endpoints.{Endpoint}
use mhserver.Server.Routes.{Web, WebRequest, MainState, serve}

pub data WebEvent : Type 0 where
  requests : WebRequest → Draws → Endpoint → WebEvent
  auth_ticks : Text → ℕ → WebEvent
  auth_cleans : ℕ → WebEvent
  data_ticks : Text → ℕ → WebEvent
  data_cleans : ℕ → WebEvent
  files_clean : ℕ → WebEvent

abbrev pub Running : AuthEnv → Env → Type 0 → Type 0
Running auth_env env N = Semaphore × MainState auth_env (DataServer env.os) N

module _ (auth_env : AuthEnv) (env : Env) {N : Type 0} (web : Web N) where
  unfoldable pub web_step : WebEvent → Running auth_env env N → Running auth_env env N
  web_step (requests r d e) x = (serve web (some (data_client env d)) r e x).0
  web_step (auth_ticks ip now) (sem, m) =
      (sem, record m { auth_limiter = tick ip now m.auth_limiter })
  web_step (auth_cleans now) (sem, m) =
      (sem, record m { auth_limiter = clean_expired now m.auth_limiter })
  web_step (data_ticks ip now) (sem, m) =
      (sem, record m { data_limiter = tick ip now m.data_limiter })
  web_step (data_cleans now) (sem, m) =
      (sem, record m { data_limiter = clean_expired now m.data_limiter })
  web_step (files_clean now) (sem, m) = (
    sem,
    record m {
      services = record (m.services) {
        storage = Service.step env (Service.cleans now) m.services.storage;
      };
    },
  )

  unfoldable pub web_run : List WebEvent → Running auth_env env N → Running auth_env env N
  web_run [] x = x
  web_run (e ∷ es) x = web_run es (web_step e x)
