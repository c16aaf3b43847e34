-- ===== src/Data/Download.antt =====
-- A whole download: a client gets the chunks of a file one after another by GetData
-- (internal/grpc/data/server.go) and puts them together.
pub mod Chunks
pub mod Contents
pub mod Stored
pub mod Fetched
mod Tests
use mhserver.Common.{ℕ, suc, List, [], ◌∷◌, ◌++◌, Text, ok, err, panic, blocked, ◌>>=◌, done}
use mhserver.Data.Server.{Env, Call}
use mhserver.Data.Transfer.{get_data}

-- From chunk `k` on, one chunk for each reading of the clock.
unfoldable pub get_all : (env : Env) → Text → ℕ → List ℕ → Call env (List ℕ)
get_all env uuid k [] = done []
get_all env uuid k (now ∷ times) = do
  part ← get_data env now (record { uuid = uuid; chunk_id = k })
  rest ← get_all env uuid (suc k) times
  done (part.chunk ++ rest)
