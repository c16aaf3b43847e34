-- ===== src/Data/Service.antt =====
-- Histories of the data service: its remote calls and the rounds of the cleaner, one after another.
pub mod Invariant
pub mod Sizes
pub mod Answers
use mhserver.Common.{ℕ, List, [], ◌∷◌}
use mhserver.Data.Connections.{Uuid, clean}
use mhserver.Data.Messages.{ConnectionRequest, SaveChunk, GetChunk, Directory}
use mhserver.Data.Server.{Env, DataServer}
use mhserver.Data.Opening.{create_connection}
use mhserver.Data.Transfer.{get_data, get_sum, save_data}
use mhserver.Data.Folders.{available_space, get_files, create_dir, remove_dir}

-- The numbers are readings of the clock.
pub data Event : Type 0 where
  creates_connection : Uuid → ℕ → ConnectionRequest → Event
  gets_data : ℕ → GetChunk → Event
  gets_sum : ℕ → GetChunk → Event
  saves_data : ℕ → ℕ → SaveChunk → Event
  gets_space : Directory → Event
  gets_files : Directory → Event
  creates_dir : Directory → Event
  removes_dir : Directory → Event
  cleans : ℕ → Event

module _ (env : Env) where
  clean_round : ℕ → DataServer env.os → DataServer env.os
  clean_round now s =
      let (m, w) = clean env.os now s.active_connections s.world in
      record s { active_connections = m; world = w }

  unfoldable pub step : Event → DataServer env.os → DataServer env.os
  unfolding clean_round
  step (creates_connection id now req) s = (create_connection env id now req s).0
  step (gets_data now chunk) s = (get_data env now chunk s).0
  step (gets_sum now chunk) s = (get_sum env now chunk s).0
  step (saves_data now later chunk) s = (save_data env now later chunk s).0
  step (gets_space dir) s = (available_space env dir s).0
  step (gets_files dir) s = (get_files env dir s).0
  step (creates_dir dir) s = (create_dir env dir s).0
  step (removes_dir dir) s = (remove_dir env dir s).0
  step (cleans now) s = clean_round now s

  unfoldable pub run : List Event → DataServer env.os → DataServer env.os
  run [] s = s
  run (e ∷ es) s = run es (step e s)
