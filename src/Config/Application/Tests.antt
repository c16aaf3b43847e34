-- ===== src/Config/Application/Tests.antt =====
-- A configuration with three subservers, and the theorems on it.
use mhserver.Common.{ℕ, ◌≤◌, ◌≡◌, ◌↔◌, refl, some, true, [], ◌∷◌, codes, arith, ok, err}
use mhserver.Common.Dict.{lookup, AllValues, text_eq}
use mhserver.Config.Application.{
  ApplicationConfig, SubServer, very_low, init, allocate, priority_sum, give_all,
  check_memory_incompatibility, check_subservers,
}
use mhserver.Config.Application.Shares.{priorities, given, given-allocate}
use mhserver.Config.Application.Limits.{IsFit, init_iff}

abbrev sub_server : ℕ → ℕ → SubServer
sub_server priority allocated = record {
  enabled = true;
  address = codes "localhost";
  port = 8100;
  extra = record { priority = priority; allocated_memory = allocated };
}

abbrev three : ApplicationConfig
three = record {
  workspace_path = codes "/w/";
  jwt_signature = codes "s";
  db_pass = codes "p";
  memory = record { allocated = 100000; max_chunk_size = 8192; min_chunk_size = 1024 };
  sub_servers =
      (codes "main", sub_server 2 0)
      ∷ (codes "files", sub_server 1 0)
      ∷ (codes "music", sub_server 7 20000)
      ∷ [];
  with_default = true;
}

config_runs : Unit {0}
unfolding init allocate priority_sum give_all check_memory_incompatibility check_subservers lookup
    text_eq priorities
config_runs = tt

shared_out :
    (allocate three).sub_servers
    ≡ (codes "main", sub_server 2 66666)
      ∷ (codes "files", sub_server 1 33333)
      ∷ (codes "music", sub_server 7 20000)
      ∷ []
unfolding config_runs
shared_out = refl

low_is_refused :
    init (
      some (record three {
        sub_servers = (codes "main", sub_server 2 0) ∷ (codes "files", sub_server 1 9215) ∷ [];
      }))
    ≡ err (very_low (codes "files"))
unfolding config_runs
low_is_refused = refl

given-allocate_example : given three.sub_servers (allocate three).sub_servers ≤ 100000
unfolding config_runs
given-allocate_example = given-allocate three (omega arith) (omega arith)

init_iff_example : (init (some three) ≡ ok (allocate three)) ↔ (
    ((main : SubServer) × (lookup (codes "main") three.sub_servers ≡ some main))
    × (allocate three ≡ allocate three)
    × AllValues (IsFit (allocate three).memory) (allocate three).sub_servers)
init_iff_example = init_iff three (allocate three)
