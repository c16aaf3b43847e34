-- ===== src/Config/Application.antt =====
-- internal/config/application: the memory of the subservers is shared out and checked when the
-- configuration is loaded. What os.ReadFile, the download and toml.Unmarshal give is an argument;
-- a Go int is its 64 bits, since it is only added and converted here.
pub mod Loading
pub mod Shares
pub mod Limits
mod Tests
use mhserver.Common.{
  ℕ, ◌+◌, ◌/◌, Bool, true, false, not, ◌&&◌, List, [], ◌∷◌, Text, codes, ltb, ◌==◌, if◌then◌else◌,
  Option, none, some, Outcome, ok, err, panic,
}
use mhserver.Common.Dict.{Dict, lookup, text_eq}
use mhserver.Common.Words.{add64, mul64}
use mhserver.Config.{MemoryConfig}

pub record SubServerExtra : Type 0 where
  pub priority : ℕ
  pub allocated_memory : ℕ

pub record SubServer : Type 0 where
  pub enabled : Bool
  pub address : Text
  pub port : ℕ
  pub extra : SubServerExtra

abbrev pub SubServers : Type 0
SubServers = Dict Text SubServer

pub record ApplicationConfig : Type 0 where
  pub workspace_path : Text
  pub jwt_signature : Text
  pub db_pass : Text
  pub memory : MemoryConfig
  pub sub_servers : SubServers
  pub with_default : Bool

-- `fmt.Errorf` of checkMemoryIncompatibility, and an error of reading and decoding the files.
pub data ConfigError : Type 0 where
  very_low bigger_than_server : Text → ConfigError
  not_loaded : ConfigError

abbrev pub is_automatic : SubServer → Bool
is_automatic srv = srv.enabled && (srv.extra.allocated_memory == 0)

-- The first loop: `priority_sum += srv.Extra.Priority`
unfoldable pub priority_sum : ℕ → SubServers → ℕ
priority_sum sum [] = sum
priority_sum sum ((_, srv) ∷ m) =
    priority_sum (if is_automatic srv then add64 sum srv.extra.priority else sum) m

abbrev pub give : ℕ → SubServer → SubServer
give mem_chunk srv =
    if is_automatic srv
    then record srv {
      extra = record (srv.extra) { allocated_memory = mul64 mem_chunk srv.extra.priority };
    }
    else srv

-- The second loop.
unfoldable pub give_all : ℕ → SubServers → SubServers
give_all mem_chunk [] = []
give_all mem_chunk ((n, srv) ∷ m) = (n, give mem_chunk srv) ∷ give_all mem_chunk m

unfoldable pub allocate : ApplicationConfig → ApplicationConfig
unfolding priority_sum give_all
allocate cfg =
    let sum = priority_sum 0 cfg.sub_servers in
    if sum == 0
    then cfg
    else record cfg { sub_servers = give_all (cfg.memory.allocated / sum) cfg.sub_servers }

abbrev pub min_allocated_memory : MemoryConfig → ℕ
min_allocated_memory memory = add64 memory.max_chunk_size 1024

-- The loop of checkMemoryIncompatibility.
unfoldable pub check_subservers : MemoryConfig → SubServers → Option ConfigError
check_subservers memory [] = none
check_subservers memory ((n, s) ∷ m) =
    let rest = check_subservers memory m in
    if not s.enabled
    then rest
    else (if ltb s.extra.allocated_memory (min_allocated_memory memory)
        then some (very_low n)
        else (if ltb memory.allocated s.extra.allocated_memory
            then some (bigger_than_server n)
            else rest))

unfoldable pub check_memory_incompatibility : ApplicationConfig → Option ConfigError
unfolding check_subservers
check_memory_incompatibility cfg = check_subservers cfg.memory cfg.sub_servers

abbrev checked : ApplicationConfig → Option ConfigError → Outcome ConfigError ApplicationConfig
checked cfg none = ok cfg
checked cfg (some e) = err e

-- The log line reads `cfg.SubServers["main"].Address`, which needs that entry.
abbrev with_main : Option SubServer → ApplicationConfig → Outcome ConfigError ApplicationConfig
with_main none cfg = panic
with_main (some srv) cfg =
    let cfg' = allocate cfg in checked cfg' (check_memory_incompatibility cfg')

-- `Init` from the decoded files on; `none` is an error before.
unfoldable pub init : Option ApplicationConfig → Outcome ConfigError ApplicationConfig
init none = err not_loaded
init (some cfg) = with_main (lookup (codes "main") cfg.sub_servers) cfg
