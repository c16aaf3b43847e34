-- ===== src/Config.antt =====
-- internal/config/config.go: the settings that the components share.
pub mod Application
use mhserver.Common.{ℕ}
use mhserver.Common.Int.{ℤ}

pub record LimiterConfig : Type 0 where
  pub limit : ℤ
  pub interval : ℕ

pub record MemoryConfig : Type 0 where
  pub allocated : ℕ
  pub max_chunk_size : ℕ
  pub min_chunk_size : ℕ

unfoldable pub with_allocated : ℕ → MemoryConfig → MemoryConfig
with_allocated value m = record m { allocated = value }
