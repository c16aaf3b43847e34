-- ===== src/Data/Overlap/Halves.antt =====
-- The two steps, one right after the other, are the call.
use mhserver.Common.{ℕ, ◌≡◌, arith, ◌>>=◌}
use mhserver.Data.Messages.{SaveChunk}
use mhserver.Data.Server.{Env, DataServer}
use mhserver.Data.Transfer.{save_data}
use mhserver.Data.Overlap.{begin, finish}

module _ (env : Env) where
  -- SaveData is its first step followed by its second, if nothing comes between them.
  pub begin-finish :
      (now later : ℕ) (chunk : SaveChunk) (s : DataServer env.os)
      → (begin env now chunk >>= finish env later) s ≡ save_data env now later chunk s
  unfolding begin finish save_data
  begin-finish now later chunk s = ground arith
