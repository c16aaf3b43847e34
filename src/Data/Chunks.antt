-- ===== src/Data/Chunks.antt =====
-- The size and the number of the chunks of a file: the last part of CreateConnection in
-- internal/grpc/data/server.go. Floating-point arithmetic is an interface.
pub mod Laws
use Prim.Native.Nat.{min, max}
use mhserver.Common.{ℕ, ◌+◌, ◌-◌, ◌*◌, ◌/◌, ◌≤◌, ◌<◌, ◌≡◌, ltb, leb, if◌then◌else◌}
use mhserver.Common.Words.{u32_mod}
use mhserver.Config.{MemoryConfig}

-- float64 and package math, with Go's conversions.
pub record Floats : Type 1 where
  pub Float : Type 0
  pub of_u64 : ℕ → Float
  pub to_u64 : Float → ℕ
  pub to_u32 : Float → ℕ
  pub add : Float → Float → Float
  pub mul : Float → Float → Float
  pub div : Float → Float → Float
  pub log2 : Float → Float
  pub ceil : Float → Float

abbrev pub exact_limit : ℕ
exact_limit = 9007199254740992

-- Integers below 2 ^ 53 are exact, and the correctly rounded quotient of two of them lies on the same
-- side of every integer as the quotient itself. So its ceiling is that of the quotient, and the
-- conversion to uint32 keeps it if it fits.
pub record HasExactQuotients (f : Floats) : Type 0 where
  pub ceil_div :
      (a b : ℕ)
      → 0 < b
      → a < exact_limit
      → b < exact_limit
      → (a + b - 1) / b < u32_mod
      → f.to_u32 (f.ceil (f.div (f.of_u64 a) (f.of_u64 b))) ≡ (a + b - 1) / b

abbrev pub base_chunk_size : ℕ
base_chunk_size = 32 * 1024

abbrev pub page : ℕ
page = 4096

unfoldable pub round_to_page : ℕ → ℕ
round_to_page chunk_size = if ltb page chunk_size then (chunk_size / page) * page else chunk_size

module _ (f : Floats) where
  -- uint64(float64(BASE_CHUNK_SIZE) * math.Log2(float64(file_size)/float64(BASE_CHUNK_SIZE)+1))
  unfoldable pub file_based : ℕ → ℕ
  file_based file_size = f.to_u64 (
      f.mul (f.of_u64 base_chunk_size)
        (f.log2 (f.add (f.div (f.of_u64 file_size) (f.of_u64 base_chunk_size)) (f.of_u64 1))))

  unfoldable pub chunk_size_of : MemoryConfig → ℕ → ℕ
  unfolding round_to_page
  chunk_size_of memory file_size = round_to_page (
      if leb file_size memory.min_chunk_size
      then file_size
      else max memory.min_chunk_size (min (file_based file_size) memory.max_chunk_size))

  unfoldable pub chunks_count_of : ℕ → ℕ → ℕ
  chunks_count_of file_size chunk_size =
      f.to_u32 (f.ceil (f.div (f.of_u64 file_size) (f.of_u64 chunk_size)))
