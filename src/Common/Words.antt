-- ===== src/Common/Words.antt =====
-- Go's uint64, uint32 and int64: unsigned values are numbers below the modulus, with the
-- wrap-around written out, and an int64 is the integer that its bit pattern stands for.
pub mod Laws
use Prim.Native.Nat.{ℕ, ◌+◌, ◌-◌, ◌*◌, ◌%◌}
use mhserver.Common.Tests.{ltb, leb, if◌then◌else◌}
use mathlib.Core.Bool.{Bool}
use mathlib.Core.Option.{Option, none, some}
use mhserver.Common.Int.{ℤ, pos, negsuc, ◌*ℤ◌}

abbrev pub u32_mod : ℕ
u32_mod = 4294967296

abbrev pub u64_mod : ℕ
u64_mod = 18446744073709551616

abbrev pub i64_mod : ℕ
i64_mod = 9223372036854775808

abbrev pub add64 : ℕ → ℕ → ℕ
add64 a b = (a + b) % u64_mod

abbrev pub sub64 : ℕ → ℕ → ℕ
sub64 a b = (a + u64_mod - b) % u64_mod

abbrev pub mul64 : ℕ → ℕ → ℕ
mul64 a b = (a * b) % u64_mod

abbrev pub sub32 : ℕ → ℕ → ℕ
sub32 a b = (a + u32_mod - b) % u32_mod

-- int64(x) of a uint64.
abbrev pub to_i64 : ℕ → ℤ
to_i64 n = if ltb n i64_mod then pos n else negsuc (u64_mod - n - 1)

-- uint64(x) of an integer: its bit pattern.
abbrev pub to_u64 : ℤ → ℕ
to_u64 (pos n) = n % u64_mod
to_u64 (negsuc n) = u64_mod - 1 - n % u64_mod

-- a * b of two int64.
unfoldable pub mul_i64 : ℤ → ℤ → ℤ
unfolding ◌*ℤ◌
mul_i64 a b = to_i64 (to_u64 (a *ℤ b))

-- maxAlloc of package runtime on linux/amd64, in bytes: a `make` of more panics.
abbrev pub max_alloc : ℕ
max_alloc = 281474976710656

-- make([]byte, n)
abbrev pub can_make_bytes : ℕ → Bool
can_make_bytes n = leb n max_alloc

-- make(chan any, n): 16 bytes for each element, and 96 for the channel. `none` is a panic.
abbrev pub make_chan : ℕ → Option ℕ
make_chan n = if leb (n * 16 + 96) max_alloc then some n else none
