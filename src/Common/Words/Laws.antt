-- ===== src/Common/Words/Laws.antt =====
-- An int64 product has the bit pattern of the uint64 product.
use native.Mathlib.Decide.{dec_lt}
use mathlib.Core.Path.{ap₂}
use mhserver.Common.{ℕ, suc, ◌+◌, ◌-◌, ◌*◌, ◌%◌, ◌≤◌, ◌<◌, ◌≡◌, ap, ◌∙◌, arith}
use mhserver.Common.Int.{pos, negsuc, sub_ℕ, ◌*ℤ◌}
use mhserver.Common.Words.{u64_mod, i64_mod, mul64, to_i64, to_u64, mul_i64}

to_u64-sub : (a : ℕ) → to_u64 (sub_ℕ 0 a) ≡ (u64_mod - a % u64_mod) % u64_mod
to_u64-sub a = ground arith

to_i64_small : (a : ℕ) → a < i64_mod → to_i64 a ≡ pos a
to_i64_small a h = ground arith

to_i64_large : (a : ℕ) → i64_mod ≤ a → to_i64 a ≡ negsuc (u64_mod - a - 1)
to_i64_large a h = ground arith

pos-mul : (a b : ℕ) → pos a *ℤ pos b ≡ pos (a * b)
unfolding ◌*ℤ◌
pos-mul a b = ground arith

negsuc-mul : (a b : ℕ) → negsuc a *ℤ pos b ≡ sub_ℕ 0 (suc a * b)
unfolding ◌*ℤ◌
negsuc-mul a b = ap₂ sub_ℕ (omega arith) (omega arith)

complement-mul :
    (a b c : ℕ) → c + a ≡ u64_mod → (u64_mod - (c * b) % u64_mod) % u64_mod ≡ (a * b) % u64_mod
complement-mul a b c e = omega (arith, ap (λ (t : ℕ). t * b) e)

to_u64-mul :
    (a b : ℕ) → a < u64_mod → b < i64_mod → to_u64 (to_i64 a *ℤ to_i64 b) ≡ (a * b) % u64_mod
to_u64-mul a b h k = elim (dec_lt a i64_mod) [
  | yes p ↦ rw (to_i64_small a p, to_i64_small b k, pos-mul a b)
  | no p ↦
      rw (to_i64_large a (omega arith), to_i64_small b k, negsuc-mul (u64_mod - a - 1) b)
        (to_u64-sub (suc (u64_mod - a - 1) * b)
          ∙ complement-mul a b (suc (u64_mod - a - 1)) (omega arith))
]

pub mul_i64-eq-mul64 :
    (a b : ℕ) → a < u64_mod → b < i64_mod → mul_i64 (to_i64 a) (to_i64 b) ≡ to_i64 (mul64 a b)
unfolding mul_i64
mul_i64-eq-mul64 a b h k = ap to_i64 (to_u64-mul a b h k)
