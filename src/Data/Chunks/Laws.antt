-- ===== src/Data/Chunks/Laws.antt =====
-- The chunks of a file are of a bounded size, and cover the file with none to spare.
use native.Mathlib.Nat.{le_trans, div-add-mod', mod-lt}
use native.Mathlib.Decide.{dec_lt}
use Prim.Native.Nat.{min, max}
use mhserver.Common.{
  ℕ, suc, zero, ◌+◌, ◌-◌, ◌*◌, ◌/◌, ◌%◌, ◌≤◌, ◌<◌, ◌≡◌, ◌⊎◌, arith, leb, if◌then◌else◌,
}
use mhserver.Common.Words.{u32_mod}
use mhserver.Config.{MemoryConfig}
use mhserver.Data.Chunks.{
  Floats, HasExactQuotients, exact_limit, page, round_to_page, file_based, chunk_size_of,
  chunks_count_of,
}

round_to_page_lem :
    (c : ℕ)
    → 0 < c
    → (0 < round_to_page c)
      × (round_to_page c ≤ c)
      × ((round_to_page c ≤ page) ⊎ (round_to_page c % page ≡ 0))
unfolding round_to_page
round_to_page_lem c h = ground arith

round_to_page_le : (c : ℕ) → round_to_page c ≤ c
unfolding round_to_page
round_to_page_le c = grind arith

-- No chunk is larger than the larger of the two configured sizes.
pub chunk_size_of_le :
    (f : Floats) (memory : MemoryConfig) (file_size : ℕ)
    → chunk_size_of f memory file_size ≤ max memory.min_chunk_size memory.max_chunk_size
unfolding chunk_size_of
chunk_size_of_le f memory file_size =
    let c =
      if leb file_size memory.min_chunk_size
      then file_size
      else max memory.min_chunk_size (min (file_based f file_size) memory.max_chunk_size) in
    let c_le : c ≤ max memory.min_chunk_size memory.max_chunk_size = ground arith in
    le_trans (round_to_page_le c) c_le

-- Where the smallest chunk size is not 0, a file that is not empty has chunks of a positive size,
-- at most the larger of the two configured sizes, and of at most one page or of whole pages.
pub chunk_size_of_bounds :
    (f : Floats) (memory : MemoryConfig) (file_size : ℕ)
    → 0 < file_size
    → 0 < memory.min_chunk_size
    → (0 < chunk_size_of f memory file_size)
      × (chunk_size_of f memory file_size ≤ max memory.min_chunk_size memory.max_chunk_size)
      × ((chunk_size_of f memory file_size ≤ page) ⊎ (chunk_size_of f memory file_size % page ≡ 0))
unfolding chunk_size_of
chunk_size_of_bounds f memory file_size h k =
    let c =
      if leb file_size memory.min_chunk_size
      then file_size
      else max memory.min_chunk_size (min (file_based f file_size) memory.max_chunk_size) in
    let pos_c : 0 < c = ground arith in
    let c_le : c ≤ max memory.min_chunk_size memory.max_chunk_size = ground arith in
    let (p, q, r) = round_to_page_lem c pos_c in (p, le_trans q c_le, r)

covers : (q r a b : ℕ) → q * b + r ≡ a + b - 1 → r < b → 0 < a → (a ≤ q * b) × ((q - 1) * b < a)
covers zero r a b e lt h = absurd (omega arith)
covers (suc q) r a b e lt h = let e' : suc q - 1 ≡ q = omega arith in rw e' (omega arith)

ceil_div_covers :
    (a b : ℕ) → 0 < a → 0 < b → (a ≤ ((a + b - 1) / b) * b) × (((a + b - 1) / b - 1) * b < a)
ceil_div_covers a b h k =
    covers ((a + b - 1) / b) ((a + b - 1) % b) a b (div-add-mod' (a + b - 1) b) (mod-lt _ k) h

pub quotient_fits : (q b a : ℕ) → (q - 1) * b < a → a ≤ (u32_mod - 1) * b → q < u32_mod
quotient_fits q b a h k = elim (dec_lt q u32_mod) [
  | yes p ↦ p
  | no p ↦
      let d : ℕ = q - u32_mod in
      let e : q - 1 ≡ (u32_mod - 1) + d = omega arith in
      let h' : ((u32_mod - 1) + d) * b < a = rw e at h in absurd (omega arith)
]

-- The chunks of a file that is not empty hold it, and all but the last of them are needed: where
-- the smallest chunk size is not 0, the sizes are below 2 ^ 53 and so exact as floats, and the
-- number of chunks fits in 32 bits.
pub chunks_count_of_covers :
    (f : Floats) (memory : MemoryConfig) (file_size : ℕ)
    → HasExactQuotients f
    → 0 < file_size
    → 0 < memory.min_chunk_size
    → file_size < exact_limit
    → max memory.min_chunk_size memory.max_chunk_size < exact_limit
    → file_size ≤ (u32_mod - 1) * chunk_size_of f memory file_size
    → let size = chunk_size_of f memory file_size in
      let count = chunks_count_of f file_size size in
      (file_size ≤ count * size) × ((count - 1) * size < file_size)
unfolding chunks_count_of
chunks_count_of_covers f memory n exact pos_n pos_min small small_max fits =
    let size = chunk_size_of f memory n in
    let (p, q, _) = chunk_size_of_bounds f memory n pos_n pos_min in
    rw
      (exact.ceil_div n size p small (omega arith)
        (quotient_fits _ size n (ceil_div_covers n size pos_n p).1 fits))
      (ceil_div_covers n size pos_n p)
