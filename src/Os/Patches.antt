-- ===== src/Os/Patches.antt =====
-- What is read back from a file after a write.
use mathlib.Core.List.{append-nil}
use mhserver.Common.{
  ℕ, zero, suc, ◌+◌, ◌-◌, ◌≤◌, ◌≡◌, refl, ap, sym, ◌∙◌, List, [], ◌∷◌, ◌++◌, ◌⊎◌, inl, inr, arith,
  length, take, drop, replicate, length-append, length-take, length-replicate, drop-append,
  take-append, take_all,
}
use mhserver.Os.{patch}

module _ {ℓ} {A : Type ℓ} where
  pub drop_all : (n : ℕ) (xs : List A) → length xs ≤ n → drop n xs ≡ []
  drop_all zero [] h = refl
  drop_all zero (x ∷ xs) h = absurd (omega arith)
  drop_all (suc n) [] h = refl
  drop_all (suc n) (x ∷ xs) h = drop_all n xs (omega arith)

-- The part of a patched file in front of the patch has the length of the offset.
length-front :
    (old : List ℕ) (offset : ℕ)
    → length (take offset old ++ replicate (offset - length old) 0) ≡ offset
length-front old offset = omega (
  arith,
  length-append (take offset old) (replicate (offset - length old) 0),
  length-take offset old,
  length-replicate {A = ℕ} (offset - length old) 0,
)

pub drop-patch :
    (old : List ℕ) (offset : ℕ) (new : List ℕ)
    → drop offset (patch old offset new) ≡ new ++ drop (offset + length new) old
drop-patch old offset new =
    let front = take offset old ++ replicate (offset - length old) 0 in
    let rest = new ++ drop (offset + length new) old in
    ap (λ (n : ℕ). drop n (front ++ rest)) (sym (length-front old offset)) ∙ drop-append front rest

-- A read of at least the written length at the same place, where it is that length or the
-- file ends there, returns what was written.
pub take-drop-patch :
    (old : List ℕ) (offset : ℕ) (new : List ℕ) (n : ℕ)
    → length new ≤ n
    → (length new ≡ n) ⊎ (length old ≤ offset + length new)
    → take n (drop offset (patch old offset new)) ≡ new
take-drop-patch old offset new n le (inl e) =
    rw (drop-patch old offset new, ← e) (take-append new (drop (offset + length new) old))
take-drop-patch old offset new n le (inr short) =
    rw (drop-patch old offset new, drop_all (offset + length new) old short, append-nil new)
      (take_all n new le)
