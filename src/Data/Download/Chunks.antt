-- ===== src/Data/Download/Chunks.antt =====
-- The chunks of a file in their order are the file.
use mhserver.Common.{
  ℕ, zero, suc, ◌+◌, ◌*◌, ◌≤◌, ◌≡◌, refl, ap, sym, ◌∙◌, List, [], ◌∷◌, ◌++◌, length, take, drop,
  arith,
}
use mhserver.Os.Patches.{drop_all}
use mhserver.Data.Upload.{chunk_at}

-- Chunks `k`, `k + 1` and so on, so many of them.
abbrev pub chunks_from : ℕ → List ℕ → ℕ → ℕ → List ℕ
chunks_from size file k zero = []
chunks_from size file k (suc n) = chunk_at size file k ++ chunks_from size file (suc k) n

take-drop-append : (n : ℕ) (xs : List ℕ) → take n xs ++ drop n xs ≡ xs
take-drop-append zero xs = refl
take-drop-append (suc n) [] = refl
take-drop-append (suc n) (x ∷ xs) = ap (λ rest. x ∷ rest) (take-drop-append n xs)

drop-drop : (m n : ℕ) (xs : List ℕ) → drop m (drop n xs) ≡ drop (n + m) xs
drop-drop m zero xs = let e : 0 + m ≡ m = omega arith in rw e refl
drop-drop m (suc n) [] = drop_all m [] (omega arith) ∙ sym (drop_all (suc n + m) [] (omega arith))
drop-drop m (suc n) (x ∷ xs) =
    let e : suc n + m ≡ suc (n + m) = omega arith in rw e (drop-drop m n xs)

chunks_from_lem :
    (size : ℕ) (file : List ℕ) (k n : ℕ)
    → length file ≤ size * (k + n)
    → chunks_from size file k n ≡ drop (size * k) file
chunks_from_lem size file k zero h =
    let e : k + 0 ≡ k = omega arith in sym (drop_all (size * k) file (rw e at h))
chunks_from_lem size file k (suc n) h =
    let e : k + suc n ≡ suc k + n = omega arith in
    let rest = chunks_from_lem size file (suc k) n (rw e at h) in
    let next : size * suc k ≡ size * k + size = omega arith in
    ap (λ t. chunk_at size file k ++ t)
      (rest ∙ ap (λ m. drop m file) next ∙ sym (drop-drop size (size * k) file))
    ∙ take-drop-append size (drop (size * k) file)

-- As many chunks as hold the file are the file.
pub chunks_from_all :
    (size : ℕ) (file : List ℕ) (count : ℕ)
    → length file ≤ size * count
    → chunks_from size file 0 count ≡ file
chunks_from_all size file count h =
    let e : 0 + count ≡ count = omega arith in
    let z : size * 0 ≡ 0 = omega arith in
    chunks_from_lem size file 0 count (rw e h) ∙ ap (λ m. drop m file) z
