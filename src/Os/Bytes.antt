-- ===== src/Os/Bytes.antt =====
-- The bytes of a patched file, one by one. Behind its end a file is read as zeros here.
use Prim.Native.Nat.{max}
use mhserver.Common.{
  ℕ, zero, suc, ◌+◌, ◌-◌, ◌≤◌, ◌<◌, ◌≡◌, refl, List, [], ◌∷◌, ◌++◌, arith, ltb, leb, ◌&&◌,
  if◌then◌else◌, length, take, drop, replicate, length-append, length-take, length-drop,
  length-replicate,
}
use mhserver.Os.{patch}

abbrev pub byte_at : List ℕ → ℕ → ℕ
byte_at [] i = 0
byte_at (x ∷ xs) zero = x
byte_at (x ∷ xs) (suc i) = byte_at xs i

byte_at-append :
    (xs ys : List ℕ) (i : ℕ)
    → byte_at (xs ++ ys) i
      ≡ (if ltb i (length xs) then byte_at xs i else byte_at ys (i - length xs))
byte_at-append [] ys i = ground arith
byte_at-append (x ∷ xs) ys zero = ground arith
byte_at-append (x ∷ xs) ys (suc i) = ground (arith, byte_at-append xs ys i)

pub byte_at-take :
    (n : ℕ) (xs : List ℕ) (i : ℕ) → byte_at (take n xs) i ≡ (if ltb i n then byte_at xs i else 0)
byte_at-take zero xs i = ground arith
byte_at-take (suc n) [] i = ground arith
byte_at-take (suc n) (x ∷ xs) zero = ground arith
byte_at-take (suc n) (x ∷ xs) (suc i) = ground (arith, byte_at-take n xs i)

pub byte_at-drop : (n : ℕ) (xs : List ℕ) (i : ℕ) → byte_at (drop n xs) i ≡ byte_at xs (n + i)
byte_at-drop zero xs i = let e : 0 + i ≡ i = omega arith in rw e
byte_at-drop (suc n) [] i = ground arith
byte_at-drop (suc n) (x ∷ xs) i =
    let e : suc n + i ≡ suc (n + i) = omega arith in rw e (byte_at-drop n xs i)

byte_at-replicate : (n i : ℕ) → byte_at (replicate n 0) i ≡ 0
byte_at-replicate zero i = refl
byte_at-replicate (suc n) zero = refl
byte_at-replicate (suc n) (suc i) = byte_at-replicate n i

byte_at_end : (xs : List ℕ) (i : ℕ) → length xs ≤ i → byte_at xs i ≡ 0
byte_at_end [] i h = refl
byte_at_end (x ∷ xs) zero h = absurd (omega arith)
byte_at_end (x ∷ xs) (suc i) h = byte_at_end xs i (omega arith)

pub length-patch :
    (old : List ℕ) (offset : ℕ) (new : List ℕ)
    → length (patch old offset new) ≡ max (length old) (offset + length new)
length-patch old offset new = omega (
  arith,
  length-append (take offset old ++ replicate (offset - length old) 0)
      (new ++ drop (offset + length new) old),
  length-append (take offset old) (replicate (offset - length old) 0),
  length-append new (drop (offset + length new) old),
  length-take offset old,
  length-replicate {A = ℕ} (offset - length old) 0,
  length-drop (offset + length new) old,
)

-- A write changes just the bytes from its offset on, as many as it writes.
pub byte_at-patch :
    (old : List ℕ) (offset : ℕ) (new : List ℕ) (i : ℕ)
    → byte_at (patch old offset new) i ≡ (
        if leb offset i && ltb i (offset + length new)
        then byte_at new (i - offset)
        else byte_at old i)
byte_at-patch old offset new i =
    let front = take offset old ++ replicate (offset - length old) 0 in
    let front_length : length front ≡ offset = omega (
      arith,
      length-append (take offset old) (replicate (offset - length old) 0),
      length-take offset old,
      length-replicate {A = ℕ} (offset - length old) 0,
    ) in
    ground (
      arith,
      front_length,
      byte_at-append front (new ++ drop (offset + length new) old) i,
      byte_at-append (take offset old) (replicate (offset - length old) 0) i,
      byte_at-append new (drop (offset + length new) old) (i - length front),
      byte_at-take offset old i,
      byte_at-replicate (offset - length old) (i - length (take offset old)),
      byte_at-drop (offset + length new) old (i - length front - length new),
      length-take offset old,
      byte_at_end old i,
    )

-- Files of one length with the same bytes are the same.
pub bytes_ext :
    (xs ys : List ℕ)
    → length xs ≡ length ys
    → ((i : ℕ) → i < length ys → byte_at xs i ≡ byte_at ys i)
    → xs ≡ ys
bytes_ext [] [] h same = refl
bytes_ext [] (y ∷ ys) h same = absurd (omega arith)
bytes_ext (x ∷ xs) [] h same = absurd (omega arith)
bytes_ext (x ∷ xs) (y ∷ ys) h same =
    ground (arith, same 0, bytes_ext xs ys (omega arith) (λ i lt. same (suc i) (omega arith)))
