-- ===== src/Data/Upload/Chunks.antt =====
-- The chunks of a file, written in any order, put it together.
use Prim.Native.Nat.{min}
use mhserver.Common.{
  ℕ, ◌+◌, ◌-◌, ◌*◌, ◌/◌, ◌≤◌, ◌<◌, ◌≡◌, refl, ap, ◌∙◌, List, [], ◌∷◌, Bool, true, false, ◌&&◌, ◌||◌,
  ltb, leb, ◌==◌, if◌then◌else◌, length, drop, length-take, length-drop, arith, ℕ_discrete,
}
use native.Mathlib.Decide.{dec_lt}
use native.Mathlib.Nat.{div-add-mod', mod-lt}
use mhserver.Os.{patch}
use mhserver.Os.Bytes.{byte_at, byte_at-take, byte_at-drop, byte_at-patch, length-patch, bytes_ext}
use mhserver.Data.Upload.{Turn, chunk_at, patched}

-- Some turn sends the chunk with this number.
abbrev pub is_sent : ℕ → List Turn → Bool
is_sent k [] = false
is_sent k (t ∷ ts) = (t.number == k) || is_sent k ts

-- Every chunk that is sent is one of the file's.
abbrev pub AllInside : ℕ → List ℕ → List Turn → Type 0
AllInside size file [] = Unit
AllInside size file (t ∷ ts) = (size * t.number < length file) × AllInside size file ts

-- Some turn sends the byte with this index.
covers : ℕ → ℕ → List Turn → Bool
covers size i [] = false
covers size i (t ∷ ts) =
    (leb (size * t.number) i && ltb i (size * t.number + size)) || covers size i ts

pub length-chunk_at :
    (size : ℕ) (file : List ℕ) (k : ℕ)
    → length (chunk_at size file k) ≡ min size (length file - size * k)
length-chunk_at size file k =
    omega (arith, length-take size (drop (size * k) file), length-drop (size * k) file)

byte_at-chunk_at :
    (size : ℕ) (file : List ℕ) (k i : ℕ)
    → size * k ≤ i
    → i < size * k + size
    → byte_at (chunk_at size file k) (i - size * k) ≡ byte_at file i
byte_at-chunk_at size file k i le lt =
    let e : size * k + (i - size * k) ≡ i = omega arith in
    ground (
      arith,
      byte_at-take size (drop (size * k) file) (i - size * k),
      byte_at-drop (size * k) file (i - size * k),
      ap (byte_at file) e,
    )

-- Each byte of the file that is sent is in its place at the end, the others are as they were.
byte_at-patched :
    (size : ℕ) (file : List ℕ) (ts : List Turn) (old : List ℕ) (i : ℕ)
    → i < length file
    → byte_at (patched size file ts old) i
      ≡ (if covers size i ts then byte_at file i else byte_at old i)
unfolding patched covers
byte_at-patched size file [] old i lt = refl
byte_at-patched size file (t ∷ ts) old i lt =
    let offset = size * t.number in
    let new = patch old offset (chunk_at size file t.number) in
    ground (
      arith,
      byte_at-patched size file ts new i,
      byte_at-patch old offset (chunk_at size file t.number) i,
      byte_at-chunk_at size file t.number i,
      length-chunk_at size file t.number,
    )

grows :
    (size : ℕ) (file : List ℕ) (ts : List Turn) (old : List ℕ)
    → length old ≤ length (patched size file ts old)
unfolding patched
grows size file [] old = omega arith
grows size file (t ∷ ts) old =
    let new = patch old (size * t.number) (chunk_at size file t.number) in
    let longer = length-patch old (size * t.number) (chunk_at size file t.number) in
    omega (arith, grows size file ts new, longer)

stays_inside :
    (size : ℕ) (file : List ℕ) (ts : List Turn) (old : List ℕ)
    → length old ≤ length file
    → AllInside size file ts
    → length (patched size file ts old) ≤ length file
unfolding patched
stays_inside size file [] old short inside = short
stays_inside size file (t ∷ ts) old short inside =
    let new = patch old (size * t.number) (chunk_at size file t.number) in
    let longer = length-patch old (size * t.number) (chunk_at size file t.number) in
    let chunk = length-chunk_at size file t.number in
    stays_inside size file ts new (omega (arith, longer, chunk, inside.0)) inside.1

reaches :
    (size : ℕ) (file : List ℕ) (ts : List Turn) (old : List ℕ) (k : ℕ)
    → size * k < length file
    → is_sent k ts ≡ true
    → min (length file) (size * k + size) ≤ length (patched size file ts old)
unfolding patched
reaches size file [] old k inside sent = ground arith
reaches size file (t ∷ ts) old k inside sent =
    let new = patch old (size * t.number) (chunk_at size file t.number) in
    let longer = length-patch old (size * t.number) (chunk_at size file t.number) in
    let chunk = length-chunk_at size file t.number in
    elim (ℕ_discrete t.number k) [
      | yes e ↦
          let same : size * t.number ≡ size * k = ap (λ n. size * n) e in
          omega (arith, grows size file ts new, longer, chunk, same)
      | no other ↦ reaches size file ts new k inside (ground (arith, other))
    ]

covers_sent :
    (size i k : ℕ) (ts : List Turn)
    → size * k ≤ i
    → i < size * k + size
    → is_sent k ts ≡ true
    → covers size i ts ≡ true
unfolding covers
covers_sent size i k [] le lt sent = ground arith
covers_sent size i k (t ∷ ts) le lt sent = elim (ℕ_discrete t.number k) [
  | yes e ↦ let same : size * t.number ≡ size * k = ap (λ n. size * n) e in ground (arith, same)
  | no other ↦ ground (arith, covers_sent size i k ts le lt (ground (arith, other)))
]

-- Sending every chunk of a file, in any order and any number of times, puts the file together,
-- if no more was there before.
pub patched_all :
    (size : ℕ) (file : List ℕ) (ts : List Turn) (old : List ℕ)
    → 0 < size
    → length old ≤ length file
    → AllInside size file ts
    → ((k : ℕ) → size * k < length file → is_sent k ts ≡ true)
    → patched size file ts old ≡ file
patched_all size file ts old positive short inside all =
    let low : (i : ℕ) → size * (i / size) ≤ i =
      λ i. omega (arith, div-add-mod' i size, mod-lt i positive) in
    let high : (i : ℕ) → i < size * (i / size) + size =
      λ i. omega (arith, div-add-mod' i size, mod-lt i positive) in
    let sent : (i : ℕ) → i < length file → is_sent (i / size) ts ≡ true =
      λ i lt. all (i / size) (omega (arith, low i)) in
    let same_length : length (patched size file ts old) ≡ length file =
      elim (dec_lt 0 (length file)) [
        | no empty ↦ omega (arith, stays_inside size file ts old short inside)
        | yes some_byte ↦
            let n : ℕ = length file - 1 in
            let n_lt : n < length file = omega arith in
            let begun : size * (n / size) < length file = omega (arith, low n) in
            omega (
              arith,
              stays_inside size file ts old short inside,
              high n,
              reaches size file ts old (n / size) begun (sent n n_lt),
            )
      ] in
    bytes_ext (patched size file ts old) file same_length λ i lt.
      byte_at-patched size file ts old i lt
      ∙ ap (λ b. if b then byte_at file i else byte_at old i)
          (covers_sent size i (i / size) ts (low i) (high i) (sent i lt))
