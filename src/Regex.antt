-- ===== src/Regex.antt =====
-- Regular expressions over code points, as far as the program's two patterns use Go's regexp:
-- classes, sequences, alternatives and repetition, anchored at both ends (`^…$`).
pub mod Laws
use mhserver.Common.{
  ℕ, Bool, true, false, ◌&&◌, ◌||◌, List, [], ◌∷◌, ◌++◌, ◌≡◌, ◌⊎◌, Text, if◌then◌else◌,
}

pub data Regex : Type 0 where
  empty : Regex
  eps : Regex
  class : (ℕ → Bool) → Regex
  seq : Regex → Regex → Regex
  alt : Regex → Regex → Regex
  star : Regex → Regex

-- `r+` and `r?`
abbrev pub plus : Regex → Regex
plus r = seq r (star r)

abbrev pub opt : Regex → Regex
opt r = alt eps r

unfoldable pub nullable : Regex → Bool
nullable empty = false
nullable eps = true
nullable (class p) = false
nullable (seq r q) = nullable r && nullable q
nullable (alt r q) = nullable r || nullable q
nullable (star r) = true

-- What is left to match behind the code point `c`.
unfoldable pub deriv : ℕ → Regex → Regex
unfolding nullable
deriv c empty = empty
deriv c eps = empty
deriv c (class p) = if p c then eps else empty
deriv c (seq r q) =
    let first = seq (deriv c r) q in if nullable r then alt first (deriv c q) else first
deriv c (alt r q) = alt (deriv c r) (deriv c q)
deriv c (star r) = seq (deriv c r) (star r)

-- `regexp.MatchString` of an anchored pattern.
unfoldable pub match_string : Regex → Text → Bool
unfolding deriv nullable
match_string r [] = nullable r
match_string r (c ∷ s) = match_string (deriv c r) s

-- A text that falls into pieces of which `P` holds.
pub data Pieces (P : Text → Type 0) : Text → Type 0 where
  stop : Pieces P []
  more : {u : Text} (s t : Text) → u ≡ s ++ t → P s → Pieces P t → Pieces P u

-- The texts that an expression stands for.
abbrev pub Lang : Regex → Text → Type 0
Lang empty u = ⊥
Lang eps u = u ≡ []
Lang (class p) u = (c : ℕ) × (u ≡ c ∷ []) × (p c ≡ true)
Lang (seq r q) u = (s : Text) × (t : Text) × (u ≡ s ++ t) × Lang r s × Lang q t
Lang (alt r q) u = Lang r u ⊎ Lang q u
Lang (star r) u = Pieces (Lang r) u
