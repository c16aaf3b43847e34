-- ===== src/Common/Methods.antt =====
-- How a Go call ends, and calls that change a state on every ending.
use mathlib.Core.Bool.{Bool, true, false}

-- `blocked` is a channel operation that finds no partner and no room: the call does not return.
pub data Outcome {ℓ κ} (E : Type ℓ) (A : Type κ) : Type (ℓ ⊔ κ) where
  ok : A → Outcome E A
  err : E → Outcome E A
  panic : Outcome E A
  blocked : Outcome E A

-- A method of an object with state `S`: what it changed stays changed when it fails.
abbrev pub Method {ℓ κ μ} : Type ℓ → Type κ → Type μ → Type (ℓ ⊔ κ ⊔ μ)
Method S E A = S → S × Outcome E A

module _ {ℓ κ μ ν} {S : Type ℓ} {E : Type κ} {A : Type μ} {B : Type ν} where
  abbrev pub then_on : (A → Method S E B) → S × Outcome E A → S × Outcome E B
  then_on f (s, ok a) = f a s
  then_on f (s, err e) = (s, err e)
  then_on f (s, panic) = (s, panic)
  then_on f (s, blocked) = (s, blocked)

  infixl 5 ◌>>=◌ ◌>>◌
  abbrev pub ◌>>=◌ : Method S E A → (A → Method S E B) → Method S E B
  ◌>>=◌ m f s = then_on f (m s)

  abbrev pub ◌>>◌ : Method S E A → Method S E B → Method S E B
  ◌>>◌ m k s = then_on (λ _. k) (m s)

module _ {ℓ κ μ} {S : Type ℓ} {E : Type κ} {A : Type μ} where
  abbrev pub done : A → Method S E A
  done a s = (s, ok a)

  abbrev pub fail : E → Method S E A
  fail e s = (s, err e)

-- `if !test { return nil, e }`
abbrev pub guard {ℓ κ} : {S : Type ℓ} {E : Type κ} → Bool → E → Method S E (Unit {0})
guard true e s = (s, ok tt)
guard false e s = (s, err e)
