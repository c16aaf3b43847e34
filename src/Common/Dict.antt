-- ===== src/Common/Dict.antt =====
-- Go maps as association lists. A read of a missing key is `none`.
use Prim.Native.Nat.{ℕ}
use mathlib.Core.Path.{◌≡◌, refl}
use mathlib.Core.Logic.{ite}
use mathlib.Core.Bool.{Bool}
use mathlib.Core.Option.{Option, none, some}
use mathlib.Core.List.{List, [], ◌∷◌}
use native.Mathlib.Omega.{arith}
use native.Mathlib.Decide.{ℕ_discrete}
use mhserver.Common.Tests.{if◌then◌else◌}

pub record Eq {ℓ} (A : Type ℓ) : Type ℓ where
  pub dec : Discrete A

instance abbrev pub nat_eq : Eq ℕ
nat_eq = record { dec = ℕ_discrete }

text_dec : Discrete (List ℕ)
text_dec = hlevel ℕ_discrete

instance unfoldable pub text_eq : Eq (List ℕ)
unfolding text_dec ℕ_discrete
text_eq = record { dec = text_dec }

abbrev pub Dict {ℓ κ} : Type ℓ → Type κ → Type (ℓ ⊔ κ)
Dict K V = List (K × V)

abbrev pub keep_unless {ℓ} : {V : Type ℓ} → (V → Bool) → Option V → Option V
keep_unless test none = none
keep_unless test (some v) = if test v then none else some v

module _ {ℓ} {K V : Type ℓ} ⦃e : Eq K⦄ where
  unfoldable pub lookup : K → Dict K V → Option V
  lookup k [] = none
  lookup k ((j, v) ∷ d) = ite (e.dec j k) (some v) (lookup k d)

  -- `m[k] = v`
  unfoldable pub insert : K → V → Dict K V → Dict K V
  insert k v [] = (k, v) ∷ []
  insert k v ((j, w) ∷ d) = ite (e.dec j k) ((j, v) ∷ d) ((j, w) ∷ insert k v d)

  -- The loop `for k, v := range m { if test(v) { delete(m, k) } }`
  unfoldable pub delete_where : (V → Bool) → Dict K V → Dict K V
  delete_where test [] = []
  delete_where test ((j, w) ∷ d) =
      let rest = delete_where test d in if test w then rest else (j, w) ∷ rest

  -- A Go map holds a key at most once.
  abbrev pub NodupKeys : Dict K V → Type ℓ
  NodupKeys [] = Unit
  NodupKeys ((k, _) ∷ d) = (lookup k d ≡ none) × NodupKeys d

  abbrev pub AllValues : (V → Type ℓ) → Dict K V → Type ℓ
  AllValues P [] = Unit
  AllValues P ((_, v) ∷ d) = P v × AllValues P d

  pub lookup-insert :
      (j k : K) (v : V) (d : Dict K V)
      → lookup j (insert k v d) ≡ ite (e.dec k j) (some v) (lookup j d)
  unfolding lookup insert
  lookup-insert j k v [] = refl
  lookup-insert j k v ((i, w) ∷ d) = ground (arith, lookup-insert j k v d)

  pub insert-NodupKeys : (k : K) (v : V) (d : Dict K V) → NodupKeys d → NodupKeys (insert k v d)
  unfolding insert lookup
  insert-NodupKeys k v [] u = (refl, tt)
  insert-NodupKeys k v ((j, w) ∷ d) (fresh, u) =
      ground (arith, insert-NodupKeys k v d u, lookup-insert j k v d)

  pub insert-AllValues :
      (P : V → Type ℓ) (k : K) (v : V) (d : Dict K V)
      → P v
      → AllValues P d
      → AllValues P (insert k v d)
  unfolding insert
  insert-AllValues P k v [] p h = (p, tt)
  insert-AllValues P k v ((j, w) ∷ d) p h = ground (arith, insert-AllValues P k v d p h.1)

  pub lookup-AllValues :
      (P : V → Type ℓ) (k : K) (d : Dict K V) (v : V) → AllValues P d → lookup k d ≡ some v → P v
  unfolding lookup
  lookup-AllValues P k [] v h found = cc
  lookup-AllValues P k ((j, w) ∷ d) v h found = ground (arith, lookup-AllValues P k d v h.1)

  pub delete_where-AllValues :
      (P : V → Type ℓ) (test : V → Bool) (d : Dict K V)
      → AllValues P d
      → AllValues P (delete_where test d)
  unfolding delete_where
  delete_where-AllValues P test [] h = tt
  delete_where-AllValues P test ((j, w) ∷ d) h = ground (arith, delete_where-AllValues P test d h.1)

  pub lookup-delete_where-none :
      (test : V → Bool) (k : K) (d : Dict K V)
      → lookup k d ≡ none
      → lookup k (delete_where test d) ≡ none
  unfolding lookup delete_where
  lookup-delete_where-none test k [] h = refl
  lookup-delete_where-none test k ((j, w) ∷ d) h = ground (arith, lookup-delete_where-none test k d)

  pub delete_where-NodupKeys :
      (test : V → Bool) (d : Dict K V) → NodupKeys d → NodupKeys (delete_where test d)
  unfolding delete_where
  delete_where-NodupKeys test [] u = tt
  delete_where-NodupKeys test ((j, w) ∷ d) (fresh, u) =
      ground (arith, delete_where-NodupKeys test d u, lookup-delete_where-none test j d fresh)

  -- After the loop a key is bound as before, unless its value passed the test.
  pub lookup-delete_where :
      (test : V → Bool) (k : K) (d : Dict K V)
      → NodupKeys d
      → lookup k (delete_where test d) ≡ keep_unless test (lookup k d)
  unfolding lookup delete_where
  lookup-delete_where test k [] u = refl
  lookup-delete_where test k ((j, w) ∷ d) (fresh, u) =
      ground (arith, lookup-delete_where test k d u, lookup-delete_where-none test j d fresh)
