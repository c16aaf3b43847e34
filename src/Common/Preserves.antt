-- ===== src/Common/Preserves.antt =====
-- What a method keeps, rule by rule: these prove a `do` block from its parts.
use mhserver.Common.Methods.{Outcome, ok, err, panic, blocked, Method, then_on, ◌>>=◌}

module _ {ℓ κ ν} {S : Type ℓ} {E : Type κ} (P : S → Type ν) where
  abbrev pub Preserves {μ} : {A : Type μ} → Method S E A → Type (ℓ ⊔ ν)
  Preserves m = (s : S) → P s → P (m s).0

  pub bind-Preserves {μ μ'} :
      {A : Type μ} {B : Type μ'} (m : Method S E A) (f : A → Method S E B)
      → Preserves m
      → ((a : A) → Preserves (f a))
      → Preserves (m >>= f)
  bind-Preserves {A} {B} m f pm pf s p = go (m s) (pm s p)
    where
      go : (r : S × Outcome E A) → P r.0 → P (then_on f r).0
      go (s', ok a) q = pf a s' q
      go (s', err e) q = q
      go (s', panic) q = q
      go (s', blocked) q = q
