-- ===== src/Regex/Laws.antt =====
-- The matcher decides the language of an expression.
use mhserver.Common.{
  ℕ, true, [], ◌∷◌, ◌++◌, ◌≡◌, refl, sym, ap, subst, ◌∙◌, ◌⊎◌, inl, inr, ◌↔◌, Text, arith,
  Bool-cases,
}
use mhserver.Regex.{
  Regex, empty, eps, class, seq, alt, star, nullable, deriv, match_string, Pieces, stop, more, Lang,
}

-- An equation between two lists that are built from parts, taken apart.
cons_split :
    (c : ℕ) (u s t : Text)
    → c ∷ u ≡ s ++ t
    → ((s ≡ []) × (t ≡ c ∷ u)) ⊎ ((s' : Text) × (s ≡ c ∷ s') × (u ≡ s' ++ t))
cons_split c u [] t e = inl (refl, sym e)
cons_split c u (d ∷ s) t e = inr (s, ground arith, ground arith)

append_nil_split : (s t : Text) → [] ≡ s ++ t → (s ≡ []) × (t ≡ [])
append_nil_split [] t e = (refl, sym e)
append_nil_split (c ∷ s) t e = cc

nullable_sound : (r : Regex) → nullable r ≡ true → Lang r []
unfolding nullable
nullable_sound empty h = cc
nullable_sound eps h = refl
nullable_sound (class p) h = cc
nullable_sound (seq r q) h =
    ([], [], refl, nullable_sound r (ground arith), nullable_sound q (ground arith))
nullable_sound (alt r q) h = elim (Bool-cases (nullable r)) [
  | inl left ↦ inl (nullable_sound r left)
  | inr right ↦ inr (nullable_sound q (ground arith))
]
nullable_sound (star r) h = stop

nullable_complete : (r : Regex) {u : Text} → u ≡ [] → Lang r u → nullable r ≡ true
unfolding nullable
nullable_complete empty e m = absurd m
nullable_complete eps e m = refl
nullable_complete (class p) e (c, e', h) = cc
nullable_complete (seq r q) e (s, t, e', m, n) =
    let (es, et) = append_nil_split s t (sym e ∙ e') in
    rw (nullable_complete r es m, nullable_complete q et n)
nullable_complete (alt r q) e (inl m) = rw (nullable_complete r e m)
nullable_complete (alt r q) e (inr m) = ground (arith, nullable_complete q e m)
nullable_complete (star r) e m = refl

deriv_sound : (c : ℕ) (r : Regex) (u : Text) → Lang (deriv c r) u → Lang r (c ∷ u)
unfolding deriv
deriv_sound c empty u m = absurd m
deriv_sound c eps u m = absurd m
deriv_sound c (class p) u m = elim (Bool-cases (p c)) [
  | inl h ↦ let e : u ≡ [] = rw h at m in (c, ap (◌∷◌ c) e, h)
  | inr h ↦ absurd (rw h at m)
]
deriv_sound c (seq r q) u m =
    let first : Lang (seq (deriv c r) q) u → Lang (seq r q) (c ∷ u) =
      λ (s, t, e, m', n). (c ∷ s, t, ap (◌∷◌ c) e, deriv_sound c r s m', n) in
    elim (Bool-cases (nullable r)) [
      | inl h ↦
          let m' : Lang (seq (deriv c r) q) u ⊎ Lang (deriv c q) u = rw h at m in
          elim m' [
            | inl in_first ↦ first in_first
            | inr in_second ↦ ([], c ∷ u, refl, nullable_sound r h, deriv_sound c q u in_second)
          ]
      | inr h ↦ first (rw h at m)
    ]
deriv_sound c (alt r q) u (inl m) = inl (deriv_sound c r u m)
deriv_sound c (alt r q) u (inr m) = inr (deriv_sound c q u m)
deriv_sound c (star r) u (s, t, e, m, n) = more (c ∷ s) t (ap (◌∷◌ c) e) (deriv_sound c r s m) n

-- The first piece that is not empty.
first_piece :
    (P : Text → Type 0) (c : ℕ) (u : Text) {v : Text}
    → v ≡ c ∷ u
    → Pieces P v
    → (s : Text) × (t : Text) × (u ≡ s ++ t) × P (c ∷ s) × Pieces P t
first_piece P c u e stop = cc
first_piece P c u e (more s t e' p rest) = elim (cons_split c u s t (sym e ∙ e')) [
  | inl (_, et) ↦ first_piece P c u et rest
  | inr (s', es, eu) ↦ (s', t, eu, subst P es p, rest)
]

deriv_complete : (c : ℕ) (r : Regex) (u : Text) → Lang r (c ∷ u) → Lang (deriv c r) u
unfolding deriv
deriv_complete c empty u m = absurd m
deriv_complete c eps u m = cc
deriv_complete c (class p) u (d, e, h) = ground arith
deriv_complete c (seq r q) u (s, t, e, m, n) = elim (Bool-cases (nullable r)) [
  | inl h ↦ rw h (elim (cons_split c u s t e) [
    | inl (_, et) ↦ inr (deriv_complete c q u (subst (Lang q) et n))
    | inr (s', es, eu) ↦ inl (s', t, eu, deriv_complete c r s' (subst (Lang r) es m), n)
  ])
  | inr h ↦ rw h (elim (cons_split c u s t e) [
    | inl (es, _) ↦ absurd (cc (h, nullable_complete r es m))
    | inr (s', es, eu) ↦ (s', t, eu, deriv_complete c r s' (subst (Lang r) es m), n)
  ])
]
deriv_complete c (alt r q) u (inl m) = inl (deriv_complete c r u m)
deriv_complete c (alt r q) u (inr m) = inr (deriv_complete c q u m)
deriv_complete c (star r) u m =
    let (s, t, e, m', n) = first_piece (Lang r) c u refl m in (s, t, e, deriv_complete c r s m', n)

match_string_sound : (r : Regex) (u : Text) → match_string r u ≡ true → Lang r u
unfolding match_string
match_string_sound r [] h = nullable_sound r h
match_string_sound r (c ∷ u) h = deriv_sound c r u (match_string_sound (deriv c r) u h)

match_string_complete : (r : Regex) (u : Text) → Lang r u → match_string r u ≡ true
unfolding match_string
match_string_complete r [] m = nullable_complete r refl m
match_string_complete r (c ∷ u) m = match_string_complete (deriv c r) u (deriv_complete c r u m)

-- The matcher answers true exactly for the texts of the expression's language.
pub match_string_iff : (r : Regex) (u : Text) → (match_string r u ≡ true) ↔ Lang r u
match_string_iff r u = (match_string_sound r u, match_string_complete r u)
