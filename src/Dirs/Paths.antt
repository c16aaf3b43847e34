-- ===== src/Dirs/Paths.antt =====
-- Where the built paths lead: the components of a path, walked as the kernel walks them.
use mathlib.Core.List.{append_assoc, append-nil, tail}
use mhserver.Common.{
  ℕ, ◌&&◌, List, [], ◌∷◌, ◌++◌, ◌≡◌, refl, ap, sym, ◌∙◌, ◌≢◌, inl, inr, Text, arith, All, ◌==◌,
  Bool-cases, if◌then◌else◌,
}
use mhserver.Dirs.{slash, dot}
use mhserver.Dirs.Directories.{join}

-- The components of a path: what stands between its slashes.
abbrev onto_first : ℕ → List Text → List Text
onto_first c [] = (c ∷ []) ∷ []
onto_first c (p ∷ ps) = (c ∷ p) ∷ ps

unfoldable pub components : Text → List Text
components [] = [] ∷ []
components (c ∷ s) = if c == slash then [] ∷ components s else onto_first c (components s)

-- One step of the walk, from a stack of folders with the deepest first: an empty component and "."
-- stay, ".." goes up, any other goes down.
abbrev pub enter : List Text → Text → List Text
enter stack [] = stack
enter stack (c ∷ []) = if c == dot then stack else (c ∷ []) ∷ stack
enter stack (c ∷ d ∷ []) = if c == dot && d == dot then tail stack else (c ∷ d ∷ []) ∷ stack
enter stack (c ∷ d ∷ e ∷ s) = (c ∷ d ∷ e ∷ s) ∷ stack

unfoldable pub walk : List Text → List Text → List Text
walk stack [] = stack
walk stack (p ∷ ps) = walk (enter stack p) ps

-- Going down through the named folders.
unfoldable pub descend : List Text → List Text → List Text
descend stack [] = stack
descend stack (n ∷ ns) = descend (n ∷ stack) ns

abbrev pub NoSlash : Text → Type 0
NoSlash s = All (λ c. c ≢ slash) s

-- A component that goes down.
abbrev pub IsPlain : Text → Type 0
IsPlain s = NoSlash s × ((stack : List Text) → enter stack s ≡ s ∷ stack)

components-cons : (s : Text) → (p : Text) × (ps : List Text) × (components s ≡ p ∷ ps)
unfolding components
components-cons [] = ([], [], refl)
components-cons (c ∷ s) =
    let (p, ps, e) = components-cons s in
    elim (Bool-cases (c == slash)) [
      | inl h ↦ ([], components s, rw h)
      | inr h ↦ (c ∷ p, ps, rw (h, e))
    ]

components-append : (s t : Text) → components (s ++ (slash ∷ t)) ≡ components s ++ components t
unfolding components
components-append [] t = refl
components-append (c ∷ s) t = elim (Bool-cases (c == slash)) [
  | inl h ↦ rw h (ap (◌∷◌ []) (components-append s t))
  | inr h ↦ let (p, ps, e) = components-cons s in rw (h, components-append s t, e) refl
]

components_of_NoSlash : (s : Text) → NoSlash s → components s ≡ s ∷ []
unfolding components
components_of_NoSlash [] h = refl
components_of_NoSlash (c ∷ s) h = ground (arith, components_of_NoSlash s (h.1))

walk-append : (stack ps qs : List Text) → walk stack (ps ++ qs) ≡ walk (walk stack ps) qs
unfolding walk
walk-append stack [] qs = refl
walk-append stack (p ∷ ps) qs = walk-append (enter stack p) ps qs

pub walk-slash :
    (stack : List Text) (s t : Text)
    → walk stack (components (s ++ (slash ∷ t))) ≡ walk (walk stack (components s)) (components t)
walk-slash stack s t = rw components-append (walk-append stack (components s) (components t))

pub walk_of_IsPlain :
    (stack : List Text) (s : Text) → IsPlain s → walk stack (components s) ≡ s ∷ stack
unfolding walk
walk_of_IsPlain stack s h = rw (components_of_NoSlash s (h.0)) (h.1 stack)

pub walk-join :
    (ns : List Text) (stack : List Text) (t : Text)
    → All IsPlain ns
    → walk stack (components (join ns ++ t)) ≡ walk (descend stack ns) (components t)
unfolding descend
walk-join [] stack t h = refl
walk-join (n ∷ ns) stack t h =
    rw
      (
        append_assoc n (slash ∷ join ns) t,
        walk-slash stack n (join ns ++ t),
        walk_of_IsPlain stack n (h.0),
      )
      (walk-join ns (n ∷ stack) t (h.1))

pub walk-join_end :
    (ns : List Text) (stack : List Text)
    → All IsPlain ns
    → walk stack (components (join ns)) ≡ descend stack ns
unfolding walk components
walk-join_end ns stack h =
    ap (λ (v : Text). walk stack (components v)) (sym (append-nil (join ns)))
    ∙ walk-join ns stack [] h
