-- ===== src/Dirs/Names.antt =====
-- What the two patterns accept, in the words of the comments beside them.
use mathlib.Core.List.{append-nil, append_assoc}
use mhserver.Common.{
  ℕ, Bool, true, [], ◌∷◌, ◌++◌, ◌≡◌, refl, ap, sym, subst, ◌∙◌, ◌⊎◌, inl, inr, Text, arith, All,
  All-append, Bool-cases,
}
use mhserver.Regex.{class, seq, star, plus, Pieces, stop, more, Lang}
use mhserver.Dirs.{Unicode, dot, is_separator, is_alnum, alnum_run, name_tail, name_regexp}

module _ (P : ℕ → Type 0) where
  abbrev pub Starts : Text → Type 0
  Starts [] = ⊥
  Starts (c ∷ s) = P c

  abbrev pub Ends : Text → Type 0
  Ends [] = ⊥
  Ends (c ∷ []) = P c
  Ends (c ∷ d ∷ s) = Ends (d ∷ s)

  Ends-append : (s t : Text) → Ends t → Ends (s ++ t)
  Ends-append [] t h = h
  Ends-append (c ∷ []) [] h = absurd h
  Ends-append (c ∷ []) (d ∷ t) h = h
  Ends-append (c ∷ d ∷ s) t h = Ends-append (d ∷ s) t h

  Ends-All : (c : ℕ) (s : Text) → P c → All P s → Ends (c ∷ s)
  Ends-All c [] p h = p
  Ends-All c (d ∷ s) p h = Ends-All d s h.0 h.1

  Starts-append : (s t : Text) → Starts s → Starts (s ++ t)
  Starts-append [] t h = absurd h
  Starts-append (c ∷ s) t h = h

  Ends-append_or : (s t : Text) → Ends s → (t ≡ []) ⊎ Ends t → Ends (s ++ t)
  Ends-append_or s t h (inl e) = rw (e, append-nil s) h
  Ends-append_or s t h (inr k) = Ends-append s t k

  Ends-tail : (c : ℕ) (s : Text) → Ends (c ∷ s) → (s ≡ []) ⊎ Ends s
  Ends-tail c [] h = inl refl
  Ends-tail c (d ∷ s) h = inr h

All-map : {P Q : ℕ → Type 0} → ((c : ℕ) → P c → Q c) → (s : Text) → All P s → All Q s
All-map f [] h = tt
All-map f (c ∷ s) h = (f c h.0, All-map f s h.1)

-- A run of a class.
Pieces-class : (p : ℕ → Bool) {s : Text} → Pieces (Lang (class p)) s → All (λ c. p c ≡ true) s
Pieces-class p stop = tt
Pieces-class p (more s t e (c, es, h) rest) =
    subst (All (λ c. p c ≡ true)) (sym (e ∙ ap (λ (v : Text). v ++ t) es)) (h, Pieces-class p rest)

class-Pieces : (p : ℕ → Bool) (s : Text) → All (λ c. p c ≡ true) s → Pieces (Lang (class p)) s
class-Pieces p [] h = stop
class-Pieces p (c ∷ s) h = more (c ∷ []) s refl (c, refl, h.0) (class-Pieces p s h.1)

-- `p+`: the run as its first element and the others.
pub run_parts :
    (p : ℕ → Bool) {s : Text}
    → Lang (plus (class p)) s
    → (c : ℕ) × (t : Text) × (s ≡ c ∷ t) × (p c ≡ true) × All (λ d. p d ≡ true) t
run_parts p (s, t, e, (c, es, h), rest) =
    (c, t, e ∙ ap (λ (v : Text). v ++ t) es, h, Pieces-class p rest)

pub run_of :
    (p : ℕ → Bool) (c : ℕ) (t : Text)
    → p c ≡ true
    → All (λ d. p d ≡ true) t
    → Lang (plus (class p)) (c ∷ t)
run_of p c t h all = (c ∷ [], t, refl, (c, refl, h), class-Pieces p t all)

module _ (u : Unicode) where
  abbrev pub Alnum : ℕ → Type 0
  Alnum c = is_alnum u c ≡ true

  abbrev pub Allowed : ℕ → Type 0
  Allowed c = (is_alnum u c ≡ true) ⊎ (is_separator c ≡ true)

  -- It starts and ends with a letter or number, and holds only those, spaces, `_` and `-`.
  abbrev pub IsBody : Text → Type 0
  IsBody s = Starts Alnum s × Ends Alnum s × All Allowed s

  alnum_run_sound : {s : Text} → Lang (alnum_run u) s → IsBody s
  alnum_run_sound m =
      let (c, t, e, h, all) = run_parts (is_alnum u) m in
      rw e (h, Ends-All Alnum c t h all, (inl h, All-map {P = Alnum} (λ d k. inl k) t all))

  tail_sound : {t : Text} → Lang (name_tail u) t → ((t ≡ []) ⊎ Ends Alnum t) × All Allowed t
  tail_sound stop = (inl refl, tt)
  tail_sound (more s t e (x, y, exy, mx, my) rest) =
      let (c, x', ex, h, all) = run_parts is_separator mx in
      let b = alnum_run_sound my in
      let (ends, ok) = tail_sound rest in
      rw (e, exy)
        (
          inr (Ends-append_or Alnum (x ++ y) t (Ends-append Alnum x y (b.1)) ends),
          All-append Allowed (x ++ y) t
              (All-append Allowed x y
                (rw ex (inr h, All-map {P = λ d. is_separator d ≡ true} (λ d k. inr k) x' all))
                (b.2))
              ok,
        )

  pub IsBody-sound : {s : Text} → Lang (seq (alnum_run u) (name_tail u)) s → IsBody s
  IsBody-sound (x, y, e, mx, my) =
      let b = alnum_run_sound mx in
      let (ends, ok) = tail_sound my in
      rw e (
        Starts-append Alnum x y (b.0),
        Ends-append_or Alnum x y (b.1) ends,
        All-append Allowed x y (b.2) ok,
      )

  mutual
    -- Behind a letter or number.
    rest_complete :
        (s : Text)
        → (s ≡ []) ⊎ Ends Alnum s
        → All Allowed s
        → Lang (seq (star (class (is_alnum u))) (name_tail u)) s
    rest_complete [] h ok = ([], [], refl, stop, stop)
    rest_complete (c ∷ s) h ok = elim (Bool-cases (is_alnum u c)) [
      | inl yes_alnum ↦
          let (a, b, e, ma, mb) =
            rest_complete s (elim h [ inl e' ↦ absurd (cc) | inr k ↦ Ends-tail Alnum c s k ])
              (ok.1) in
          (c ∷ a, b, ap (◌∷◌ c) e, more (c ∷ []) a refl (c, refl, yes_alnum) ma, mb)
      | inr no_alnum ↦
          let sep : is_separator c ≡ true = elim (ok.0) [ inl k ↦ cc | inr k ↦ k ] in
          let (x, y, e, mx, (r, t, e', mr, mt)) =
            between_complete s
              (elim h [
                | inl e' ↦ absurd (cc)
                | inr k ↦ elim (Ends-tail Alnum c s k) [
                  | inl es ↦ let k' : Ends Alnum (c ∷ []) = rw es at k in absurd (cc)
                  | inr k' ↦ k'
                ]
              ])
              (ok.1) in
          (
            [],
            c ∷ s,
            refl,
            stop,
            more (c ∷ x ++ r) t (ap (◌∷◌ c) (e ∙ ap (◌++◌ x) e' ∙ sym (append_assoc x r t)))
                (c ∷ x, r, refl, (c ∷ [], x, refl, (c, refl, sep), mx), mr) mt,
          )
    ]

    -- Behind a separator.
    between_complete :
        (s : Text)
        → Ends Alnum s
        → All Allowed s
        → Lang (seq (star (class is_separator)) (seq (alnum_run u) (name_tail u))) s
    between_complete [] h ok = absurd h
    between_complete (c ∷ s) h ok = elim (Bool-cases (is_alnum u c)) [
      | inl yes_alnum ↦
          let (a, b, e, ma, mb) = rest_complete s (Ends-tail Alnum c s h) (ok.1) in
          (
            [],
            c ∷ s,
            refl,
            stop,
            (c ∷ a, b, ap (◌∷◌ c) e, (c ∷ [], a, refl, (c, refl, yes_alnum), ma), mb),
          )
      | inr no_alnum ↦
          let sep : is_separator c ≡ true = elim (ok.0) [ inl k ↦ cc | inr k ↦ k ] in
          let (x, y, e, mx, my) =
            between_complete s
              (elim (Ends-tail Alnum c s h) [
                | inl es ↦ let k' : Ends Alnum (c ∷ []) = rw es at h in absurd (cc)
                | inr k' ↦ k'
              ])
              (ok.1) in
          (c ∷ x, y, ap (◌∷◌ c) e, more (c ∷ []) x refl (c, refl, sep) mx, my)
    ]

  pub body_complete : (s : Text) → IsBody s → Lang (seq (alnum_run u) (name_tail u)) s
  body_complete [] h = absurd (h.0)
  body_complete (c ∷ s) h =
      let (a, b, e, ma, mb) = rest_complete s (Ends-tail Alnum c s (h.1)) (h.2.1) in
      (c ∷ a, b, ap (◌∷◌ c) e, (c ∷ [], a, refl, (c, refl, h.0), ma), mb)

  -- One dot may stand in front.
  abbrev pub IsName : Text → Type 0
  IsName [] = ⊥
  IsName (c ∷ s) = ((c ≡ dot) × IsBody s) ⊎ IsBody (c ∷ s)

  pub IsName-of_body : (s : Text) → IsBody s → IsName s
  IsName-of_body [] h = h.0
  IsName-of_body (c ∷ s) h = inr h

  pub IsName-sound : {s : Text} → Lang (name_regexp u) s → IsName s
  IsName-sound (x, y, e, inl ex, m) = rw (e, ex) (IsName-of_body y (IsBody-sound m))
  IsName-sound (x, y, e, inr (d, ex, h), m) = rw (e, ex) (inl (ground arith, IsBody-sound m))

  pub name_complete : (s : Text) → IsName s → Lang (name_regexp u) s
  name_complete [] h = absurd h
  name_complete (c ∷ s) (inl (e, h)) =
      (c ∷ [], s, refl, inr (c, refl, ground arith), body_complete s h)
  name_complete (c ∷ s) (inr h) = ([], c ∷ s, refl, inl refl, body_complete (c ∷ s) h)
