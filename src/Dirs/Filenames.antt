-- ===== src/Dirs/Filenames.antt =====
-- The file-name pattern: which file names are accepted.
use mathlib.Core.List.{append_assoc}
use mhserver.Common.{true, List, [], ◌∷◌, ◌++◌, ◌≡◌, refl, ◌↔◌, Text, arith, All}
use mhserver.Regex.{class, seq, plus, Pieces, stop, more, Lang, match_string}
use mhserver.Regex.Laws.{match_string_iff}
use mhserver.Dirs.{Unicode, dot, is_ascii_alnum, literal, filename_regexp}
use mhserver.Dirs.Names.{IsName, IsName-sound, name_complete, run_parts, run_of}

-- The extensions of a file name, each behind a dot.
abbrev pub join_extensions : List Text → Text
join_extensions [] = []
join_extensions (e ∷ es) = dot ∷ e ++ join_extensions es

-- At least one English letter or digit, and nothing else.
abbrev pub IsExtension : Text → Type 0
IsExtension [] = ⊥
IsExtension (c ∷ s) = All (λ d. is_ascii_alnum d ≡ true) (c ∷ s)

IsExtension-sound : {s : Text} → Lang (plus (class is_ascii_alnum)) s → IsExtension s
IsExtension-sound m = let (c, t, e, h, all) = run_parts is_ascii_alnum m in rw e (h, all)

extension_complete : (s : Text) → IsExtension s → Lang (plus (class is_ascii_alnum)) s
extension_complete [] h = absurd h
extension_complete (c ∷ s) h = run_of is_ascii_alnum c s (h.0) (h.1)

extensions_sound :
    {t : Text}
    → Pieces (Lang (seq (literal dot) (plus (class is_ascii_alnum)))) t
    → (es : List Text) × (t ≡ join_extensions es) × All IsExtension es
extensions_sound stop = ([], refl, tt)
extensions_sound (more s t e (x, y, exy, (d, ex, h), my) rest) =
    let (es, et, all) = extensions_sound rest in
    let ed : d ≡ dot = ground arith in
    (y ∷ es, rw (e, exy, ex, ed, et), (IsExtension-sound my, all))

extensions_complete :
    (es : List Text)
    → All IsExtension es
    → Pieces (Lang (seq (literal dot) (plus (class is_ascii_alnum)))) (join_extensions es)
extensions_complete [] h = stop
extensions_complete (e ∷ es) h =
    more (dot ∷ e) (join_extensions es) refl
      (dot ∷ [], e, refl, (dot, refl, refl), extension_complete e (h.0))
      (extensions_complete es (h.1))

module _ (u : Unicode) where
  -- The accepted file names are exactly a name as for folders, with any number of extensions behind
  -- it, each a dot and at least one English letter or digit.
  pub filename_iff :
      (f : Text)
      → (match_string (filename_regexp u) f ≡ true) ↔ (
          (n : Text) × (es : List Text) × (f ≡ n ++ join_extensions es)
          × IsName u n
          × All IsExtension es)
  filename_iff f = (
    λ h.
        let (x, y, e, mx, (a, b, eb, ma, (c, d, ed, mc, md))) = (match_string_iff _ f).0 h in
        let (es, et, all) = extensions_sound md in
        (
          x ++ (a ++ c),
          es,
          rw (
            e,
            eb,
            ed,
            et,
            append_assoc x (a ++ c) (join_extensions es),
            append_assoc a c (join_extensions es),
          ),
          IsName-sound u (x, a ++ c, refl, mx, (a, c, refl, ma, mc)),
          all,
        ),
    λ (n, es, e, name, all).
        let (x, y, ey, mx, (a, c, ec, ma, mc)) = name_complete u n name in
        (match_string_iff _ f).1 (
          x,
          a ++ (c ++ join_extensions es),
          rw (
            e,
            ey,
            ec,
            append_assoc x (a ++ c) (join_extensions es),
            append_assoc a c (join_extensions es),
          ),
          mx,
          (
            a,
            c ++ join_extensions es,
            refl,
            ma,
            (c, join_extensions es, refl, mc, extensions_complete es all),
          ),
        ),
  )
