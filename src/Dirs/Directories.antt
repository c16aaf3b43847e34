-- ===== src/Dirs/Directories.antt =====
-- The directory pattern: which directories are accepted.
use mathlib.Core.List.{append_assoc}
use mhserver.Common.{true, List, [], ◌∷◌, ◌++◌, ◌≡◌, refl, sym, ◌↔◌, Text, arith, All}
use mhserver.Regex.{seq, Pieces, stop, more, Lang, match_string}
use mhserver.Regex.Laws.{match_string_iff}
use mhserver.Dirs.{Unicode, slash, literal, name_regexp, directory_regexp}
use mhserver.Dirs.Names.{IsName, IsName-sound, name_complete}

-- The folders of a directory, each with a slash behind it.
abbrev pub join : List Text → Text
join [] = []
join (n ∷ ns) = n ++ (slash ∷ join ns)

module _ (u : Unicode) where
  folders_sound :
      {t : Text}
      → Pieces (Lang (seq (name_regexp u) (literal slash))) t
      → (ns : List Text) × (t ≡ join ns) × All (IsName u) ns
  folders_sound stop = ([], refl, tt)
  folders_sound (more s t e (x, y, exy, mx, (d, ey, h)) rest) =
      let (ns, et, all) = folders_sound rest in
      let ed : d ≡ slash = ground arith in
      (
        x ∷ ns,
        rw (e, exy, ey, ed, et) (append_assoc x (slash ∷ []) (join ns)),
        (IsName-sound u mx, all),
      )

  folders_complete :
      (ns : List Text)
      → All (IsName u) ns
      → Pieces (Lang (seq (name_regexp u) (literal slash))) (join ns)
  folders_complete [] h = stop
  folders_complete (n ∷ ns) h =
      more (n ++ (slash ∷ [])) (join ns) (sym (append_assoc n (slash ∷ []) (join ns)))
        (n, slash ∷ [], refl, name_complete u n (h.0), (slash, refl, refl))
        (folders_complete ns (h.1))

  -- The accepted directories are exactly "/" followed by folders that each end in "/", where
  -- a folder is a name as the comment in the source describes it: an optional dot, then letters,
  -- numbers, spaces, underscores and hyphens, of which the first and the last are letters or numbers.
  pub directory_iff :
      (d : Text)
      → (match_string (directory_regexp u) d ≡ true)
        ↔ ((ns : List Text) × (d ≡ slash ∷ join ns) × All (IsName u) ns)
  directory_iff d = (
    λ h.
        let (x, y, e, (c, ex, k), m) = (match_string_iff _ d).0 h in
        let (ns, ey, all) = folders_sound m in
        let ec : c ≡ slash = ground arith in (ns, rw (e, ex, ec, ey), all),
    λ (ns, e, all).
        (match_string_iff _ d).1
          (slash ∷ [], join ns, e, (slash, refl, refl), folders_complete ns all),
  )
