-- ===== src/Dirs/Safety.antt =====
-- Accepted directories and file names lead down from the user's service directory, and nowhere else.
use mathlib.Core.List.{append_assoc, append-nil}
use mhserver.Common.{
  ℕ, true, false, List, [], ◌∷◌, ◌++◌, ◌≡◌, refl, ap, sym, subst, ◌∙◌, ◌≢◌, inl, inr, Text, arith,
  All, All-append, some,
}
use mhserver.Regex.{match_string}
use mhserver.Dirs.{
  Unicode, slash, dot, is_ascii_alnum, is_alnum, directory_regexp, filename_regexp, get_data_path,
}
use mhserver.Dirs.Names.{IsName, Allowed, Alnum}
use mhserver.Dirs.Directories.{join, directory_iff}
use mhserver.Dirs.Filenames.{join_extensions, IsExtension, filename_iff}
use mhserver.Dirs.Paths.{
  components, walk, descend, enter, NoSlash, IsPlain, walk-slash, walk_of_IsPlain, walk-join,
  walk-join_end,
}

-- Go's tables: neither "/" nor "." is a letter or a number.
pub record HasNoPunctuation (u : Unicode) : Type 0 where
  pub no_slash : is_alnum u slash ≡ false
  pub no_dot : is_alnum u dot ≡ false

get_data_path_cases :
    (u : Unicode) (ws user d service : Text) {path : Text}
    → get_data_path u ws user d service ≡ some path
    → (match_string (directory_regexp u) d ≡ true)
      × (path ≡ ws ++ (user ++ (slash ∷ (service ++ d))))
unfolding get_data_path
get_data_path_cases u ws user d service h = ground arith

get_data_path_accepted :
    (u : Unicode) (ws user d service : Text)
    → match_string (directory_regexp u) d ≡ true
    → get_data_path u ws user d service ≡ some (ws ++ (user ++ (slash ∷ (service ++ d))))
unfolding get_data_path
get_data_path_accepted u ws user d service h = ground arith

-- The path up to the service directory, and the request directory behind it.
regroup :
    (ws user service d : Text) {t : Text}
    → d ≡ slash ∷ t
    → ws ++ (user ++ (slash ∷ (service ++ d))) ≡ (ws ++ (user ++ (slash ∷ service))) ++ (slash ∷ t)
regroup ws user service d {t} e = rw (
  e,
  append_assoc ws (user ++ (slash ∷ service)) (slash ∷ t),
  append_assoc user (slash ∷ service) (slash ∷ t),
)

module _ (u : Unicode) (laws : HasNoPunctuation u) where
  Alnum-ne_dot : (c : ℕ) → Alnum u c → c ≢ dot
  Alnum-ne_dot c h e = let k : is_alnum u dot ≡ true = subst (Alnum u) e h in cc (k, laws.no_dot)

  Allowed-ne_slash : (c : ℕ) → Allowed u c → c ≢ slash
  Allowed-ne_slash c (inl h) e =
      let k : is_alnum u slash ≡ true = subst (Alnum u) e h in cc (k, laws.no_slash)
  Allowed-ne_slash c (inr h) e = ground arith

  Body-NoSlash : (s : Text) → All (Allowed u) s → NoSlash s
  Body-NoSlash [] h = tt
  Body-NoSlash (c ∷ s) h = (Allowed-ne_slash c (h.0), Body-NoSlash s (h.1))

  Name-NoSlash : (s : Text) → IsName u s → NoSlash s
  Name-NoSlash [] h = absurd h
  Name-NoSlash (c ∷ s) (inl (e, h)) = (rw e (omega arith), Body-NoSlash s (h.2))
  Name-NoSlash (c ∷ s) (inr h) = Body-NoSlash (c ∷ s) (h.2)

  enter_of_name : (s : Text) → IsName u s → (stack : List Text) → enter stack s ≡ s ∷ stack
  enter_of_name [] h stack = absurd h
  enter_of_name (c ∷ []) (inl (e, h)) stack = absurd (h.0)
  enter_of_name (c ∷ []) (inr h) stack = ground (arith, Alnum-ne_dot c (h.0))
  enter_of_name (c ∷ d ∷ []) (inl (e, h)) stack = ground (arith, Alnum-ne_dot d (h.0))
  enter_of_name (c ∷ d ∷ []) (inr h) stack = ground (arith, Alnum-ne_dot c (h.0))
  enter_of_name (c ∷ d ∷ e ∷ s) h stack = refl

  Name-IsPlain : (s : Text) → IsName u s → IsPlain s
  Name-IsPlain s h = (Name-NoSlash s h, enter_of_name s h)

  Names-IsPlain : (ns : List Text) → All (IsName u) ns → All IsPlain ns
  Names-IsPlain [] h = tt
  Names-IsPlain (n ∷ ns) h = (Name-IsPlain n (h.0), Names-IsPlain ns (h.1))

  -- Where neither the slash nor the dot is a letter or a number, an accepted request directory is a
  -- slash and folders that are names, and the path built from it leads from the user's service
  -- directory down through just these folders: it never leaves that directory, whatever directory
  -- the walk starts in.
  pub get_data_path_descends :
      (workspace_path user req_dir service path : Text) (start : List Text)
      → get_data_path u workspace_path user req_dir service ≡ some path
      → (ns : List Text) × (req_dir ≡ slash ∷ join ns)
        × All (IsName u) ns
        × (walk start (components path)
            ≡ descend (walk start (components (workspace_path ++ (user ++ (slash ∷ service))))) ns)
  get_data_path_descends ws user d service path start h =
      let (accepted, built) = get_data_path_cases u ws user d service h in
      let (ns, e, all) = (directory_iff u d).0 accepted in
      (
        ns,
        e,
        all,
        ap (λ (v : Text). walk start (components v)) (built ∙ regroup ws user service d e)
            ∙ walk-slash start (ws ++ (user ++ (slash ∷ service))) (join ns)
            ∙ walk-join_end ns _ (Names-IsPlain ns all),
      )

  extension-NoSlash : (s : Text) → All (λ c. is_ascii_alnum c ≡ true) s → NoSlash s
  extension-NoSlash [] h = tt
  extension-NoSlash (c ∷ s) (h, hs) = (ground arith, extension-NoSlash s hs)

  extensions-NoSlash : (es : List Text) → All IsExtension es → NoSlash (join_extensions es)
  extensions-NoSlash [] h = tt
  extensions-NoSlash ([] ∷ es) h = absurd (h.0)
  extensions-NoSlash ((c ∷ e) ∷ es) h = (
    omega arith,
    All-append (λ d. d ≢ slash) (c ∷ e) (join_extensions es) (extension-NoSlash (c ∷ e) (h.0))
        (extensions-NoSlash es (h.1)),
  )

  enter-append_extensions :
      (n : Text) (es : List Text)
      → IsName u n
      → All IsExtension es
      → (stack : List Text)
      → enter stack (n ++ join_extensions es) ≡ (n ++ join_extensions es) ∷ stack
  enter-append_extensions n [] h k stack = rw (append-nil n) (enter_of_name n h stack)
  enter-append_extensions [] (e ∷ es) h k stack = absurd h
  enter-append_extensions (c ∷ []) ([] ∷ es) h k stack = absurd (k.0)
  enter-append_extensions (c ∷ []) ((d ∷ e) ∷ es) h k stack = refl
  enter-append_extensions (c ∷ d ∷ []) (e ∷ es) h k stack = refl
  enter-append_extensions (c ∷ d ∷ d' ∷ n) (e ∷ es) h k stack = refl

  Name-append_extensions :
      (n : Text) (es : List Text)
      → IsName u n
      → All IsExtension es
      → IsPlain (n ++ join_extensions es)
  Name-append_extensions n es h k = (
    All-append (λ c. c ≢ slash) n (join_extensions es) (Name-NoSlash n h) (extensions-NoSlash es k),
    enter-append_extensions n es h k,
  )

  filename-IsPlain : (f : Text) → match_string (filename_regexp u) f ≡ true → IsPlain f
  filename-IsPlain f k =
      let (n, es, e, name, all) = (filename_iff u f).0 k in
      subst IsPlain (sym e) (Name-append_extensions n es name all)

  -- Where neither the slash nor the dot is a letter or a number, an accepted file name behind the
  -- path of an accepted request directory is one component, directly in the folder that this path
  -- leads to.
  pub file_path_descends :
      (workspace_path user req_dir service path filename : Text) (start : List Text)
      → get_data_path u workspace_path user req_dir service ≡ some path
      → match_string (filename_regexp u) filename ≡ true
      → walk start (components (path ++ filename)) ≡ filename ∷ walk start (components path)
  file_path_descends ws user d service path f start h k =
      let (accepted, built) = get_data_path_cases u ws user d service h in
      let (ns, e, all) = (directory_iff u d).0 accepted in
      let X = ws ++ (user ++ (slash ∷ service)) in
      let plain = Names-IsPlain ns all in
      ap (λ (v : Text). walk start (components v))
        (ap (λ (v : Text). v ++ f) (built ∙ regroup ws user service d e)
          ∙ append_assoc X (slash ∷ join ns) f)
      ∙ walk-slash start X (join ns ++ f)
      ∙ walk-join ns _ f plain
      ∙ walk_of_IsPlain _ f (filename-IsPlain f k)
      ∙ ap (◌∷◌ f) (
          sym (
            ap (λ (v : Text). walk start (components v)) (built ∙ regroup ws user service d e)
            ∙ walk-slash start X (join ns)
            ∙ walk-join_end ns _ plain))

up_and_down :
    (x rest : Text) (stack : List Text)
    → IsPlain x
    → walk stack (components (x ++ (slash ∷ dot ∷ dot ∷ slash ∷ rest)))
      ≡ walk stack (components rest)
unfolding walk components
up_and_down x rest stack plain =
    walk-slash stack x (dot ∷ dot ∷ slash ∷ rest)
    ∙ ap (λ (s : List Text). walk s (components (dot ∷ dot ∷ slash ∷ rest)))
        (walk_of_IsPlain stack x plain)
    ∙ walk-slash (x ∷ stack) (dot ∷ dot ∷ []) rest

-- The user name is not checked. With "x/../victim" for a name, a directory that is accepted for
-- "victim" is accepted too, and the path leads where that of "victim" leads.
pub get_data_path_collision :
    (u : Unicode) (base x victim req_dir service path : Text) (start : List Text)
    → IsPlain x
    → get_data_path u (base ++ (slash ∷ [])) victim req_dir service ≡ some path
    → (path' : Text) × (get_data_path u
          (base ++ (slash ∷ []))
          (x ++ (slash ∷ dot ∷ dot ∷ slash ∷ victim))
          req_dir
          service
        ≡ some path')
      × (walk start (components path') ≡ walk start (components path))
get_data_path_collision u base x victim d service path start plain h =
    let (accepted, built) = get_data_path_cases u _ victim d service h in
    let rest = victim ++ (slash ∷ (service ++ d)) in
    let direct : path ≡ base ++ (slash ∷ rest) = built ∙ append_assoc base (slash ∷ []) rest in
    let user = x ++ (slash ∷ dot ∷ dot ∷ slash ∷ victim) in
    let path' = (base ++ (slash ∷ [])) ++ (user ++ (slash ∷ (service ++ d))) in
    let around : path' ≡ base ++ (slash ∷ (x ++ (slash ∷ dot ∷ dot ∷ slash ∷ rest))) =
      append_assoc base (slash ∷ []) _
      ∙ ap (λ (v : Text). base ++ (slash ∷ v))
          (append_assoc x (slash ∷ dot ∷ dot ∷ slash ∷ victim) (slash ∷ (service ++ d))) in
    (
      path',
      get_data_path_accepted u (base ++ (slash ∷ [])) user d service accepted,
      ap (λ (v : Text). walk start (components v)) around
          ∙ walk-slash start base (x ++ (slash ∷ dot ∷ dot ∷ slash ∷ rest))
          ∙ up_and_down x rest (walk start (components base)) plain
          ∙ sym (ap (λ (v : Text). walk start (components v)) direct ∙ walk-slash start base rest),
    )
