-- ===== src/Http/ErrorText.antt =====
-- How an error of pkg/httperror reads, and which errors errors.Is takes for the same.
use mhserver.Common.{
  ℕ, ◌<◌, ◌≡◌, ap, Bool, true, false, ◌||◌, Option, none, some, [], ◌∷◌, ◌++◌, Text, codes, ite,
  length, length-append, arith,
}
use mhserver.Common.Dict.{text_eq}
use mhserver.Http.{HttpError, with_func_name, append_str}

-- Description and Status, with `none` for nil.
abbrev pub description_of : Option HttpError → Text
description_of none = []
description_of (some e) = e.description

abbrev pub status : Option HttpError → ℕ
status none = 0
status (some e) = e.status_code

-- fmt.Sprintf("%s (%d)", …) of Error; `print` writes a number.
module _ (print : ℕ → Text) where
  abbrev pub error_text : Option HttpError → Text
  error_text e = description_of e ++ (codes " (" ++ (print (status e) ++ codes ")"))

  -- Is: whether the target is the same pointer, and what its Error gives.
  unfoldable pub is : Option HttpError → Bool → Text → Bool
  is e same target = same || ite (text_eq.dec (error_text e) target) true false

  -- An error with another function name is the same error.
  pub is-with_func_name :
      (name : Text) (e : HttpError)
      → is (some (with_func_name name e)) false (error_text (some e)) ≡ true
  unfolding is with_func_name
  is-with_func_name name e = ground arith

  longer :
      (e : HttpError) (new : Text)
      → 0 < length new
      → length (error_text (some e)) < length (error_text (some (append_str new e)))
  unfolding append_str
  longer e new h =
      let tail = codes " (" ++ (print e.status_code ++ codes ")") in
      let more = e.description ++ (b';' ∷ 10 ∷ new) in
      elim (text_eq.dec e.description []) [
        | yes empty ↦
            let short : length e.description ≡ 0 = ap length empty in
            ground (arith, empty, short, length-append e.description tail, length-append new tail)
        | no _ ↦ ground (
          arith,
          length-append e.description tail,
          length-append e.description (b';' ∷ 10 ∷ new),
          length-append more tail,
        )
      ]

  -- An error that something was appended to is no longer the same as before.
  pub is-append_str :
      (e : HttpError) (new : Text)
      → 0 < length new
      → is (some (append_str new e)) false (error_text (some e)) ≡ false
  unfolding is
  is-append_str e new h =
      elim (text_eq.dec (error_text (some (append_str new e))) (error_text (some e))) [
        | no differs ↦ ground (arith, differs)
        | yes same ↦ absurd (omega (arith, longer e new h, ap length same))
      ]
