-- ===== src/Http/Bodies.antt =====
-- What happens to the shared error for bad JSON bodies.
use mathlib.Core.List.{append-nil, append_assoc}
use mhserver.Common.{ℕ, ◌≡◌, sym, ap, ◌∙◌, List, [], ◌∷◌, ◌++◌, Text, arith}
use mhserver.Common.Dict.{text_eq}
use mhserver.Http.{
  Errors, Decoded, decoded, empty_body, bad_body, append_str, convert_json_to_struct,
}

-- The shared errors after a sequence of requests.
unfoldable pub after : {T : Type 0} → List (Decoded T) → Errors → Errors
after [] es = es
after (d ∷ ds) es = after ds (convert_json_to_struct d es).0

-- What the requests with bad bodies add to the description.
abbrev said_of : {T : Type 0} → Decoded T → Text
said_of (decoded t) = []
said_of empty_body = []
said_of (bad_body text) = b';' ∷ 10 ∷ text

unfoldable pub said : {T : Type 0} → List (Decoded T) → Text
said [] = []
said (d ∷ ds) = said_of d ++ said ds

-- The description of the error for bad bodies grows with every such request and never shrinks: it
-- is the first one and the texts of all requests with bad bodies since, whoever sent them.
pub description-after :
    {T : Type 0} (ds : List (Decoded T)) (es : Errors) (c : ℕ) (t : Text)
    → es.bad_json_body.description ≡ c ∷ t
    → (after ds es).bad_json_body.description ≡ c ∷ (t ++ said ds)
unfolding after said convert_json_to_struct append_str
description-after [] es c t e = e ∙ ap (λ v. c ∷ v) (sym (append-nil t))
description-after (decoded x ∷ ds) es c t e = description-after ds es c t e
description-after (empty_body ∷ ds) es c t e = description-after ds es c t e
description-after {T = T} (bad_body text ∷ ds) es c t e =
    let es' = (convert_json_to_struct {T = T} (bad_body text) es).0 in
    let grown : es'.bad_json_body.description ≡ c ∷ (t ++ (b';' ∷ 10 ∷ text)) = ground (arith, e) in
    description-after ds es' c (t ++ (b';' ∷ 10 ∷ text)) grown
    ∙ ap (λ v. c ∷ v) (append_assoc t (b';' ∷ 10 ∷ text) (said ds))
