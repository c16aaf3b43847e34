-- ===== src/Auth/Middleware/Headers.antt =====
-- What a handler behind WithAuth can rely on, and headers that bring it down.
use mhserver.Common.{
  ◌<◌, ◌≡◌, ◌⊎◌, refl, Option, Option-cases, none, some, [], ◌∷◌, Text, codes, arith, length, take,
  drop, Method, panic, inl, inr,
}
use mhserver.Common.Dict.{text_eq}
use mhserver.Auth.Middleware.{
  HttpAuthError, Parsed, expired, signature_invalid, other_error, other_claims, map_claims,
  strip_bearer, with_auth,
}

strip_bearer_lem :
    (header token : Text)
    → strip_bearer header ≡ some token
    → (header ≡ token) ⊎ ((take 6 header ≡ codes "Bearer") × (token ≡ drop 7 header))
unfolding strip_bearer
strip_bearer_lem header token e = elim (text_eq.dec (take 6 header) (codes "Bearer")) [
  | yes bearer ↦ inr (ground arith)
  | no other ↦ inl (ground arith)
]

name_of : Parsed → Option Text
name_of (map_claims o) = o
name_of expired = none
name_of signature_invalid = none
name_of other_error = none
name_of other_claims = none

name_cases : (p : Parsed) → ((name : Text) × (p ≡ map_claims (some name))) ⊎ (name_of p ≡ none)
unfolding name_of
name_cases expired = inr refl
name_cases signature_invalid = inr refl
name_cases other_error = inr refl
name_cases other_claims = inr refl
name_cases (map_claims none) = inr refl
name_cases (map_claims (some name)) = inl (name, refl)

module _ {S A : Type 0} where
  -- A call that reaches the handler: the token is the header, or what follows its first seven bytes
  -- behind "Bearer", and the handler runs with the name in that token.
  pub record IsAuthorized (parse : Text → Parsed) (handler : Text → Method S HttpAuthError A)
      (header : Text) (s : S) : Type 0 where
    pub token : Text
    pub name : Text
    pub from_header :
        (header ≡ token) ⊎ ((take 6 header ≡ codes "Bearer") × (token ≡ drop 7 header))
    pub parsed : parse token ≡ map_claims (some name)
    pub handled : with_auth parse handler header s ≡ handler name s

  -- WithAuth changes nothing, or runs the handler with the name in a token of the header that
  -- was parsed.
  pub with_auth_guarded :
      (parse : Text → Parsed) (handler : Text → Method S HttpAuthError A) (header : Text) (s : S)
      → ((with_auth parse handler header s).0 ≡ s) ⊎ IsAuthorized parse handler header s
  unfolding with_auth name_of
  with_auth_guarded parse handler [] s = inl refl
  with_auth_guarded parse handler (c ∷ header) s = elim (Option-cases (strip_bearer (c ∷ header))) [
    | inl e ↦ inl (ground (arith, e))
    | inr (token, e) ↦ elim (name_cases (parse token)) [
      | inl (name, parsed) ↦ inr (record {
        token = token;
        name = name;
        from_header = strip_bearer_lem (c ∷ header) token e;
        parsed = parsed;
        handled = ground (arith, e, parsed);
      })
      | inr no_name ↦ inl (ground (arith, e, no_name))
    ]
  ]

  -- A header of one to five bytes panics in WithAuth, and changes nothing.
  pub short_header_panics :
      (parse : Text → Parsed) (handler : Text → Method S HttpAuthError A) (header : Text) (s : S)
      → 0 < length header
      → length header < 6
      → with_auth parse handler header s ≡ (s, panic)
  unfolding with_auth strip_bearer
  short_header_panics parse handler [] s some_byte short = elim some_byte [ ]
  short_header_panics parse handler (c ∷ header) s some_byte short = ground arith
