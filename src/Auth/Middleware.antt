-- ===== src/Auth/Middleware.antt =====
-- WithAuth of internal/http/auth/middleware.go: the name of the user from the Authorization header,
-- which is a sequence of bytes here.
pub mod Headers
use mhserver.Common.{
  ℕ, Option, none, some, List, [], ◌∷◌, Text, codes, take, drop, length, leb, ltb, ite,
  if◌then◌else◌, Method, Outcome, ok, err, panic, ◌>>=◌, done, fail,
}
use mhserver.Common.Dict.{text_eq}

-- internal/http/auth/errors.go, as far as this handler writes them
pub data HttpAuthError : Type 0 where
  user_not_authorized authorization_expired jwt_signature_invalid bad_jwt_token internal :
      HttpAuthError

-- What ParseToJWT makes of a token: an error that `errors.Is` tells apart, other claims than a
-- map, or the claim "name", if it is there and a string.
pub data Parsed : Type 0 where
  expired signature_invalid other_error other_claims : Parsed
  map_claims : Option Text → Parsed

-- The slices `token[:6]` and `token[7:]`, which panic beyond the end: `none`.
unfoldable pub strip_bearer : Text → Option Text
strip_bearer token =
    if ltb (length token) 6
    then none
    else (ite (text_eq.dec (take 6 token) (codes "Bearer"))
        (if ltb (length token) 7 then none else some (drop 7 token)) (some token))

module _ {S A : Type 0} where
  abbrev of_parsed : (Text → Method S HttpAuthError A) → Parsed → Method S HttpAuthError A
  of_parsed handler expired s = (s, err authorization_expired)
  of_parsed handler signature_invalid s = (s, err jwt_signature_invalid)
  of_parsed handler other_error s = (s, err bad_jwt_token)
  of_parsed handler other_claims s = (s, err internal)
  of_parsed handler (map_claims none) s = (s, panic)
  of_parsed handler (map_claims (some name)) s = handler name s

  unfoldable pub with_auth :
      (Text → Parsed) → (Text → Method S HttpAuthError A) → Text → Method S HttpAuthError A
  with_auth parse handler [] s = (s, err user_not_authorized)
  with_auth parse handler (c ∷ header) s = elim (strip_bearer (c ∷ header)) [
    | none ↦ (s, panic)
    | some token ↦ of_parsed handler (parse token) s
  ]
