-- ===== src/Server/Routes/SignedIn.antt =====
-- From logging in to a file: the token that Login gives is what the endpoints for files take.
use mhserver.Common.{
  ℕ, ◌+◌, ◌≤◌, ◌<◌, ◌≡◌, ◌∙◌, ap, true, Option, some, Text, codes, ◌++◌, arith, ok, Method, Outcome,
  ℕ_discrete, Bool-cases, Option-cases, inl, inr, ltb,
}
use mhserver.Common.Dict.{text_eq}
use mhserver.Common.Time.{unix}
use mhserver.Data.Semaphore.{Semaphore, has_room}
use mhserver.RateLimit.Laws.{accepted}
use mhserver.RateLimit.Quota.{IsValid}
use mhserver.Auth.{AuthEnv, AuthService, User, Claims, new_claims, a_day, login}
use mhserver.Auth.Accounts.{Row-cases}
use mhserver.Auth.Middleware.{Parsed, map_claims, HttpAuthError, with_auth, strip_bearer}
use mhserver.Http.{Response}
use mhserver.Http.Exchange.{start}
use mhserver.Http.DataHandlers.{DataClient}
use mhserver.Server.{with_main_semaphore}
use mhserver.Server.Endpoints.{FileEndpoint, file}
use mhserver.Server.Routes.{
  Web, WebRequest, Services, MainState, on_storage, file_handler, authorized, data_limited, serve,
  answer,
}
use mhserver.Server.Routes.Guards.{replied_lem, data_limited_lem, authorized_lem}

-- jwt.Parse accepts a token that was signed with the key, from its `nbf` on and before its `exp`.
pub record Verifies (env : AuthEnv) {N : Type 0} (web : Web N) (key : Text) (now : ℕ) : Type 0 where
  pub verified :
      (claims : Claims) (token : Text)
      → env.signed_string claims key ≡ some token
      → claims.nbf ≤ unix now
      → unix now < claims.exp
      → web.parse token ≡ map_claims (some claims.name)

module _ (env : AuthEnv) where
  token_signed :
      (t : ℕ) (user : User) (s : AuthService env) (token : Text)
      → (login env t user s).1 ≡ ok token
      → env.signed_string (new_claims user.name t) s.cfg.jwt_signature ≡ some token
  unfolding login
  token_signed t user s token e = elim (Row-cases (env.select_user user.name s.db)) [
    | inl ((name, hash), found) ↦
        elim (Bool-cases (env.compare_hash_and_password hash user.password)) [
          | inl right ↦
              elim (Option-cases (env.signed_string (new_claims user.name t) s.cfg.jwt_signature)) [
                | inl none_signed ↦ absurd (ground (arith, found, right, none_signed))
                | inr (token', signed) ↦ ground (arith, found, right, signed)
              ]
          | inr wrong ↦ absurd (ground (arith, found, wrong))
        ]
    | inr (inl missing) ↦ absurd (ground (arith, missing))
    | inr (inr broken) ↦ absurd (ground (arith, broken))
  ]

bearer_lem :
    {S A : Type 0} (parse : Text → Parsed) (handler : Text → Method S HttpAuthError A)
    (token name : Text) (s : S)
    → parse token ≡ map_claims (some name)
    → with_auth parse handler (codes "Bearer " ++ token) s ≡ handler name s
unfolding with_auth strip_bearer text_eq ℕ_discrete
bearer_lem parse handler token name s e = ground (arith, e)

runs_lem :
    {S E A : Type 0} (endpoint : Method S E A) (sem : Semaphore) (s : S)
    → has_room sem ≡ true
    → (with_main_semaphore endpoint (sem, s)).0.1 ≡ (endpoint s).0
unfolding with_main_semaphore
runs_lem endpoint sem s room = ground (arith, room)

module _ {env : AuthEnv} {D N : Type 0} (web : Web N) (client : Option (DataClient D))
    (r : WebRequest) where
  -- Whoever logs in and sends the token as a bearer within a day reaches the files of that account: with
  -- room and under the limit, the endpoint's handler runs for the name that logged in.
  pub signed_in :
      (n t : ℕ) (user : User) (s : AuthService env) (token : Text) (f : FileEndpoint)
      (sem : Semaphore) (m : MainState env D N)
      → (login env t user s).1 ≡ ok token
      → Verifies env web s.cfg.jwt_signature r.now
      → unix t ≤ unix r.now
      → unix r.now < unix (t + a_day)
      → r.authorization ≡ codes "Bearer " ++ token
      → has_room sem ≡ true
      → IsValid n m.data_limiter
      → accepted r.forwarded_for m.data_limiter < n
      → let x =
          (file_handler web client r f user.name (start m.services.storage m.services.errors)).0 in
        (serve web client r (file f) (sem, m)).0.1.services
        ≡ record (m.services) { storage = x.state; errors = x.errors }
  unfolding serve answer
  signed_in n t user s token f sem m logged_in valid begun unexpired header room v under =
      let handle : Text → Method (Services env D) HttpAuthError Response =
        λ name. on_storage (file_handler web client r f name) in
      let x = file_handler web client r f user.name (start m.services.storage m.services.errors) in
      let s' = record (m.services) { storage = x.0.state; errors = x.0.errors } in
      let parsed =
        valid.verified (new_claims user.name t) token (token_signed env t user s token logged_in)
          begun unexpired in
      let limited = data_limited_lem web client r n (authorized web client r f) m v in
      let allowed : ltb (accepted r.forwarded_for m.data_limiter) n ≡ true = ground arith in
      let handled = bearer_lem web.parse handle token user.name m.services parsed in
      ap (λ (y : MainState env D N). y.services)
        (runs_lem (data_limited r (authorized web client r f)) sem m room)
      ∙ limited
      ∙ ground (arith, allowed)
      ∙ authorized_lem web client r f m.services
      ∙ rw header (ap (λ (p : Services env D × Outcome HttpAuthError Response). p.0) handled)
      ∙ replied_lem HttpAuthError s' x.0.response x.1
