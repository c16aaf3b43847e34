-- ===== src/Server/Routes/Guards.antt =====
-- What a request has passed when an endpoint reaches the services.
use mhserver.Common.{
  ℕ, ◌<◌, ◌≡◌, ◌⊎◌, refl, ◌∙◌, ap, Option, some, Text, codes, arith, take, drop, true, Bool-cases,
  inl, inr, Method, ok, err, panic, blocked, Outcome, ltb, if◌then◌else◌,
}
use mhserver.Data.Semaphore.{Semaphore, has_room}
use mhserver.RateLimit.Laws.{accepted}
use mhserver.RateLimit.Quota.{IsValid}
use mhserver.Auth.{AuthEnv, AuthService}
use mhserver.Auth.Middleware.{HttpAuthError, map_claims, with_auth}
use mhserver.Auth.Middleware.Headers.{with_auth_guarded}
use mhserver.Http.Limits.Headers.{with_rate_limit_lem}
use mhserver.Http.DataHandlers.{DataClient}
use mhserver.Http.{Response}
use mhserver.Http.Exchange.{Returned, Handler, start}
use mhserver.Http.AccountHandlers.{login, register}
use mhserver.Server.{with_main_semaphore}
use mhserver.Server.Endpoints.{FileEndpoint, file, Endpoint, log_in, sign_up, ping, version}
use mhserver.Server.Routes.{
  Web, WebRequest, Services, MainState, Reply, on_storage, replied, refused, file_handler,
  authorized, data_limited, auth_limited, on_accounts, serve, answer, ns_limited,
}

-- The semaphore runs an endpoint if it has room, and else nothing.
pub with_main_semaphore_lem :
    {S E A : Type 0} (endpoint : Method S E A) (sem : Semaphore) (s : S)
    → ((with_main_semaphore endpoint (sem, s)).0.1 ≡ s)
      ⊎ ((has_room sem ≡ true) × ((with_main_semaphore endpoint (sem, s)).0.1 ≡ (endpoint s).0))
unfolding with_main_semaphore
with_main_semaphore_lem endpoint sem s = elim (Bool-cases (has_room sem)) [
  | inr full ↦ inl (ground (arith, full))
  | inl room ↦ inr (room, ground (arith, room))
]

module _ {env : AuthEnv} {D : Type 0} where
  pub replied_lem :
      (E : Type 0) (s : Services env D) (w : Response) (r : Outcome Returned (Unit {0}))
      → (replied {E = E} s w r).0 ≡ s
  replied_lem E s w (ok a) = refl
  replied_lem E s w (err e) = refl
  replied_lem E s w panic = refl
  replied_lem E s w blocked = refl

  refused_lem : (x : Services env D × Outcome HttpAuthError Response) → (refused x).0 ≡ x.0
  refused_lem (s, ok w) = refl
  refused_lem (s, err e) = refl
  refused_lem (s, panic) = refl
  refused_lem (s, blocked) = refl

module _ {env : AuthEnv} {D N : Type 0} (web : Web N) (client : Option (DataClient D))
    (r : WebRequest) where
  pub data_limited_lem :
      (n : ℕ) (next : Method (Services env D) ⊥ Response) (m : MainState env D N)
      → IsValid n m.data_limiter
      → (data_limited r next m).0.services ≡ (
          if ltb (accepted r.forwarded_for m.data_limiter) n
          then (next m.services).0
          else m.services)
  data_limited_lem n next m v =
      (with_rate_limit_lem n r.forwarded_for r.now next m.data_limiter m.services v).0

  pub authorized_lem :
      (e : FileEndpoint) (s : Services env D)
      → (authorized web client r e s).0
        ≡ (with_auth web.parse
            (λ name. on_storage (file_handler web client r e name))
            r.authorization
            s).0
  authorized_lem e s = refused_lem (
      with_auth web.parse (λ name. on_storage (file_handler web client r e name)) r.authorization s)

  -- A request for files that reaches the data service.
  pub record IsAdmitted (n : ℕ) (e : FileEndpoint) (sem : Semaphore) (m : MainState env D N)
      : Type 0 where
    pub room : has_room sem ≡ true
    pub under_limit : accepted r.forwarded_for m.data_limiter < n
    pub token : Text
    pub name : Text
    pub from_header :
        (r.authorization ≡ token)
        ⊎ ((take 6 r.authorization ≡ codes "Bearer") × (token ≡ drop 7 r.authorization))
    pub parsed : web.parse token ≡ map_claims (some name)
    pub handled :
        let x = (file_handler web client r e name (start m.services.storage m.services.errors)).0 in
        (serve web client r (file e) (sem, m)).0.1.services
        ≡ record (m.services) { storage = x.state; errors = x.errors }

  file_requests_guarded :
      (n : ℕ) (e : FileEndpoint) (sem : Semaphore) (m : MainState env D N)
      → IsValid n m.data_limiter
      → ((serve web client r (file e) (sem, m)).0.1.services ≡ m.services) ⊎ IsAdmitted n e sem m
  unfolding serve answer
  file_requests_guarded n e sem m v =
      let endpoint = data_limited {N = N} r (authorized {env = env} web client r e) in
      let handle : Text → Method (Services env D) HttpAuthError Response =
        λ name. on_storage (file_handler web client r e name) in
      elim (with_main_semaphore_lem endpoint sem m) [
        | inl same ↦ inl (ap (λ (x : MainState env D N). x.services) same)
        | inr (room, ran) ↦
            let limited =
              ap (λ (x : MainState env D N). x.services) ran
              ∙ data_limited_lem n (authorized web client r e) m v in
            elim (Bool-cases (ltb (accepted r.forwarded_for m.data_limiter) n)) [
              | inr refused ↦ inl (ground (arith, refused, limited))
              | inl under ↦ elim (with_auth_guarded web.parse handle r.authorization m.services) [
                | inl same ↦ inl (ground (arith, under, limited, authorized_lem e m.services, same))
                | inr a ↦
                    let x =
                      file_handler web client r e a.name
                        (start m.services.storage m.services.errors) in
                    let s = record (m.services) { storage = x.0.state; errors = x.0.errors } in
                    inr (record {
                      room = room;
                      under_limit = ground (arith, under);
                      token = a.token;
                      name = a.name;
                      from_header = a.from_header;
                      parsed = a.parsed;
                      handled =
                          limited
                          ∙ ground (arith, under)
                          ∙ authorized_lem e m.services
                          ∙ ap (λ (p : Services env D × Outcome HttpAuthError Response). p.0)
                              a.handled
                          ∙ replied_lem HttpAuthError s x.0.response x.1;
                    })
              ]
            ]
      ]

  auth_limited_lem :
      (n : ℕ) (next : Method (Services env D) ⊥ Response) (m : MainState env D N)
      → IsValid n m.auth_limiter
      → (auth_limited r next m).0.services ≡ (
          if ltb (accepted r.forwarded_for m.auth_limiter) n
          then (next m.services).0
          else m.services)
  auth_limited_lem n next m v =
      (with_rate_limit_lem n r.forwarded_for r.now next m.auth_limiter m.services v).0

  -- A request for an account that reaches the service.
  pub record IsAccountRequest (n : ℕ) (e : Endpoint) (sem : Semaphore) (m : MainState env D N)
      : Type 0 where
    pub room : has_room sem ≡ true
    pub endpoint : (e ≡ log_in) ⊎ (e ≡ sign_up)
    pub under_limit : accepted r.forwarded_for m.auth_limiter < n
    pub storage_kept : (serve web client r e (sem, m)).0.1.services.storage ≡ m.services.storage

  account_requests_guarded :
      (n : ℕ) (e : Endpoint) (handler : Handler (AuthService env) (Unit {0})) (sem : Semaphore)
      (m : MainState env D N)
      → IsValid n m.auth_limiter
      → (e ≡ log_in) ⊎ (e ≡ sign_up)
      → answer web client r e ≡ auth_limited r (on_accounts handler)
      → ((serve web client r e (sem, m)).0.1.services ≡ m.services) ⊎ IsAccountRequest n e sem m
  unfolding serve
  account_requests_guarded n e handler sem m v which answered =
      elim (with_main_semaphore_lem (answer web client r e) sem m) [
        | inl same ↦ inl (ap (λ (x : MainState env D N). x.services) same)
        | inr (room, ran) ↦
            let x = handler (start m.services.accounts m.services.errors) in
            let s = record (m.services) { accounts = x.0.state; errors = x.0.errors } in
            let limited =
              ap (λ (y : MainState env D N). y.services) ran
              ∙ ap (λ (f : Method (MainState env D N) ⊥ Reply). (f m).0.services) answered
              ∙ auth_limited_lem n (on_accounts handler) m v in
            elim (Bool-cases (ltb (accepted r.forwarded_for m.auth_limiter) n)) [
              | inr refused ↦ inl (ground (arith, refused, limited))
              | inl under ↦ inr (record {
                room = room;
                endpoint = which;
                under_limit = ground (arith, under);
                storage_kept =
                    ap (λ (y : Services env D). y.storage)
                      (limited ∙ ground (arith, under) ∙ replied_lem ⊥ s x.0.response x.1);
              })
            ]
      ]

  ns_requests_keep :
      (refusal text : Text) (sem : Semaphore) (m : MainState env D N)
      → (with_main_semaphore
          (ns_limited {env = env} {D = D} web refusal text)
          (sem, m)).0.1.services
        ≡ m.services
  ns_requests_keep refusal text sem m =
      elim (with_main_semaphore_lem (ns_limited {env = env} web refusal text) sem m) [
        | inl same ↦ ap (λ (x : MainState env D N). x.services) same
        | inr (room, ran) ↦ ap (λ (x : MainState env D N). x.services) ran
      ]

  -- A request leaves the accounts, the data service and the shared errors as they are, unless it is one of
  -- two kinds. For files: the semaphore had room, the address was under the limit of the data endpoints, and
  -- the header holds a token with a name; the services are then as the endpoint's handler leaves them for the
  -- user of that name. Logging in or registering: there was room, the address was under the limit of the
  -- account endpoints, and the data service is as before.
  pub requests_guarded :
      (n k : ℕ) (e : Endpoint) (sem : Semaphore) (m : MainState env D N)
      → IsValid n m.data_limiter
      → IsValid k m.auth_limiter
      → ((serve web client r e (sem, m)).0.1.services ≡ m.services)
        ⊎ (((f : FileEndpoint) × (e ≡ file f) × IsAdmitted n f sem m) ⊎ IsAccountRequest k e sem m)
  unfolding serve answer
  requests_guarded n k (file f) sem m v w = elim (file_requests_guarded n f sem m v) [
    | inl same ↦ inl same
    | inr a ↦ inr (inl (f, refl, a))
  ]
  requests_guarded n k log_in sem m v w =
      elim (account_requests_guarded k log_in (login env r.later (web.decode_user r.body)) sem m w
        (inl refl) refl) [ inl same ↦ inl same | inr a ↦ inr (inr a) ]
  requests_guarded n k sign_up sem m v w =
      elim (account_requests_guarded k sign_up
        (register env r.salt (web.decode_register_user r.body)) sem m w (inr refl) refl) [
          | inl same ↦ inl same
          | inr a ↦ inr (inr a)
        ]
  requests_guarded n k ping sem m v w =
      inl (ns_requests_keep (codes "Too many requests") (codes "Welcome to MHServer API") sem m)
  requests_guarded n k version sem m v w =
      inl (ns_requests_keep (codes "to many requests") web.version_text sem m)
