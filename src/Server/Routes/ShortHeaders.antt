-- ===== src/Server/Routes/ShortHeaders.antt =====
-- What requests with a short Authorization header do to the main server.
use mhserver.Common.{
  ℕ, ◌+◌, ◌<◌, ◌≡◌, refl, ap, ◌∙◌, Option, List, [], ◌∷◌, length, true, Method, panic, blocked,
  arith,
}
use mhserver.Data.Semaphore.{Semaphore, has_room, acquired}
use mhserver.RateLimit.{request, allow, step}
use mhserver.RateLimit.Laws.{accepted}
use mhserver.RateLimit.Quota.{IsValid, step-IsValid}
use mhserver.Auth.{AuthEnv}
use mhserver.Auth.Middleware.Headers.{short_header_panics}
use mhserver.Http.{Response}
use mhserver.Http.Limits.{with_rate_limit}
use mhserver.Http.Limits.Headers.{with_rate_limit_lem}
use mhserver.Http.DataHandlers.{DataClient}
use mhserver.Server.{with_main_semaphore}
use mhserver.Server.Endpoints.{FileEndpoint, Endpoint, file}
use mhserver.Server.Routes.{
  Web, WebRequest, Services, MainState, refused, on_storage, file_handler, authorized, data_limited,
  answer, serve,
}

module _ {env : AuthEnv} {D N : Type 0} (web : Web N) (client : Option (DataClient D)) where
  -- A header of one to five bytes, from an address that the limiter of the files lets through.
  abbrev pub IsShort : ℕ → WebRequest → MainState env D N → Type 0
  IsShort n r m =
      (0 < length r.authorization)
      × (length r.authorization < 6)
      × (accepted r.forwarded_for m.data_limiter < n)

  authorized_short :
      (r : WebRequest) (e : FileEndpoint) (s : Services env D)
      → 0 < length r.authorization
      → length r.authorization < 6
      → authorized web client r e s ≡ (s, panic)
  authorized_short r e s some_byte short = ap refused (
      short_header_panics web.parse (λ name. on_storage (file_handler web client r e name))
        r.authorization s some_byte short)

  limited_panic :
      (n : ℕ) (r : WebRequest) (next : Method (Services env D) ⊥ Response) (m : MainState env D N)
      → next m.services ≡ (m.services, panic)
      → IsValid n m.data_limiter
      → accepted r.forwarded_for m.data_limiter < n
      → let y = data_limited r next m in
        (y.1 ≡ panic)
        × (y.0.services ≡ m.services)
        × (y.0.data_limiter ≡ (allow r.forwarded_for r.now m.data_limiter).0)
  unfolding with_rate_limit
  limited_panic n r next m panics v under =
      ground (
        arith,
        panics,
        with_rate_limit_lem n r.forwarded_for r.now next m.data_limiter m.services v,
      )

  -- Such a request panics, changes nothing behind the limiter, and keeps its place in the semaphore.
  short_header_keeps_place :
      (n : ℕ) (r : WebRequest) (e : FileEndpoint) (sem : Semaphore) (m : MainState env D N)
      → IsShort n r m
      → IsValid n m.data_limiter
      → has_room sem ≡ true
      → let y = serve web client r (file e) (sem, m) in
        (y.1 ≡ panic)
        × (y.0.0 ≡ acquired sem)
        × (y.0.1.services ≡ m.services)
        × IsValid n y.0.1.data_limiter
  unfolding serve answer with_main_semaphore step
  short_header_keeps_place n r e sem m (some_byte, short, under) v room =
      let (panics, same, limiter) =
        limited_panic n r (authorized web client r e) m
          (authorized_short r e m.services some_byte short) v under in
      let v' : IsValid n (data_limited r (authorized web client r e) m).0.data_limiter =
        rw limiter (step-IsValid n (r.now, request r.forwarded_for) m.data_limiter v) in
      rw (room, panics) (refl, refl, same, v')

  -- Requests for files, one after another.
  pub serve_all :
      List (WebRequest × FileEndpoint)
      → Semaphore × MainState env D N
      → Semaphore × MainState env D N
  serve_all [] x = x
  serve_all ((r, e) ∷ rs) x = serve_all rs (serve web client r (file e) x).0

  -- Each of the requests has a short header and comes from an address that is let through then.
  abbrev pub AllShort :
      ℕ → List (WebRequest × FileEndpoint) → Semaphore × MainState env D N → Type 0
  AllShort n [] x = Unit
  AllShort n ((r, e) ∷ rs) x = IsShort n r x.1 × AllShort n rs (serve web client r (file e) x).0

  -- One request for files with a header of one to five bytes for each free place, each from an address
  -- that is under the limit: they leave the services as they were, and every later request, to whatever
  -- endpoint, blocks.
  pub short_headers_block :
      (n : ℕ) (rs : List (WebRequest × FileEndpoint)) (later : WebRequest) (e : Endpoint)
      (sem : Semaphore) (m : MainState env D N)
      → IsValid n m.data_limiter
      → AllShort n rs (sem, m)
      → sem.in_use + length rs ≡ sem.capacity
      → let x = serve_all rs (sem, m) in
        (x.1.services ≡ m.services) × ((serve web client later e x).1 ≡ blocked)
  unfolding serve_all serve with_main_semaphore
  short_headers_block n [] later e sem m v short full = (refl, ground arith)
  short_headers_block n ((r, f) ∷ rs) later e sem m v (here, rest) full =
      let (panics, kept, same, v') = short_header_keeps_place n r f sem m here v (ground arith) in
      let y = (serve web client r (file f) (sem, m)).0 in
      let full' : y.0.in_use + length rs ≡ y.0.capacity = rw kept (omega arith) in
      let (unchanged, blocks) = short_headers_block n rs later e y.0 y.1 v' rest full' in
      (unchanged ∙ same, blocks)
