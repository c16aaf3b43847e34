-- ===== src/Http/Limits.antt =====
-- WithRateLimit of internal/http/auth/middleware.go and internal/http/data/middleware.go, which are the
-- same. Requests go through one after another.
pub mod Headers
use mhserver.Common.{ℕ, true, false, Text, if◌then◌else◌}
use mhserver.Common.Int.{ℤ}
use mhserver.Config.{LimiterConfig}
use mhserver.RateLimit.{Limiter, new_limiter, allow, remaining, reset_in}

-- NewMiddleware, as far as its limiter goes.
abbrev pub new_middleware : LimiterConfig → Limiter
new_middleware req_cfg = new_limiter req_cfg.limit req_cfg.interval

-- Refused with 429 and Retry-After; or the answer of the handler, behind the headers
-- X-RateLimit-Limit, X-RateLimit-Remaining and X-RateLimit-Reset.
pub data Limited (A : Type 0) : Type 0 where
  too_many_requests : ℤ → Limited A
  served : ℤ → ℤ → ℕ → A → Limited A

unfoldable pub with_rate_limit :
    {S A : Type 0} → Text → ℕ → (S → S × A) → Limiter × S → (Limiter × S) × Limited A
with_rate_limit req_ip now next (l, s) =
    let (l', (allowed, after)) = allow req_ip now l in
    if allowed
    then (let (s', a) = next s in
        ((l', s'), served l'.limit (remaining req_ip l') (reset_in req_ip l') a))
    else ((l', s), too_many_requests after)
