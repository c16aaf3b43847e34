-- ===== src/Http/Limits/Headers.antt =====
-- Which requests WithRateLimit serves, and what their headers say.
use mhserver.Common.{ℕ, ◌+◌, ◌-◌, ◌≡◌, Text, arith, ltb, if◌then◌else◌}
use mhserver.Common.Int.{pos}
use mhserver.RateLimit.{Limiter, allow, reset_in}
use mhserver.RateLimit.Laws.{accepted, accepted-allow, allow_iff, limit-allow, remaining-accepted}
use mhserver.RateLimit.Quota.{IsValid}
use mhserver.Http.Limits.{served, too_many_requests, with_rate_limit}

-- With a valid limiter, the handler runs exactly if the address has fewer accepted requests than the
-- limit; X-RateLimit-Remaining is then the number of requests that are left after this one. Otherwise
-- the reply is a refusal and the handler's state is as before.
pub with_rate_limit_lem :
    {S A : Type 0} (n : ℕ) (ip : Text) (now : ℕ) (next : S → S × A) (l : Limiter) (s : S)
    → IsValid n l
    → let r = with_rate_limit ip now next (l, s) in
      (r.0.1 ≡ (if ltb (accepted ip l) n then (next s).0 else s))
      × (r.1 ≡ (
          if ltb (accepted ip l) n
          then served (pos n) (pos (n - (accepted ip l + 1))) (reset_in ip r.0.0) (next s).1
          else too_many_requests (allow ip now l).1.1))
unfolding with_rate_limit
with_rate_limit_lem n ip now next l s v = ground (
  arith,
  allow_iff ip now l,
  v.limited,
  accepted-allow ip ip now l,
  limit-allow ip now l,
  remaining-accepted ip (allow ip now l).0,
)
