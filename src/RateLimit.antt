-- ===== src/RateLimit.antt =====
-- internal/repository/ratelimit/ratelimit.go: the request limiter. Times are nanoseconds since the
-- epoch; one reading of the clock stands for those that a single operation takes. The goroutines
-- (the reset ticker of each user, the cleaner) are events, and the mutex makes each event atomic.
pub mod Laws
pub mod Quota
pub mod Expiry
mod Tests
use mhserver.Common.{
  ℕ, ◌+◌, ◌*◌, ◌/◌, Bool, true, false, Option, none, some, List, [], ◌∷◌, Text, leb, if◌then◌else◌,
}
pub use mhserver.Common.Time.{second, unix}
use mhserver.Common.Int.{ℤ, pos, ◌-ℤ◌, leb_ℤ}
use mhserver.Common.Dict.{Dict, lookup, insert, delete_where, text_eq}

abbrev pub user_rate_lifetime : ℕ
user_rate_lifetime = 60 * second

-- `delete`, the channel that ends the ticker, is the entry's removal from the map.
pub record AcceptedRequests : Type 0 where
  pub count : ℕ
  pub next_reset : ℕ

pub record UserRate : Type 0 where
  pub reqs : AcceptedRequests
  pub exp : ℕ

pub record Limiter : Type 0 where
  pub limit : ℤ
  pub interval : ℕ
  pub occupied : Dict Text UserRate

pub new_accepted_requests : ℕ → ℕ → AcceptedRequests
new_accepted_requests reset_duration now = record {
  count = 0;
  next_reset = unix (now + reset_duration);
}

-- The body of the ticker's loop: `reset` and the new `next_reset`.
pub reset_tick : ℕ → ℕ → AcceptedRequests → AcceptedRequests
reset_tick reset_duration now reqs = record reqs {
  count = 0;
  next_reset = unix (now + reset_duration);
}

pub add : AcceptedRequests → AcceptedRequests
add reqs = record reqs { count = reqs.count + 1 }

pub new_user_rate : ℕ → ℕ → UserRate
unfolding new_accepted_requests
new_user_rate limiter_interval now = record {
  reqs = new_accepted_requests limiter_interval now;
  exp = unix (now + user_rate_lifetime);
}

pub update_expiration : ℕ → UserRate → UserRate
update_expiration now u = record u { exp = unix (now + user_rate_lifetime) }

pub reset_requests_after : ℕ → UserRate → ℤ
reset_requests_after now u = pos u.reqs.next_reset -ℤ pos (unix now)

pub register_request : ℕ → UserRate → UserRate
unfolding add update_expiration
register_request now u = update_expiration now (record u { reqs = add u.reqs })

unfoldable pub new_limiter : ℤ → ℕ → Limiter
new_limiter max_requests interval = record {
  limit = max_requests;
  interval = interval;
  occupied = [];
}

unfoldable pub clean_expired : ℕ → Limiter → Limiter
clean_expired now l = record l {
  occupied = delete_where (λ rate. leb rate.exp (unix now)) l.occupied;
}

-- `rate, ok := l.occupied[ip]; if !ok { … }`
find_or_create : Text → ℕ → Limiter → Limiter × UserRate
unfolding new_user_rate
find_or_create ip now l = elim (lookup ip l.occupied) [
  | none ↦
      let rate = new_user_rate l.interval now in
      (record l { occupied = insert ip rate l.occupied }, rate)
  | some rate ↦ (l, rate)
]

unfoldable pub allow : Text → ℕ → Limiter → Limiter × (Bool × ℤ)
unfolding find_or_create register_request reset_requests_after
allow ip now l =
    let (l', rate) = find_or_create ip now l in
    if leb_ℤ (l'.limit -ℤ pos rate.reqs.count) (pos 0)
    then (l', (false, reset_requests_after now rate))
    else (record l' { occupied = insert ip (register_request now rate) l'.occupied }, (true, pos 0))

unfoldable pub remaining : Text → Limiter → ℤ
remaining ip l = elim (lookup ip l.occupied) [
  | none ↦ l.limit
  | some rate ↦ l.limit -ℤ pos rate.reqs.count
]

unfoldable pub reset_in : Text → Limiter → ℕ
reset_in ip l = elim (lookup ip l.occupied) [ none ↦ 0 | some rate ↦ rate.reqs.next_reset ]

-- The ticker of one user fires. The ticker of a removed user has stopped.
unfoldable pub tick : Text → ℕ → Limiter → Limiter
unfolding reset_tick
tick ip now l = elim (lookup ip l.occupied) [
  | none ↦ l
  | some rate ↦ record l {
    occupied = insert ip (record rate { reqs = reset_tick l.interval now rate.reqs }) l.occupied;
  }
]

pub data Event : Type 0 where
  request : Text → Event
  ticks : Text → Event
  cleans : Event

unfoldable pub step : ℕ × Event → Limiter → Limiter
step (now, request ip) l = (allow ip now l).0
step (now, ticks ip) l = tick ip now l
step (now, cleans) l = clean_expired now l

unfoldable pub run : List (ℕ × Event) → Limiter → Limiter
run [] l = l
run (e ∷ es) l = run es (step e l)
