-- ===== src/RateLimit/Expiry.antt =====
-- What the limiter tells a refused client, and what the cleaner forgets.
use mhserver.Common.{
  ℕ, ◌+◌, ◌-◌, ◌≤◌, ◌≡◌, ◌∙◌, ap, true, false, Option, none, some, List, [], ◌∷◌, Text, arith, leb,
  if◌then◌else◌,
}
use mhserver.Common.Int.{pos}
use mhserver.Common.Dict.{lookup, NodupKeys, text_eq}
use mhserver.RateLimit.{
  Limiter, UserRate, Event, request, ticks, cleans, unix, user_rate_lifetime, new_user_rate,
  register_request, allow, clean_expired, step, run, reset_requests_after,
}
use mhserver.RateLimit.Laws.{accepted, accepted-allow, allow-answer, lookup-allow}
use mhserver.RateLimit.Quota.{
  Undisturbed, Leaves, lookup-clean_expired, lookup-cleans, lookup-tick_ne, step-NodupKeys,
}

-- In a limiter that holds each address once, the cleaner forgets the requests of an address that
-- was let through exactly when a lifetime has passed since then, in whole seconds of the clock.
pub clean_expired-allow :
    (ip : Text) (t now : ℕ) (l : Limiter)
    → NodupKeys l.occupied
    → (allow ip t l).1.0 ≡ true
    → accepted ip (clean_expired now (allow ip t l).0)
      ≡ (if leb (unix (t + user_rate_lifetime)) (unix now) then 0 else accepted ip l + 1)
unfolding register_request step
clean_expired-allow ip t now l u h = ground (
  arith,
  lookup-clean_expired ip now (allow ip t l).0 (step-NodupKeys (t, request ip) l u),
  accepted-allow ip ip t l,
  lookup-allow ip ip t l,
  allow-answer ip t l,
)

abbrev reset_of : Option UserRate → Option ℕ
reset_of none = none
reset_of (some rate) = some rate.reqs.next_reset

reset_of-step :
    (ip : Text) (x : ℕ) (e : ℕ × Event) (l : Limiter)
    → NodupKeys l.occupied
    → Leaves ip e l
    → reset_of (lookup ip l.occupied) ≡ some x
    → reset_of (lookup ip (step e l).occupied) ≡ some x
unfolding step register_request
reset_of-step ip x (now, request other) l u h p = ground (arith, lookup-allow other ip now l)
reset_of-step ip x (now, ticks other) l u h p = ground (arith, lookup-tick_ne other ip now l h)
reset_of-step ip x (now, cleans) l u h p = ap reset_of (lookup-cleans ip now l u h) ∙ p

reset_of-run :
    (ip : Text) (x : ℕ) (es : List (ℕ × Event)) (l : Limiter)
    → NodupKeys l.occupied
    → Undisturbed ip es l
    → reset_of (lookup ip l.occupied) ≡ some x
    → reset_of (lookup ip (run es l).occupied) ≡ some x
unfolding run
reset_of-run ip x [] l u h p = p
reset_of-run ip x (e ∷ es) l u (here, later) p =
    reset_of-run ip x es (step e l) (step-NodupKeys e l u) later (reset_of-step ip x e l u here p)

reset_of-allow_new :
    (ip : Text) (t : ℕ) (l : Limiter)
    → lookup ip l.occupied ≡ none
    → reset_of (lookup ip (allow ip t l).0.occupied) ≡ some (unix (t + l.interval))
unfolding new_user_rate register_request
reset_of-allow_new ip t l absent = ground (arith, lookup-allow ip ip t l)

answer_of_refused :
    (ip : Text) (x now : ℕ) (l : Limiter)
    → reset_of (lookup ip l.occupied) ≡ some x
    → (allow ip now l).1.0 ≡ false
    → unix now ≤ x
    → (allow ip now l).1.1 ≡ pos (x - unix now)
unfolding reset_requests_after
answer_of_refused ip x now l p h le = ground (arith, allow-answer ip now l)

-- In a limiter that holds each address once, an address that is first seen at time `t`, and refused
-- within the interval that began then, is told to wait for the seconds up to the end of that interval:
-- 0 in its last second. In between there may be any requests, ticks of other addresses, and rounds of
-- the cleaner that do not find the address expired.
pub retry_after :
    (ip : Text) (t now : ℕ) (es : List (ℕ × Event)) (l : Limiter)
    → NodupKeys l.occupied
    → lookup ip l.occupied ≡ none
    → Undisturbed ip es (allow ip t l).0
    → now ≤ t + l.interval
    → (allow ip now (run es (allow ip t l).0)).1.0 ≡ false
    → (allow ip now (run es (allow ip t l).0)).1.1 ≡ pos (unix (t + l.interval) - unix now)
unfolding step
retry_after ip t now es l u absent h le refused =
    let u' : NodupKeys (allow ip t l).0.occupied = step-NodupKeys (t, request ip) l u in
    let reset = reset_of-run ip _ es (allow ip t l).0 u' h (reset_of-allow_new ip t l absent) in
    answer_of_refused ip (unix (t + l.interval)) now (run es (allow ip t l).0) reset refused
      (omega arith)
