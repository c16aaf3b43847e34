-- ===== src/RateLimit/Tests.antt =====
-- Runs of the limiter on concrete requests, and its theorems at such inputs.
use Prim.Native.Nat.{min}
use mhserver.Common.{
  ℕ, ◌+◌, ◌-◌, ◌*◌, ◌≤◌, ◌≡◌, refl, ◌≢◌, ◌↔◌, true, false, List, [], ◌∷◌, Text, codes, arith,
  if◌then◌else◌, leb,
}
use mhserver.Common.Int.{pos, ◌-ℤ◌, ◌<ℤ◌}
use mhserver.Common.Dict.{lookup, insert, delete_where, text_eq}
use mhserver.RateLimit.{
  Limiter, Event, request, cleans, second, unix, user_rate_lifetime, new_limiter, allow, remaining,
  tick, clean_expired, step, run,
}
use mhserver.RateLimit.Laws.{accepted, allow_iff, remaining-allow}
use mhserver.RateLimit.Quota.{
  IsValid, new_limiter-IsValid, run_bounded, requests_of, let_through, let_through_quota,
}
use mhserver.RateLimit.Expiry.{clean_expired-allow, retry_after}

limiter_runs : Unit {0}
unfolding step run allow tick clean_expired remaining new_limiter lookup insert delete_where text_eq
limiter_runs = tt

abbrev home : Text
home = codes "1"

abbrev away : Text
away = codes "2"

abbrev two_of_five_seconds : Limiter
two_of_five_seconds = record { limit = pos 2; interval = 5 * second; occupied = [] }

abbrev three_requests : List (ℕ × Event)
three_requests = (second, request home) ∷ (second, request away) ∷ (2 * second, request home) ∷ []

third_is_refused :
    (allow home (3 * second) (run three_requests two_of_five_seconds)).1 ≡ (false, pos 3)
unfolding limiter_runs
third_is_refused = refl

allowed_after_tick :
    (allow home (7 * second) (run three_requests (tick home (6 * second) two_of_five_seconds))).1.0
    ≡ false
unfolding limiter_runs
allowed_after_tick = refl

reset_allows :
    (allow home (7 * second) (tick home (6 * second) (run three_requests two_of_five_seconds))).1
    ≡ (true, pos 0)
unfolding limiter_runs
reset_allows = refl

away_keeps_one : remaining away (run three_requests two_of_five_seconds) ≡ pos 1
unfolding limiter_runs
away_keeps_one = refl

home-ne-away : away ≢ home
home-ne-away e = ground arith

two-IsValid : IsValid 2 two_of_five_seconds
unfolding new_limiter
two-IsValid = new_limiter-IsValid 2 (5 * second)

allow_iff_test :
    ((allow home second two_of_five_seconds).1.0 ≡ true)
    ↔ (pos (accepted home two_of_five_seconds) <ℤ pos 2)
allow_iff_test = allow_iff home second two_of_five_seconds

remaining_after_one :
    (remaining home (allow home second two_of_five_seconds).0 ≡ (
      if (allow home second two_of_five_seconds).1.0
      then remaining home two_of_five_seconds -ℤ pos 1
      else remaining home two_of_five_seconds))
    × (remaining away (allow home second two_of_five_seconds).0
        ≡ remaining away two_of_five_seconds)
remaining_after_one = remaining-allow home away second two_of_five_seconds home-ne-away

run_bounded_test :
    (accepted home (run three_requests (new_limiter (pos 2) (5 * second))) ≤ 2)
    × (remaining home (run three_requests (new_limiter (pos 2) (5 * second)))
        ≡ pos (2 - accepted home (run three_requests (new_limiter (pos 2) (5 * second)))))
run_bounded_test = run_bounded 2 (5 * second) three_requests home

-- The same requests, with a round of the cleaner between the second and the third.
abbrev with_cleaner : List (ℕ × Event)
with_cleaner =
    (second, request home)
    ∷ (second, request away)
    ∷ (2 * second, cleans)
    ∷ (2 * second, request home)
    ∷ []

let_through_quota_example :
    (let_through home with_cleaner two_of_five_seconds
      ≡ min (requests_of home with_cleaner) (2 - accepted home two_of_five_seconds))
    × (let_through home with_cleaner two_of_five_seconds + accepted home two_of_five_seconds ≤ 2)
unfolding limiter_runs
let_through_quota_example =
    let_through_quota 2 home with_cleaner two_of_five_seconds two-IsValid
      (tt, (tt, (omega arith, (tt, tt))))

cleaned_before_one :
    accepted home (clean_expired (61 * second) (allow home second two_of_five_seconds).0) ≡ (
      if leb (unix (second + user_rate_lifetime)) (unix (61 * second))
      then 0
      else accepted home two_of_five_seconds + 1)
unfolding limiter_runs
cleaned_before_one = clean_expired-allow home second (61 * second) two_of_five_seconds tt refl

retry_after_example :
    (allow home (3 * second) (
      run
        ((second, request away) ∷ (2 * second, cleans) ∷ (2 * second, request home) ∷ [])
        (allow home second two_of_five_seconds).0)).1.1
    ≡ pos (unix (second + 5 * second) - unix (3 * second))
unfolding limiter_runs
retry_after_example =
    retry_after home second (3 * second)
      ((second, request away) ∷ (2 * second, cleans) ∷ (2 * second, request home) ∷ [])
      two_of_five_seconds tt refl (tt, (omega arith, (tt, tt))) (omega arith) refl
