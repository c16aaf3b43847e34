-- ===== src/RateLimit/Quota.antt =====
-- The limiter over whole histories: how many requests it lets through between two resets.
use Prim.Native.Nat.{min}
use mhserver.Common.{
  ℕ, ◌+◌, ◌-◌, ◌≤◌, ◌<◌, ◌≡◌, Option, none, some, refl, ◌≢◌, ◌∙◌, List, [], ◌∷◌, Text, arith, ite,
  leb, if◌then◌else◌, inl, inr, Option-cases,
}
use mhserver.Common.Int.{pos}
use mhserver.Common.Dict.{
  lookup, lookup-insert, lookup-delete_where, text_eq, NodupKeys, keep_unless, insert-NodupKeys,
  delete_where-NodupKeys,
}
use mhserver.RateLimit.{
  Limiter, UserRate, Event, request, ticks, cleans, unix, new_user_rate, new_limiter,
  register_request, reset_tick, allow, remaining, tick, clean_expired, step, run, find_or_create,
}
use mhserver.RateLimit.Laws.{accepted, accepted-allow, allow_iff, limit-allow, remaining-accepted}

accepted-tick :
    (ip k : Text) (now : ℕ) (l : Limiter)
    → accepted k (tick ip now l) ≡ ite (text_eq.dec ip k) 0 (accepted k l)
unfolding tick
accepted-tick ip k now l = elim (Option-cases (lookup ip l.occupied)) [
  | inl e ↦ ground (arith, e)
  | inr (r, e) ↦ ground (
    arith,
    e,
    lookup-insert k ip (record r { reqs = reset_tick l.interval now r.reqs }) l.occupied,
  )
]

pub lookup-tick_ne :
    (ip k : Text) (now : ℕ) (l : Limiter)
    → ip ≢ k
    → lookup k (tick ip now l).occupied ≡ lookup k l.occupied
unfolding tick
lookup-tick_ne ip k now l ne = elim (Option-cases (lookup ip l.occupied)) [
  | inl e ↦ ground (arith, e)
  | inr (r, e) ↦ ground (
    arith,
    e,
    lookup-insert k ip (record r { reqs = reset_tick l.interval now r.reqs }) l.occupied,
  )
]

pub lookup-clean_expired :
    (k : Text) (now : ℕ) (l : Limiter)
    → NodupKeys l.occupied
    → lookup k (clean_expired now l).occupied
      ≡ keep_unless (λ rate. leb rate.exp (unix now)) (lookup k l.occupied)
unfolding clean_expired
lookup-clean_expired k now l u = lookup-delete_where _ k l.occupied u

accepted-clean_expired-le :
    (k : Text) (now : ℕ) (l : Limiter)
    → NodupKeys l.occupied
    → accepted k (clean_expired now l) ≤ accepted k l
accepted-clean_expired-le k now l u = ground (arith, lookup-clean_expired k now l u)

limit-step : (e : ℕ × Event) (l : Limiter) → (step e l).limit ≡ l.limit
unfolding step tick clean_expired
limit-step (now, request ip) l = limit-allow ip now l
limit-step (now, ticks ip) l = ground arith
limit-step (now, cleans) l = refl

find_or_create-NodupKeys :
    (ip : Text) (now : ℕ) (l : Limiter)
    → NodupKeys l.occupied
    → NodupKeys (find_or_create ip now l).0.occupied
unfolding find_or_create
find_or_create-NodupKeys ip now l u =
    ground (arith, insert-NodupKeys ip (new_user_rate l.interval now) l.occupied u)

pub step-NodupKeys :
    (e : ℕ × Event) (l : Limiter) → NodupKeys l.occupied → NodupKeys (step e l).occupied
unfolding step allow tick clean_expired
step-NodupKeys (now, request ip) l u =
    let (l', rate) = find_or_create ip now l in
    let u' : NodupKeys l'.occupied = find_or_create-NodupKeys ip now l u in
    ground (arith, insert-NodupKeys ip (register_request now rate) l'.occupied u')
step-NodupKeys (now, ticks ip) l u = elim (Option-cases (lookup ip l.occupied)) [
  | inl e ↦ ground (arith, e)
  | inr (r, e) ↦
      rw (e, tick)
        (insert-NodupKeys ip (record r { reqs = reset_tick l.interval now r.reqs }) l.occupied u)
]
step-NodupKeys (now, cleans) l u = delete_where-NodupKeys _ l.occupied u

-- No address is over the limit, and no address has two entries.
pub record IsValid (n : ℕ) (l : Limiter) : Type 0 where
  pub limited : l.limit ≡ pos n
  pub unique : NodupKeys l.occupied
  pub bounded : (ip : Text) → accepted ip l ≤ n

accepted-step-le :
    (n : ℕ) (k : Text) (e : ℕ × Event) (l : Limiter) → IsValid n l → accepted k (step e l) ≤ n
unfolding step
accepted-step-le n k (now, request ip) l v =
    ground
      (arith, accepted-allow ip k now l, allow_iff ip now l, v.bounded k, v.bounded ip, v.limited)
accepted-step-le n k (now, ticks ip) l v = ground (arith, accepted-tick ip k now l, v.bounded k)
accepted-step-le n k (now, cleans) l v =
    omega (arith, accepted-clean_expired-le k now l v.unique, v.bounded k)

-- Every event keeps the limiter valid.
pub step-IsValid : (n : ℕ) (e : ℕ × Event) (l : Limiter) → IsValid n l → IsValid n (step e l)
step-IsValid n e l v = record {
  limited = limit-step e l ∙ v.limited;
  unique = step-NodupKeys e l v.unique;
  bounded = λ k. accepted-step-le n k e l v;
}

run-IsValid : (n : ℕ) (es : List (ℕ × Event)) (l : Limiter) → IsValid n l → IsValid n (run es l)
unfolding run
run-IsValid n [] l v = v
run-IsValid n (e ∷ es) l v = run-IsValid n es (step e l) (step-IsValid n e l v)

pub new_limiter-IsValid : (n interval : ℕ) → IsValid n (new_limiter (pos n) interval)
unfolding new_limiter lookup
new_limiter-IsValid n interval = record { limited = refl; unique = tt; bounded = λ ip. omega arith }

-- After any history of a new limiter the requests that it counts for an address are at most
-- the limit, and `Remaining` reports the limit less that count.
pub run_bounded :
    (n interval : ℕ) (es : List (ℕ × Event)) (ip : Text)
    → let l = run es (new_limiter (pos n) interval) in
      (accepted ip l ≤ n) × (remaining ip l ≡ pos (n - accepted ip l))
run_bounded n interval es ip =
    let v = run-IsValid n es (new_limiter (pos n) interval) (new_limiter-IsValid n interval) in
    ground (
      arith,
      v.bounded ip,
      v.limited,
      remaining-accepted ip (run es (new_limiter (pos n) interval)),
    )

-- The requests of one address in a history, and those of them that are let through.
abbrev is_from : Text → Event → ℕ
is_from ip (request other) = ite (text_eq.dec other ip) 1 0
is_from ip (ticks other) = 0
is_from ip cleans = 0

abbrev pub requests_of : Text → List (ℕ × Event) → ℕ
requests_of ip [] = 0
requests_of ip ((_, e) ∷ es) = is_from ip e + requests_of ip es

abbrev is_let_through : Text → ℕ × Event → Limiter → ℕ
is_let_through ip (now, request other) l =
    if (allow other now l).1.0 then ite (text_eq.dec other ip) 1 0 else 0
is_let_through ip (now, ticks other) l = 0
is_let_through ip (now, cleans) l = 0

pub let_through : Text → List (ℕ × Event) → Limiter → ℕ
let_through ip [] l = 0
let_through ip (e ∷ es) l = is_let_through ip e l + let_through ip es (step e l)

-- The cleaner finds no entry, or one that is not expired.
abbrev Survives : ℕ → Option UserRate → Type 0
Survives now none = Unit
Survives now (some rate) = unix now < rate.exp

-- The event neither resets nor removes the entry of the address: it is not its ticker, nor a round of
-- the cleaner that finds the entry expired.
abbrev pub Leaves : Text → ℕ × Event → Limiter → Type 0
Leaves ip (now, request other) l = Unit
Leaves ip (now, ticks other) l = other ≢ ip
Leaves ip (now, cleans) l = Survives now (lookup ip l.occupied)

abbrev pub Undisturbed : Text → List (ℕ × Event) → Limiter → Type 0
Undisturbed ip [] l = Unit
Undisturbed ip (e ∷ es) l = Leaves ip e l × Undisturbed ip es (step e l)

keep_of_Survives :
    (now : ℕ) (o : Option UserRate)
    → Survives now o
    → keep_unless (λ rate. leb rate.exp (unix now)) o ≡ o
keep_of_Survives now none h = refl
keep_of_Survives now (some rate) h = ground arith

-- A round of the cleaner that leaves an address does not change its entry.
pub lookup-cleans :
    (ip : Text) (now : ℕ) (l : Limiter)
    → NodupKeys l.occupied
    → Leaves ip (now, cleans) l
    → lookup ip (clean_expired now l).occupied ≡ lookup ip l.occupied
lookup-cleans ip now l u h =
    lookup-clean_expired ip now l u ∙ keep_of_Survives now (lookup ip l.occupied) h

accepted-step :
    (ip : Text) (e : ℕ × Event) (l : Limiter)
    → NodupKeys l.occupied
    → Leaves ip e l
    → accepted ip (step e l) ≡ accepted ip l + is_let_through ip e l
unfolding step
accepted-step ip (now, request other) l u h = ground (arith, accepted-allow other ip now l)
accepted-step ip (now, ticks other) l u h = ground (arith, accepted-tick other ip now l)
accepted-step ip (now, cleans) l u h = ground (arith, lookup-cleans ip now l u h)

is_let_through_lem :
    (n : ℕ) (ip : Text) (e : ℕ × Event) (l : Limiter)
    → l.limit ≡ pos n
    → is_let_through ip e l ≡ min (is_from ip (e.1)) (n - accepted ip l)
is_let_through_lem n ip (now, request other) l h = ground (arith, allow_iff other now l)
is_let_through_lem n ip (now, ticks other) l h = omega arith
is_let_through_lem n ip (now, cleans) l h = omega arith

let_through-min :
    (n : ℕ) (ip : Text) (es : List (ℕ × Event)) (l : Limiter)
    → IsValid n l
    → Undisturbed ip es l
    → let_through ip es l ≡ min (requests_of ip es) (n - accepted ip l)
unfolding let_through
let_through-min n ip [] l v u = omega arith
let_through-min n ip (e ∷ es) l v (here, later) = omega (
  arith,
  let_through-min n ip es (step e l) (step-IsValid n e l v) later,
  accepted-step ip e l v.unique here,
  is_let_through_lem n ip e l v.limited,
)

-- Between two resets the limiter lets through every request of an address until its quota
-- is used up, and none after: of any history that follows a valid state, in which the ticker of the
-- address does not fire and no round of the cleaner finds its entry expired, as many requests as were
-- made, but no more than the limit leaves.
pub let_through_quota :
    (n : ℕ) (ip : Text) (es : List (ℕ × Event)) (l : Limiter)
    → IsValid n l
    → Undisturbed ip es l
    → (let_through ip es l ≡ min (requests_of ip es) (n - accepted ip l))
      × (let_through ip es l + accepted ip l ≤ n)
let_through_quota n ip es l v u =
    let e = let_through-min n ip es l v u in (e, omega (arith, v.bounded ip))
