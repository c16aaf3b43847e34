-- ===== src/RateLimit/Laws.antt =====
-- What single operations of the limiter do, through what they leave under each address.
use mhserver.Common.{
  ℕ, ◌+◌, ◌≡◌, refl, ◌≢◌, ◌↔◌, Bool, true, false, Option, none, some, Text, arith, ite,
  if◌then◌else◌,
}
use mhserver.Common.Int.{pos, ◌-ℤ◌, ◌<ℤ◌, leb_ℤ}
use mhserver.Common.Dict.{lookup, lookup-insert, text_eq}
use mhserver.RateLimit.{
  Limiter, UserRate, new_user_rate, register_request, allow, remaining, find_or_create,
  reset_requests_after,
}

-- What `Allow` finds or creates for an address.
abbrev pub current : Text → ℕ → Limiter → UserRate
current ip now l = elim (lookup ip l.occupied) [
  | none ↦ new_user_rate l.interval now
  | some rate ↦ rate
]

abbrev pub is_over : Limiter → UserRate → Bool
is_over l rate = leb_ℤ (l.limit -ℤ pos rate.reqs.count) (pos 0)

lookup-find_or_create :
    (ip k : Text) (now : ℕ) (l : Limiter)
    → lookup k (find_or_create ip now l).0.occupied
      ≡ ite (text_eq.dec ip k) (some (current ip now l)) (lookup k l.occupied)
unfolding find_or_create
lookup-find_or_create ip k now l =
    ground (arith, lookup-insert k ip (new_user_rate l.interval now) l.occupied)

find_or_create_rest :
    (ip : Text) (now : ℕ) (l : Limiter)
    → ((find_or_create ip now l).1 ≡ current ip now l)
      × ((find_or_create ip now l).0.limit ≡ l.limit)
      × ((find_or_create ip now l).0.interval ≡ l.interval)
unfolding find_or_create
find_or_create_rest ip now l = ground arith

-- The answer of `Allow`, and the entry that it leaves under any address.
pub allow-answer :
    (ip : Text) (now : ℕ) (l : Limiter)
    → (allow ip now l).1 ≡ (
        if is_over l (current ip now l)
        then (false, reset_requests_after now (current ip now l))
        else (true, pos 0))
unfolding allow
allow-answer ip now l = ground (arith, find_or_create_rest ip now l)

pub lookup-allow :
    (ip k : Text) (now : ℕ) (l : Limiter)
    → lookup k (allow ip now l).0.occupied
      ≡ ite
          (text_eq.dec ip k)
          (some (
            if is_over l (current ip now l)
            then current ip now l
            else register_request now (current ip now l)))
          (lookup k l.occupied)
unfolding allow
lookup-allow ip k now l = ground (
  arith,
  find_or_create_rest ip now l,
  lookup-find_or_create ip k now l,
  lookup-insert k ip (register_request now (current ip now l)) (find_or_create ip now l).0.occupied,
)

pub limit-allow : (ip : Text) (now : ℕ) (l : Limiter) → (allow ip now l).0.limit ≡ l.limit
unfolding allow
limit-allow ip now l = ground (arith, find_or_create_rest ip now l)

-- The requests accepted from an address in its current interval.
abbrev count_in : Option UserRate → ℕ
count_in none = 0
count_in (some rate) = rate.reqs.count

abbrev pub accepted : Text → Limiter → ℕ
accepted ip l = count_in (lookup ip l.occupied)

count-current : (ip : Text) (now : ℕ) (l : Limiter) → (current ip now l).reqs.count ≡ accepted ip l
unfolding new_user_rate
count-current ip now l = ground arith

count-register_request :
    (now : ℕ) (rate : UserRate) → (register_request now rate).reqs.count ≡ rate.reqs.count + 1
unfolding register_request
count-register_request now rate = refl

-- A request is allowed exactly when the address has accepted requests left.
pub allow_iff :
    (ip : Text) (now : ℕ) (l : Limiter)
    → ((allow ip now l).1.0 ≡ true) ↔ (pos (accepted ip l) <ℤ l.limit)
allow_iff ip now l = ground (arith, allow-answer ip now l, count-current ip now l)

pub accepted-allow :
    (ip k : Text) (now : ℕ) (l : Limiter)
    → accepted k (allow ip now l).0
      ≡ ite
          (text_eq.dec ip k)
          (if (allow ip now l).1.0 then accepted k l + 1 else accepted k l)
          (accepted k l)
accepted-allow ip k now l = ground (
  arith,
  lookup-allow ip k now l,
  allow-answer ip now l,
  count-current ip now l,
  count-register_request now (current ip now l),
)

pub remaining-accepted : (ip : Text) (l : Limiter) → remaining ip l ≡ l.limit -ℤ pos (accepted ip l)
unfolding remaining
remaining-accepted ip l = ground arith

-- An allowed request lowers what `Remaining` reports for its address by one, a refused one leaves
-- it, and another address keeps its own.
pub remaining-allow :
    (ip other : Text) (now : ℕ) (l : Limiter)
    → other ≢ ip
    → (remaining ip (allow ip now l).0
        ≡ (if (allow ip now l).1.0 then remaining ip l -ℤ pos 1 else remaining ip l))
      × (remaining other (allow ip now l).0 ≡ remaining other l)
remaining-allow ip other now l ne = ground (
  arith,
  remaining-accepted ip l,
  remaining-accepted other l,
  remaining-accepted ip (allow ip now l).0,
  remaining-accepted other (allow ip now l).0,
  limit-allow ip now l,
  accepted-allow ip ip now l,
  accepted-allow ip other now l,
)
