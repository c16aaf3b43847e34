-- ===== src/Config/Application/Shares.antt =====
-- How the memory is shared out among the subservers without a size of their own.
use mhserver.Common.{
  ℕ, ◌+◌, ◌*◌, ◌/◌, ◌%◌, ◌<◌, ◌≤◌, ◌≡◌, refl, [], ◌∷◌, arith, inl, inr, Bool-cases, if◌then◌else◌,
  ◌==◌,
}
use mhserver.Common.Words.{u64_mod, add64}
use mhserver.Config.Application.{
  ApplicationConfig, SubServer, SubServers, is_automatic, priority_sum, give_all, allocate,
}

-- The priorities that count, and what their subservers have, without a wrap-around.
abbrev automatic_priority : SubServer → ℕ
automatic_priority srv = if is_automatic srv then srv.extra.priority else 0

unfoldable pub priorities : SubServers → ℕ
priorities [] = 0
priorities ((_, srv) ∷ m) = automatic_priority srv + priorities m

-- The memory that the second map gives to the subservers that have none in the first.
pub given : SubServers → SubServers → ℕ
given [] after = 0
given (b ∷ before) [] = 0
given ((_, old) ∷ before) ((_, new) ∷ after) =
    (if is_automatic old then new.extra.allocated_memory else 0) + given before after

priority_sum_lem :
    (sum : ℕ) (m : SubServers)
    → sum + priorities m < u64_mod
    → priority_sum sum m ≡ sum + priorities m
unfolding priority_sum priorities
priority_sum_lem sum [] h = omega arith
priority_sum_lem sum ((_, srv) ∷ m) h =
    ground (arith, priority_sum_lem (add64 sum srv.extra.priority) m, priority_sum_lem sum m)

split_product :
    (c p r : ℕ)
    → c * (p + r) < u64_mod
    → (c * r < u64_mod) × (c * (p + r) ≡ (c * p) % u64_mod + c * r)
split_product c p r h =
    let d : c * (p + r) ≡ c * p + c * r = grind arith in (omega arith, omega arith)

given_lem :
    (chunk : ℕ) (m : SubServers)
    → chunk * priorities m < u64_mod
    → given m (give_all chunk m) ≡ chunk * priorities m
unfolding given give_all priorities
given_lem chunk [] h = omega arith
given_lem chunk ((_, srv) ∷ m) h =
    let (p, d) = split_product chunk (automatic_priority srv) (priorities m) h in
    ground (arith, given_lem chunk m p, d)

given_same : (m : SubServers) → given m m ≡ 0
unfolding given
given_same [] = refl
given_same ((_, srv) ∷ m) = ground (arith, given_same m)

quotient_le : (a b : ℕ) → 0 < b → (a / b) * b ≤ a
quotient_le a b h = omega arith

-- The subservers without a size of their own get together at most all the memory of the server,
-- where that and the sum of their priorities fit in 64 bits.
pub given-allocate :
    (cfg : ApplicationConfig)
    → priorities cfg.sub_servers < u64_mod
    → cfg.memory.allocated < u64_mod
    → given cfg.sub_servers (allocate cfg).sub_servers ≤ cfg.memory.allocated
unfolding allocate
given-allocate cfg h k =
    let total = priorities cfg.sub_servers in
    let sum = priority_sum_lem 0 cfg.sub_servers (omega (arith, h)) in
    elim (Bool-cases (priority_sum 0 cfg.sub_servers == 0)) [
      | inl zero_sum ↦ rw zero_sum (omega (arith, given_same cfg.sub_servers))
      | inr some_sum ↦
          let positive : 0 < total = ground arith in
          let le = quotient_le cfg.memory.allocated total positive in
          let e = given_lem (cfg.memory.allocated / total) cfg.sub_servers (omega arith) in
          ground (arith, le, e)
    ]
