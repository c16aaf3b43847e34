-- ===== src/Config/Application/Limits.antt =====
-- What a loaded configuration guarantees.
use mhserver.Common.{
  ◌≤◌, ◌≡◌, ◌⊎◌, ◌↔◌, refl, subst, false, none, some, [], ◌∷◌, arith, ok, codes, inl, inr,
  Option-cases,
}
use mhserver.Common.Dict.{lookup, AllValues, text_eq}
use mhserver.Config.{MemoryConfig}
use mhserver.Config.Application.{
  ApplicationConfig, SubServer, SubServers, min_allocated_memory, check_subservers,
  check_memory_incompatibility, init, allocate,
}

-- A subserver that is off, or has room for a request and not more than the whole server.
abbrev pub IsFit : MemoryConfig → SubServer → Type 0
IsFit memory srv =
    (srv.enabled ≡ false)
    ⊎ ((min_allocated_memory memory ≤ srv.extra.allocated_memory)
        × (srv.extra.allocated_memory ≤ memory.allocated))

check_iff :
    (memory : MemoryConfig) (m : SubServers)
    → (check_subservers memory m ≡ none) ↔ AllValues (IsFit memory) m
unfolding check_subservers
check_iff memory [] = ((λ _. tt), (λ _. refl))
check_iff memory ((n, s) ∷ m) = let (there, back) = check_iff memory m in ground arith

-- Loading a decoded configuration succeeds exactly if there is a main server and every enabled
-- subserver has, after the memory is shared out, from one largest chunk and 1024 bytes (in
-- 64 bits) up to all the memory of the server; it gives the configuration with the memory shared out.
pub init_iff :
    (cfg cfg' : ApplicationConfig)
    → (init (some cfg) ≡ ok cfg') ↔ (
        ((main : SubServer) × (lookup (codes "main") cfg.sub_servers ≡ some main))
        × (cfg' ≡ allocate cfg)
        × AllValues (IsFit cfg'.memory) cfg'.sub_servers)
unfolding init check_memory_incompatibility
init_iff cfg cfg' = elim (Option-cases (lookup (codes "main") cfg.sub_servers)) [
  | inl e ↦ (
    (λ ok_cfg. absurd (ground (arith, e))),
    (λ ((main, found), _, _). absurd (ground (arith, e, found))),
  )
  | inr (main, e) ↦
      let after = allocate cfg in
      let (there, back) = check_iff after.memory after.sub_servers in
      elim (Option-cases (check_subservers after.memory after.sub_servers)) [
        | inl fit ↦ (
          (λ ok_cfg.
              let same : cfg' ≡ after = ground (arith, e, fit) in
              ((main, e), same, rw same (there fit))),
          (λ (_, same, _). rw same (ground (arith, e, fit))),
        )
        | inr (x, unfit) ↦ (
          (λ ok_cfg. absurd (ground (arith, e, unfit))),
          (λ (_, same, all_fit).
              let all_after : AllValues (IsFit after.memory) after.sub_servers =
                subst (λ c. AllValues (IsFit c.memory) c.sub_servers) same all_fit in
              absurd (ground (arith, unfit, back all_after))),
        )
      ]
]
