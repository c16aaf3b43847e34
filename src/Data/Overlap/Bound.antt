-- ===== src/Data/Overlap/Bound.antt =====
-- How far overlapping calls of SaveData can count beyond the chunks of a file.
use mhserver.Common.{
  ℕ, ◌+◌, ◌≤◌, ◌<◌, ◌≡◌, refl, ◌∙◌, ap, some, false, List, [], ◌∷◌, ◌++◌, length, length-append,
  arith, inl, inr, Bool-cases, ◌==◌, if◌then◌else◌,
}
use mhserver.Common.Dict.{lookup-AllValues, lookup, nat_eq, NodupKeys, insert-NodupKeys}
use mhserver.Data.Connections.{Uuid, Connection, update_expiration}
use mhserver.Data.Connections.Laws.{IsValid, IsWithin, get_lem, lookup-get}
use mhserver.Data.Semaphore.{has_room, released}
use mhserver.Data.Server.{Env}
use mhserver.Data.Service.{Event, step}
use mhserver.Data.Service.Invariant.{step-sem}
use mhserver.Data.Overlap.{
  Pending, Shared, Step, begins, refuses, ends, passes, Reach, here, next, finish,
}
use mhserver.Data.Overlap.Follows.{Follows, Follows-NodupKeys, follows}
use mhserver.Data.Overlap.Calls.{step-Follows, step_blocked}
use mhserver.Data.Overlap.Steps.{IsBegun, begin_ok, begin_err, finish_lem, finish_loads}

module _ (env : Env) where
  -- The calls that wait with a chunk for this connection.
  abbrev pub waiting : Uuid → List (Pending env) → ℕ
  waiting id [] = 0
  waiting id (p ∷ ps) = (if p.id == id then 1 else 0) + waiting id ps

  waiting-le-length : (id : Uuid) (ps : List (Pending env)) → waiting id ps ≤ length ps
  waiting-le-length id [] = omega arith
  waiting-le-length id (p ∷ ps) = ground (arith, waiting-le-length id ps)

  waiting-append :
      (id : Uuid) (ps qs : List (Pending env))
      → waiting id (ps ++ qs) ≡ waiting id ps + waiting id qs
  waiting-append id [] qs = omega arith
  waiting-append id (p ∷ ps) qs = omega (arith, waiting-append id ps qs)

  -- The places that are taken are those of the pending calls, and each connection has a bound on what is
  -- counted and what is still going to be counted.
  pub record Inv (cap : ℕ) (x : Shared env) : Type 0 where
    pub sized : x.server.sem.capacity ≡ cap
    pub held : x.server.sem.in_use ≡ length x.pending
    pub within : x.server.sem.in_use ≤ cap
    pub unique : NodupKeys x.server.active_connections
    pub bounded :
        (id : Uuid) (c : Connection env.os.Handle)
        → lookup id x.server.active_connections ≡ some c
        → c.file.chunks.loaded + waiting id x.pending < c.file.chunks.count + cap

  followed :
      (cap : ℕ) (x y : Shared env)
      → Inv cap x
      → x.server.sem.in_use < cap
      → Follows x.server.active_connections y.server.active_connections
      → y.server.sem ≡ x.server.sem
      → y.pending ≡ x.pending
      → Inv cap y
  followed cap x y inv room (follows f) same_sem same_pending =
      let (unique, from) = f inv.unique in
      record {
        sized = rw same_sem inv.sized;
        held = rw (same_sem, same_pending) inv.held;
        within = rw same_sem inv.within;
        unique = unique;
        bounded = λ id c e.
            let few = waiting-le-length id x.pending in
            rw same_pending (elim (from id c e) [
              | inr within ↦ omega (arith, few, inv.held)
              | inl (old, found, loaded, count) ↦
                  omega (arith, inv.bounded id old found, loaded, count)
            ]);
      }

  begins-Inv :
      (cap now : ℕ) (p : Pending env) (x y : Shared env)
      → Inv cap x
      → IsBegun env now p x.server y.server
      → y.pending ≡ p ∷ x.pending
      → Inv cap y
  unfolding update_expiration
  begins-Inv cap now p x y inv b more =
      let m = x.server.active_connections in
      let m' = y.server.active_connections in
      let (old, stored, ec, em) = get_lem p.id now m m' b.conn b.found in
      record {
        sized = ap (λ sem. sem.capacity) b.place ∙ inv.sized;
        held = rw (b.place, more) (omega (arith, inv.held));
        within = rw b.place (omega (arith, b.room, inv.sized));
        unique = rw em (insert-NodupKeys p.id b.conn m inv.unique);
        bounded = λ id c e.
            let few = waiting-le-length id x.pending in
            rw more (elim (nat_eq.dec p.id id) [
              | yes same ↦
                  let ed : c ≡ b.conn =
                    ground (arith, lookup-get p.id id now m m' b.conn b.found, same) in
                  let incomplete : c.file.chunks.loaded < c.file.chunks.count =
                    rw ed b.incomplete in
                  ground (arith, few, inv.held, b.room, inv.sized)
              | no other ↦
                  let before : lookup id m ≡ some c =
                    ground (arith, lookup-get p.id id now m m' b.conn b.found, other) in
                  ground (arith, inv.bounded id c before, other)
            ]);
      }

  ends-Inv :
      (cap later : ℕ) (before after : List (Pending env)) (p : Pending env) (x y : Shared env)
      → Inv cap x
      → x.pending ≡ before ++ (p ∷ after)
      → y.server ≡ (finish env later p x.server).0
      → y.pending ≡ before ++ after
      → Inv cap y
  unfolding update_expiration
  ends-Inv cap later before after p x y inv was done less =
      let m = x.server.active_connections in
      let m' = y.server.active_connections in
      let counts = finish_loads env later p x.server inv.unique in
      let (sem, _) = finish_lem env later p x.server in
      let place : y.server.sem ≡ released x.server.sem = ap (λ s. s.sem) done ∙ sem in
      let in_all : (id : Uuid) → waiting id x.pending ≡ waiting id before + waiting id (p ∷ after) =
        λ id. ap (waiting id) was ∙ waiting-append id before (p ∷ after) in
      let in_rest : (id : Uuid) → waiting id y.pending ≡ waiting id before + waiting id after =
        λ id. ap (waiting id) less ∙ waiting-append id before after in
      let long = ap length was ∙ length-append before (p ∷ after) in
      let short = ap length less ∙ length-append before after in
      record {
        sized = ap (λ sem'. sem'.capacity) place ∙ inv.sized;
        held = ground (arith, place, inv.held, long, short);
        within = ground (arith, place, inv.within);
        unique = rw done counts.0;
        bounded = λ id c e.
            let (old, found, loaded, count) = counts.1 id c (rw (← done) e) in
            ground (arith, inv.bounded id old found, loaded, count, in_all id, in_rest id);
      }

  -- A call that finds no place blocks, and the cleaner only removes connections.
  stands :
      (cap : ℕ) (e : Event) (x y : Shared env)
      → Inv cap x
      → has_room x.server.sem ≡ false
      → y.server ≡ step env e x.server
      → y.pending ≡ x.pending
      → Inv cap y
  stands cap e x y inv full server same =
      let same_sem : y.server.sem ≡ x.server.sem =
        ap (λ s. s.sem) server ∙ (step-sem env e x.server).0 in
      record {
        sized = rw same_sem inv.sized;
        held = rw (same_sem, same) inv.held;
        within = rw same_sem inv.within;
        unique = rw server (Follows-NodupKeys _ _ (step-Follows env e x.server) inv.unique);
        bounded = λ id c found. rw same (
            inv.bounded id c
              (step_blocked env e x.server id c full inv.unique (rw (← server) found)));
      }

  Step-Inv : (cap : ℕ) (x y : Shared env) → Inv cap x → Step env x y → Inv cap y
  Step-Inv cap x y inv (begins now chunk p e server more) =
      let b = begin_ok env now chunk p x.server e in
      begins-Inv cap now p x y inv (rw (← server) at b) more
  Step-Inv cap x y inv (refuses now chunk e h server same) =
      let (room, sem, f) = begin_err env now chunk e x.server h in
      followed cap x y inv (omega (arith, inv.sized)) (rw server f) (rw server sem) same
  Step-Inv cap x y inv (ends later before after p was server less) =
      ends-Inv cap later before after p x y inv was server less
  Step-Inv cap x y inv (passes e server same) = elim (Bool-cases (has_room x.server.sem)) [
    | inl room ↦
        followed cap x y inv (ground (arith, inv.sized)) (rw server (step-Follows env e x.server))
          (rw server (step-sem env e x.server).0) same
    | inr full ↦ stands cap e x y inv full server same
  ]

  Reach-Inv : (cap : ℕ) (x y : Shared env) → Inv cap x → Reach env x y → Inv cap y
  Reach-Inv cap x y inv here = inv
  Reach-Inv cap x z inv (next {y} r st) = Step-Inv cap y z (Reach-Inv cap x y inv r) st

  -- Where calls of SaveData overlap, with any other calls and rounds of the cleaner between their steps, a
  -- connection never counts as many chunks beyond those of its file as the semaphore has places, also
  -- with those that are still going to be counted; and never more calls are pending than there are places.
  pub overlap_bounded :
      (x y : Shared env) (id : Uuid) (c : Connection env.os.Handle)
      → IsValid x.server.active_connections
      → x.pending ≡ []
      → x.server.sem.in_use ≡ 0
      → 0 < x.server.sem.capacity
      → Reach env x y
      → lookup id y.server.active_connections ≡ some c
      → (c.file.chunks.loaded + waiting id y.pending < c.file.chunks.count + x.server.sem.capacity)
        × (length y.pending ≤ x.server.sem.capacity)
  overlap_bounded x y id c (unique, all) quiet free positive r found =
      let inv : Inv x.server.sem.capacity x = record {
        sized = refl;
        held = omega (arith, ap length quiet, free);
        within = omega arith;
        unique = unique;
        bounded = λ k d e.
            rw quiet
              (omega (arith, lookup-AllValues IsWithin k x.server.active_connections d all e));
      } in
      let inv' = Reach-Inv x.server.sem.capacity x y inv r in
      (inv'.bounded id c found, omega (arith, inv'.held, inv'.within))
