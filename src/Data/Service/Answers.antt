-- ===== src/Data/Service/Answers.antt =====
-- Which calls of the data service come to an end.
use mhserver.Common.{
  ◌≡◌, refl, ◌∙◌, ap, Bool, true, false, ◌&&◌, none, some, List, [], ◌∷◌, arith, Outcome, ok, err,
  panic, blocked, ℕ, ◌≤◌, inl, inr, Option-cases,
}
use mhserver.Common.Words.{max_alloc, can_make_bytes}
use mhserver.Data.Messages.{GetChunk}
use mhserver.Data.Service.Sizes.{
  largest_chunk, HasChunksWithin, get-AllAtMost, step-HasChunksWithin,
}
use mhserver.Data.Connections.{get, is_loaded}
use mhserver.Data.Semaphore.{has_room}
use mhserver.Data.Server.{Env, DataServer}
use mhserver.Data.Opening.{create_connection, open_file, register_connection}
use mhserver.Data.Transfer.{get_data, get_sum, save_data}
use mhserver.Data.Folders.{available_space, get_files, create_dir, remove_dir}
use mhserver.Data.Service.{
  Event, creates_connection, gets_data, gets_sum, saves_data, gets_space, gets_files, creates_dir,
  removes_dir, cleans, step,
}
use mhserver.Data.Service.Invariant.{step-sem}

-- A value or an error.
abbrev pub is_answer : {E A : Type 0} → Outcome E A → Bool
is_answer (ok a) = true
is_answer (err e) = true
is_answer panic = false
is_answer blocked = false

-- A message of SaveData with its field Data.
abbrev pub has_part : Event → Bool
has_part (saves_data now later chunk) = elim chunk.part [ none ↦ false | some part ↦ true ]
has_part e = true

abbrev pub all_have_parts : List Event → Bool
all_have_parts [] = true
all_have_parts (e ∷ es) = has_part e && all_have_parts es

module _ (env : Env) where
  unfoldable pub answered : Event → DataServer env.os → Bool
  answered (creates_connection id now req) s = is_answer (create_connection env id now req s).1
  answered (gets_data now chunk) s = is_answer (get_data env now chunk s).1
  answered (gets_sum now chunk) s = is_answer (get_sum env now chunk s).1
  answered (saves_data now later chunk) s = is_answer (save_data env now later chunk s).1
  answered (gets_space dir) s = is_answer (available_space env dir s).1
  answered (gets_files dir) s = is_answer (get_files env dir s).1
  answered (creates_dir dir) s = is_answer (create_dir env dir s).1
  answered (removes_dir dir) s = is_answer (remove_dir env dir s).1
  answered (cleans now) s = true

  -- Every call of a history is answered.
  unfoldable pub all_answered : List Event → DataServer env.os → Bool
  unfolding answered
  all_answered [] s = true
  all_answered (e ∷ es) s = answered e s && all_answered es (step env e s)

  -- No chunk that the configuration lets a file have makes make([]byte, ChunkSize) panic.
  abbrev pub CanMakeChunks : DataServer env.os → Type 0
  CanMakeChunks s = (largest_chunk s.cfg.memory ≤ max_alloc) × HasChunksWithin env s

  step-CanMakeChunks :
      (e : Event) (s : DataServer env.os) → CanMakeChunks s → CanMakeChunks (step env e s)
  step-CanMakeChunks e s (fits, within) =
      (rw (ap (λ c. c.memory) (step-sem env e s).1) fits, step-HasChunksWithin env e s within)

  read_answered :
      (now : ℕ) (chunk : GetChunk) (s : DataServer env.os)
      → has_room s.sem ≡ true
      → CanMakeChunks s
      → (is_answer (get_data env now chunk s).1 ≡ true)
        × (is_answer (get_sum env now chunk s).1 ≡ true)
  unfolding get_data get_sum
  read_answered now chunk s room (fits, within) = elim (Option-cases (env.parse_uuid chunk.uuid)) [
    | inl e ↦ ground (arith, e)
    | inr (id, e) ↦ elim (Option-cases (get id now s.active_connections)) [
      | inl e' ↦ ground (arith, e, e')
      | inr ((c, m), e') ↦
          let (_, small) =
            get-AllAtMost (largest_chunk s.cfg.memory) id now s.active_connections m c e' within in
          let can : can_make_bytes c.file.chunks.chunk_size ≡ true = ground arith in
          ground (arith, e, e', can)
    ]
  ]

  step_answered :
      (e : Event) (s : DataServer env.os)
      → has_room s.sem ≡ true
      → CanMakeChunks s
      → has_part e ≡ true
      → answered e s ≡ true
  unfolding answered create_connection open_file register_connection save_data available_space
      get_files create_dir remove_dir is_loaded
  step_answered (creates_connection id now req) s room made part = ground arith
  step_answered (gets_data now chunk) s room made part = (read_answered now chunk s room made).0
  step_answered (gets_sum now chunk) s room made part = (read_answered now chunk s room made).1
  step_answered (saves_data now later chunk) s room made part = ground arith
  step_answered (gets_space dir) s room made part = ground arith
  step_answered (gets_files dir) s room made part = ground arith
  step_answered (creates_dir dir) s room made part = ground arith
  step_answered (removes_dir dir) s room made part = ground arith
  step_answered (cleans now) s room made part = refl

  -- From a server with a free place, every call of every history comes to an end with a value or an
  -- error: none blocks and none panics, if each message of SaveData has its field Data, make can give
  -- the larger of the two configured chunk sizes, and no file that is open at the start has larger
  -- chunks than that.
  pub run_answered :
      (es : List Event) (s : DataServer env.os)
      → has_room s.sem ≡ true
      → CanMakeChunks s
      → all_have_parts es ≡ true
      → all_answered es s ≡ true
  unfolding all_answered
  run_answered [] s room made parts = refl
  run_answered (e ∷ es) s room made parts =
      let part : has_part e ≡ true = ground arith in
      let rest : all_have_parts es ≡ true = ground arith in
      let room' : has_room (step env e s).sem ≡ true = ap has_room (step-sem env e s).0 ∙ room in
      let made' = step-CanMakeChunks e s made in
      ground
        (arith, step_answered e s room made part, run_answered es (step env e s) room' made' rest)
