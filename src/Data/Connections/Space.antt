-- ===== src/Data/Connections/Space.antt =====
-- The disk space that is reserved for chunks which are still to come.
use mhserver.Common.{
  ℕ, ◌+◌, ◌-◌, ◌*◌, ◌%◌, ◌<◌, ◌≡◌, ◌∙◌, [], ◌∷◌, arith, if◌then◌else◌, inl, inr, Bool-cases,
}
use mhserver.Common.Dict.{AllValues, nat_eq}
use mhserver.Common.Words.{u32_mod, u64_mod, add64}
use mhserver.Data.Connections.{
  Connection, Connections, is_rdonly, unsaved, saved_from, expected_saved_space,
}
use mhserver.Data.Connections.Laws.{IsWithin, IsValid}

module _ {H : Type 0} where
  -- The number of chunks is a uint32.
  abbrev pub HasCount : Connection H → Type 0
  HasCount c = c.file.chunks.count < u32_mod

  abbrev pub AllCounts : Connections H → Type 0
  AllCounts m = AllValues HasCount m

  -- The bytes of all chunks that are not loaded, over the connections that save.
  abbrev still_to_save : Connection H → ℕ
  still_to_save c =
      if is_rdonly c.mode
      then 0
      else c.file.chunks.chunk_size * (c.file.chunks.count - c.file.chunks.loaded)

  pub unsaved_bytes : Connections H → ℕ
  unsaved_bytes [] = 0
  unsaved_bytes ((_, c) ∷ m) = still_to_save c + unsaved_bytes m

  unsaved_lem :
      (c : Connection H)
      → IsWithin c
      → HasCount c
      → unsaved c
        ≡ (c.file.chunks.chunk_size * (c.file.chunks.count - c.file.chunks.loaded)) % u64_mod
  unsaved_lem c h k =
      let e : (c.file.chunks.count + u32_mod - c.file.chunks.loaded) % u32_mod
          ≡ c.file.chunks.count - c.file.chunks.loaded =
        omega arith in
      rw e

  saved_from_lem :
      (res : ℕ) (m : Connections H)
      → AllValues IsWithin m
      → AllCounts m
      → res < u64_mod
      → saved_from res m ≡ (res + unsaved_bytes m) % u64_mod
  unfolding saved_from unsaved_bytes
  saved_from_lem res [] h k lt = omega arith
  saved_from_lem res ((id, c) ∷ m) (h, hs) (k, ks) lt = elim (Bool-cases (is_rdonly c.mode)) [
    | inl r ↦ rw r (saved_from_lem res m hs ks lt ∙ omega arith)
    | inr r ↦ rw r (
        saved_from_lem (add64 res (unsaved c)) m hs ks (omega arith)
        ∙ omega (arith, unsaved_lem c h k))
  ]

  -- For a valid map of connections whose counts fit in 32 bits, the program's sum is the number of
  -- bytes in the chunks that are still to be saved, over the connections that are not read-only,
  -- modulo 2 ^ 64.
  pub expected_saved_space_lem :
      (m : Connections H)
      → IsValid m
      → AllCounts m
      → expected_saved_space m ≡ unsaved_bytes m % u64_mod
  unfolding expected_saved_space
  expected_saved_space_lem m v k = omega (arith, saved_from_lem 0 m (v.1) k (omega arith))
