-- ===== src/Engines/Ids.antt =====
-- The ids of engines: what a table built by `Engine::Engine` gives for a handle and for its id.
use super_smack.Prelude.{
  ℕ, zero, suc, ◌+◌, ◌<◌, ◌≡◌, ◌≢◌, ◌⊎◌, inl, inr, refl, sym, ==_iff, ◌&&◌, true, false, Option,
  none, some, List, [], ◌∷◌, arith, Bytes, replicate, length, Bool-cases, ◌==◌, ltb,
}
use super_smack.Engines.{
  Engine, free_slot, max_engines, register, id_in, creator_of, creator_at, engine_id, new_client,
  new_client_by_id, add_engine, new_engines,
}

module _ {ℓ} {Creator : Type ℓ} where
  -- Slots from index `i` on that are either free or hold the id one above their index.
  abbrev pub IsNumbered : ℕ → List (Engine Creator) → Type 0
  IsNumbered i [] = Unit
  IsNumbered i (e ∷ engines) = ((e.id ≡ 0) ⊎ (e.id ≡ i + 1)) × IsNumbered (i + 1) engines

module _ {ℓ} where
  pub replicate-IsNumbered :
      (Creator : Type ℓ) (n i : ℕ) → IsNumbered i (replicate n (free_slot {Creator = Creator}))
  replicate-IsNumbered Creator zero i = tt
  replicate-IsNumbered Creator (suc n) i = (inl refl, replicate-IsNumbered Creator n (i + 1))

module _ {ℓ} {Creator : Type ℓ} where
  pub register-IsNumbered :
      (i : ℕ) (e : Engine Creator) (engines : List (Engine Creator))
      → IsNumbered i engines
      → IsNumbered i (register i e engines)
  unfolding register
  register-IsNumbered i e [] h = tt
  register-IsNumbered i e (slot ∷ engines) h = elim (Bool-cases (slot.id == 0)) [
    | inl q ↦ rw q ((inr refl, h.1))
    | inr q ↦ rw q ((h.0, register-IsNumbered (i + 1) e engines h.1))
  ]

  pub length-register :
      (i : ℕ) (e : Engine Creator) (engines : List (Engine Creator))
      → length (register i e engines) ≡ length engines
  unfolding register
  length-register i e [] = refl
  length-register i e (slot ∷ engines) = ground (arith, length-register (i + 1) e engines)

  -- An id that a handle finds is above the index at which the slots begin.
  pub id_in-gt :
      (i : ℕ) (handle : Bytes) (engines : List (Engine Creator))
      → IsNumbered i engines
      → id_in handle engines ≢ 0
      → i < id_in handle engines
  unfolding id_in
  id_in-gt i handle [] h k = absurd (k refl)
  id_in-gt i handle (e ∷ engines) h k = ground (arith, id_in-gt (i + 1) handle engines h.1)

  -- The slot with the id that a handle finds is the slot that the handle finds.
  pub creator_at-id_in :
      (i : ℕ) (handle : Bytes) (engines : List (Engine Creator))
      → IsNumbered i engines
      → id_in handle engines ≢ 0
      → creator_at (id_in handle engines) engines ≡ creator_of handle engines
  unfolding id_in creator_at creator_of
  creator_at-id_in i handle [] h k = refl
  creator_at-id_in i handle (e ∷ engines) h k =
      ground
        (arith, id_in-gt (i + 1) handle engines h.1, creator_at-id_in (i + 1) handle engines h.1)

  pub creator_of-zero :
      (handle : Bytes) (engines : List (Engine Creator))
      → id_in handle engines ≡ 0
      → creator_of handle engines ≡ none
  unfolding id_in creator_of
  creator_of-zero handle [] h = refl
  creator_of-zero handle (e ∷ engines) h = ground (arith, creator_of-zero handle engines)

not_zero : (n : ℕ) → (n == 0) ≡ false → n ≢ 0
not_zero n h = ground arith

in_range : (n : ℕ) → (n == 0) ≡ false → n < max_engines → (ltb 0 n && ltb n max_engines) ≡ true
in_range n h k = ground arith

-- The tables that calls of the constructor make.
pub data IsTable {ℓ} (Creator : Type ℓ) : List (Engine Creator) → Type ℓ where
  no_engine : IsTable Creator new_engines
  one_more :
      {engines : List (Engine Creator)} (name handle : Bytes) (create : Creator)
      (version author : Bytes)
      → IsTable Creator engines
      → IsTable Creator (add_engine name handle create version author engines)

module _ {ℓ} {Creator : Type ℓ} where
  pub IsTable-IsNumbered :
      {engines : List (Engine Creator)} → IsTable Creator engines → IsNumbered 0 engines
  unfolding add_engine
  IsTable-IsNumbered no_engine = replicate-IsNumbered Creator max_engines 0
  IsTable-IsNumbered (one_more name handle create version author t) =
      register-IsNumbered 0 _ _ (IsTable-IsNumbered t)

  -- In a table that the constructor built, a client made by the id that a handle has, if that is
  -- below 64, is a client made by the handle, and there is neither if the handle has no id.
  pub new_client_by_id-engine_id :
      (handle : Option Bytes) (engines : List (Engine Creator))
      → IsTable Creator engines
      → engine_id handle engines < max_engines
      → new_client_by_id (engine_id handle engines) engines ≡ new_client handle engines
  unfolding new_client_by_id engine_id new_client
  new_client_by_id-engine_id none engines t h = refl
  new_client_by_id-engine_id (some handle) engines t h =
      elim (Bool-cases (id_in handle engines == 0)) [
        | inl q ↦
            let zero_id = (==_iff (id_in handle engines) 0).0 q in
            rw (zero_id) (sym (creator_of-zero handle engines zero_id))
        | inr q ↦ rw (in_range (id_in handle engines) q h) (
            creator_at-id_in 0 handle engines (IsTable-IsNumbered t)
              (not_zero (id_in handle engines) q))
      ]
