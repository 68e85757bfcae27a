-- ===== src/Threads/Semaphore/Shared.antt =====
-- The semaphore is that of every client of the directory.
use super_smack.Prelude.{
  ℕ, suc, ◌≡◌, refl, ap, Bool, true, false, Option, none, some, List, [], ◌∷◌, ◌==◌, Bool-cases,
  inl, inr, arith,
}
use super_smack.Result.{Result, ok, died, ◌>>=◌, semop_failed}
use super_smack.Threads.Semaphore.{
  Semaphores, value_of, set_value, without, remove, get, setup_pipe, lock_pipe_sem, unlock_pipe_sem,
  at_die, lock_at, unlock_at,
}

pub value_of-set_value :
    (id v u : ℕ) (vs : List (ℕ × ℕ))
    → value_of id vs ≡ some u
    → value_of id (set_value id v vs) ≡ some v
unfolding value_of set_value
value_of-set_value id v u [] h = cc
value_of-set_value id v u ((i, x) ∷ vs) h = elim (Bool-cases (i == id)) [
  | inl q ↦ rw (q, q) refl
  | inr q ↦ rw (q, q) (value_of-set_value id v u vs (rw (q, value_of) at h))
]

value_of-without : (id : ℕ) (vs : List (ℕ × ℕ)) → value_of id (without id vs) ≡ none
unfolding value_of without
value_of-without id [] = refl
value_of-without id ((i, x) ∷ vs) = elim (Bool-cases (i == id)) [
  | inl q ↦ rw q (value_of-without id vs)
  | inr q ↦ rw (q, q) (value_of-without id vs)
]

-- Once a process has died, its semaphore is gone.
pub value_of-at_die : (a : ℕ) (s : Semaphores) → value_of a (at_die (some a) s).values ≡ none
unfolding at_die remove
value_of-at_die a s = value_of-without a s.values

-- The semaphore that has the key is there.
abbrev pub IsPresent : Semaphores → Type 0
IsPresent s = (i : ℕ) → s.keyed ≡ some i → (v : ℕ) × (value_of i s.values ≡ some v)

-- What a set-up that comes back leaves.
abbrev IsFree : Result (ℕ × Semaphores) → Type 0
IsFree (ok (a, s)) = (s.keyed ≡ some a) × (value_of a s.values ≡ some 1)
IsFree _ = Unit

freed :
    (a : ℕ) (s : Semaphores) {v : ℕ}
    → s.keyed ≡ some a
    → value_of a s.values ≡ some v
    → IsFree (ok (a, record s { values = set_value a 1 s.values }))
freed a s k h = (k, value_of-set_value a 1 _ s.values h)

value_of_first : (i v : ℕ) (vs : List (ℕ × ℕ)) → value_of i ((i, v) ∷ vs) ≡ some v
unfolding value_of
value_of_first i v vs = ground arith

get-IsFree :
    (k : Option ℕ) (room : Bool) (s : Semaphores)
    → s.keyed ≡ k
    → IsPresent s
    → IsFree (do (id, s') ← get k room s; ok (id, record s' { values = set_value id 1 s'.values }))
unfolding get
get-IsFree (some i) room s e h = let (v, p) = h i e in freed i s e p
get-IsFree none true s e h =
    freed s.next
      (record s { keyed = some s.next; values = (s.next, 0) ∷ s.values; next = suc s.next }) refl
      (value_of_first s.next 0 s.values)
get-IsFree none false s e h = tt

locked :
    (a v : ℕ) (s : Semaphores)
    → value_of a s.values ≡ some (suc v)
    → lock_pipe_sem a s ≡ ok (some (record s { values = set_value a v s.values }))
unfolding lock_pipe_sem
locked a v s h = ap (λ (o : Option ℕ). lock_at o a s) h

waits : (a : ℕ) (s : Semaphores) → value_of a s.values ≡ some 0 → lock_pipe_sem a s ≡ ok none
unfolding lock_pipe_sem
waits a s h = ap (λ (o : Option ℕ). lock_at o a s) h

dead :
    (a : ℕ) (s : Semaphores)
    → (lock_pipe_sem a (at_die (some a) s) ≡ died semop_failed)
      × (unlock_pipe_sem a (at_die (some a) s) ≡ died semop_failed)
unfolding lock_pipe_sem unlock_pipe_sem at_die remove
dead a s =
    let gone = value_of-without a s.values in
    (
      ap (λ (o : Option ℕ). lock_at o a (remove a s)) gone,
      ap (λ (o : Option ℕ). unlock_at o a (remove a s)) gone,
    )

-- A set-up sets its semaphore to 1.
pub setup_pipe_free :
    (room : Bool) (s s1 : Semaphores) (a : ℕ)
    → IsPresent s
    → setup_pipe true room s ≡ ok (a, s1)
    → value_of a s1.values ≡ some 1
unfolding setup_pipe
setup_pipe_free room s s1 a h e =
    let free : IsFree (ok (a, s1)) = rw e at (get-IsFree s.keyed room s refl h) in free.1

-- After the set-up of a client, in a system where the semaphore that has the key, if any, is there,
-- one child gets the lock and the next one waits; the set-up of any further client gives it the same
-- semaphore and sets it free, so that a second child gets the lock too. Once a process of a client
-- has died, each call of `semop` fails.
pub setup_pipe_shared :
    (room room' : Bool) (s s1 : Semaphores) (a : ℕ)
    → IsPresent s
    → setup_pipe true room s ≡ ok (a, s1)
    → (s2 : Semaphores) × (s3 : Semaphores) × (s4 : Semaphores) × (lock_pipe_sem a s1
        ≡ ok (some s2))
      × (lock_pipe_sem a s2 ≡ ok none)
      × (setup_pipe true room' s2 ≡ ok (a, s3))
      × (lock_pipe_sem a s3 ≡ ok (some s4))
      × (lock_pipe_sem a (at_die (some a) s4) ≡ died semop_failed)
      × (unlock_pipe_sem a (at_die (some a) s4) ≡ died semop_failed)
unfolding setup_pipe get
setup_pipe_shared room room' s s1 a h e =
    let (k, free) : IsFree (ok (a, s1)) = rw e at (get-IsFree s.keyed room s refl h) in
    let s2 : Semaphores = record s1 { values = set_value a 0 s1.values } in
    let s3 : Semaphores = record s2 { values = set_value a 1 s2.values } in
    let s4 : Semaphores = record s3 { values = set_value a 0 s3.values } in
    let one = value_of-set_value a 0 1 s1.values free in
    let two = value_of-set_value a 1 0 s2.values one in
    let (no_lock, no_unlock) = dead a s4 in
    (
      s2,
      s3,
      s4,
      locked a 0 s1 free,
      waits a s2 one,
      ap
          (λ (o : Option ℕ). do
            (id, s') ← get o room' s2
            ok (id, record s' { values = set_value id 1 s'.values }))
          k,
      locked a 0 s3 two,
      no_lock,
      no_unlock,
    )
