-- ===== src/Threads/Dying.antt =====
-- Children of `thread_sync` (src/client.cc) that may end by `die` (src/die.cc), with the semaphore
-- that they share, all clients of a directory; what goes through the pipe is left out.
pub mod Exclusive
mod Tests
use super_smack.Prelude.{
  ℕ, ◌+◌, ◌≤◌, ◌≡◌, ◌≢◌, refl, sym, ap, ◌∙◌, none, some, List, [], ◌∷◌, ◌++◌, arith, sum_by,
}
use super_smack.Result.{ok, died, semop_failed}
use super_smack.Threads.System.{
  Phase, unlocked, locked, time_written, report_written, closing, exited,
}
use super_smack.Threads.Semaphore.{
  Semaphores, value_of, lock_pipe_sem, unlock_pipe_sem, lock_at, unlock_at, at_die,
}
use super_smack.Threads.Semaphore.Shared.{value_of-at_die}

-- A child in a phase of `thread_sync`, or one that has died.
pub data Fate : Type 0 where
  alive : Phase → Fate
  dead : Fate

pub record Children : Type 0 where
  pub fates : List Fate
  pub sems : Semaphores

-- A call of a child that goes well; `id` is the `pipe_sem_id` of the client.
pub data GoesOn (id : ℕ) : Phase → Semaphores → Phase → Semaphores → Type 0 where
  lock_call :
      {s s' : Semaphores} → lock_pipe_sem id s ≡ ok (some s') → GoesOn id unlocked s locked s'
  time_call : {s : Semaphores} → GoesOn id locked s time_written s
  report_call : {s : Semaphores} → GoesOn id time_written s report_written s
  unlock_call :
      {s s' : Semaphores} → unlock_pipe_sem id s ≡ ok s' → GoesOn id report_written s closing s'
  exit_call : {s : Semaphores} → GoesOn id closing s exited s

-- A child that dies has not left yet.
pub data Dies (id : ℕ) (c : Children) : Children → Type 0 where
  dying :
      (xs ys : List Fate) (p : Phase)
      → c.fates ≡ xs ++ alive p ∷ ys
      → p ≢ exited
      → Dies id c (record { fates = xs ++ dead ∷ ys; sems = at_die (some id) c.sems })

pub data Event (id : ℕ) (c : Children) : Children → Type 0 where
  going :
      (xs ys : List Fate) {p q : Phase} {s : Semaphores}
      → c.fates ≡ xs ++ alive p ∷ ys
      → GoesOn id p c.sems q s
      → Event id c (record { fates = xs ++ alive q ∷ ys; sems = s })
  death : {c' : Children} → Dies id c c' → Event id c c'

pub data Later (id : ℕ) (c : Children) : Children → Type 0 where
  now : Later id c c
  next : {d e : Children} → Later id c d → Event id d e → Later id c e

-- Whether a child has had the lock and is not dead.
abbrev pub served : Fate → ℕ
served (alive unlocked) = 0
served (alive p) = 1
served dead = 0

sum_by-append : (xs ys : List Fate) → sum_by served (xs ++ ys) ≡ sum_by served xs + sum_by served ys
sum_by-append [] ys = omega arith
sum_by-append (x ∷ xs) ys = ap (λ n. served x + n) (sum_by-append xs ys) ∙ omega arith

replaced :
    (xs ys : List Fate) (f g : Fate)
    → served g ≤ served f
    → sum_by served (xs ++ g ∷ ys) ≤ sum_by served (xs ++ f ∷ ys)
replaced xs ys f g h = rw (sum_by-append xs (g ∷ ys), sum_by-append xs (f ∷ ys)) (omega (arith, h))

module _ (id : ℕ) where
  -- The semaphore is gone.
  abbrev pub IsGone : Semaphores → Type 0
  IsGone s = value_of id s.values ≡ none

  goes_on :
      {p q : Phase} {s s' : Semaphores}
      → IsGone s
      → GoesOn id p s q s'
      → IsGone s' × (served (alive q) ≤ served (alive p))
  unfolding lock_pipe_sem unlock_pipe_sem
  goes_on gone (lock_call {s} e) =
      let failed : lock_pipe_sem id s ≡ died semop_failed = ap (λ o. lock_at o id s) gone in cc
  goes_on gone time_call = (gone, omega arith)
  goes_on gone report_call = (gone, omega arith)
  goes_on gone (unlock_call {s} e) =
      let failed : unlock_pipe_sem id s ≡ died semop_failed = ap (λ o. unlock_at o id s) gone in cc
  goes_on gone exit_call = (gone, omega arith)

  event :
      {c d : Children}
      → IsGone c.sems
      → Event id c d
      → IsGone d.sems × (sum_by served d.fates ≤ sum_by served c.fates)
  event gone (going xs ys {p} {q} e call) =
      let (g, h) = goes_on gone call in (g, rw e (replaced xs ys (alive p) (alive q) h))
  event {c} gone (death (dying xs ys p e n)) =
      (value_of-at_die id c.sems, rw e (replaced xs ys (alive p) dead (omega arith)))

  later :
      {c d : Children}
      → IsGone c.sems
      → Later id c d
      → IsGone d.sems × (sum_by served d.fates ≤ sum_by served c.fates)
  later gone now = (gone, omega arith)
  later gone (next l e) =
      let (g, h) = later gone l in let (g', h') = event g e in (g', omega (arith, h, h'))

  -- Once a child has died, each call of `semop` fails, and whatever the children do then, no more of
  -- them than before it died have had the lock and live.
  pub later_served :
      {c d e : Children}
      → Dies id c d
      → Later id d e
      → (sum_by served e.fates ≤ sum_by served c.fates)
        × (lock_pipe_sem id e.sems ≡ died semop_failed)
        × (unlock_pipe_sem id e.sems ≡ died semop_failed)
  unfolding lock_pipe_sem unlock_pipe_sem
  later_served {c} {d} {e} (dying xs ys p q n) l =
      let (g, h) = later (value_of-at_die id c.sems) l in
      let fewer : sum_by served (xs ++ dead ∷ ys) ≤ sum_by served c.fates =
        rw q (replaced xs ys (alive p) dead (omega arith)) in
      (omega (arith, h, fewer), ap (λ o. lock_at o id e.sems) g, ap (λ o. unlock_at o id e.sems) g)
