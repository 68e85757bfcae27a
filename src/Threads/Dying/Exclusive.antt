-- ===== src/Threads/Dying/Exclusive.antt =====
-- The lock of `lock_pipe_sem` and `unlock_pipe_sem` (src/client.cc), which the children of all
-- clients of a directory share, and some of whom may die.
use super_smack.Prelude.{
  ℕ, zero, suc, ◌+◌, ◌≤◌, ◌≡◌, refl, sym, ap, ◌∙◌, Bool, true, Option, none, some, List, [], ◌∷◌,
  ◌++◌, arith, sum_by,
}
use super_smack.Result.{ok, ok_injective}
use super_smack.Threads.System.{Phase}
use super_smack.Threads.Queue.{is_critical}
use super_smack.Threads.Semaphore.{
  Semaphores, value_of, setup_pipe, lock_pipe_sem, unlock_pipe_sem, lock_at, unlock_at,
}
use super_smack.Threads.Semaphore.Shared.{
  IsPresent, setup_pipe_free, value_of-set_value, value_of-at_die,
}
use super_smack.Threads.Dying.{
  Fate, alive, dead, Children, GoesOn, lock_call, time_call, report_call, unlock_call, exit_call,
  Event, going, death, dying, Later, now, next,
}

-- Whether a child has the lock: it is between the two calls of `semop`.
abbrev pub holds : Fate → ℕ
holds (alive p) = is_critical p
holds dead = 0

sum_by-append : (xs ys : List Fate) → sum_by holds (xs ++ ys) ≡ sum_by holds xs + sum_by holds ys
sum_by-append [] ys = omega arith
sum_by-append (x ∷ xs) ys = ap (λ n. holds x + n) (sum_by-append xs ys) ∙ omega arith

-- The value of the semaphore, and those who have the lock: together one, as long as it is there.
abbrev IsShared : Option ℕ → ℕ → Type 0
IsShared (some v) k = v + k ≡ 1
IsShared none k = k ≤ 1

at_most_one : (o : Option ℕ) (k : ℕ) → IsShared o k → k ≤ 1
at_most_one none k h = h
at_most_one (some v) k h = omega (arith, h)

some_injective : {s t : Semaphores} → some s ≡ some t → s ≡ t
some_injective e = cc

module _ (id : ℕ) where
  -- `k` others have the lock.
  locks :
      (o : Option ℕ) (s s' : Semaphores) (k : ℕ)
      → value_of id s.values ≡ o
      → lock_at o id s ≡ ok (some s')
      → IsShared o (0 + k)
      → IsShared (value_of id s'.values) (1 + k)
  locks none s s' k q e h = cc e
  locks (some zero) s s' k q e h = cc e
  locks (some (suc v)) s s' k q e h =
      rw
        (sym (ap (λ (t : Semaphores). value_of id t.values) (some_injective (ok_injective e)))
          ∙ value_of-set_value id v (suc v) s.values q)
        (omega (arith, h))

  unlocks :
      (o : Option ℕ) (s s' : Semaphores) (k : ℕ)
      → value_of id s.values ≡ o
      → unlock_at o id s ≡ ok s'
      → IsShared o (1 + k)
      → IsShared (value_of id s'.values) (0 + k)
  unlocks none s s' k q e h = cc e
  unlocks (some v) s s' k q e h =
      rw
        (sym (ap (λ (t : Semaphores). value_of id t.values) (ok_injective e))
          ∙ value_of-set_value id (suc v) v s.values q)
        (omega (arith, h))

  GoesOn-IsShared :
      {p q : Phase} {s s' : Semaphores} (k : ℕ)
      → GoesOn id p s q s'
      → IsShared (value_of id s.values) (is_critical p + k)
      → IsShared (value_of id s'.values) (is_critical q + k)
  unfolding lock_pipe_sem unlock_pipe_sem
  GoesOn-IsShared k (lock_call {s} {s'} e) h = locks (value_of id s.values) s s' k refl e h
  GoesOn-IsShared k time_call h = h
  GoesOn-IsShared k report_call h = h
  GoesOn-IsShared k (unlock_call {s} {s'} e) h = unlocks (value_of id s.values) s s' k refl e h
  GoesOn-IsShared k exit_call h = h

  abbrev IsExclusive : Children → Type 0
  IsExclusive c = IsShared (value_of id c.sems.values) (sum_by holds c.fates)

  Event-IsExclusive : {c d : Children} → IsExclusive c → Event id c d → IsExclusive d
  Event-IsExclusive {c} h (going xs ys {p} {q} {s} e call) =
      let others = sum_by holds xs + sum_by holds ys in
      let before : sum_by holds c.fates ≡ is_critical p + others =
        ap (sum_by holds) e ∙ sum_by-append xs (alive p ∷ ys) ∙ omega arith in
      let after : sum_by holds (xs ++ alive q ∷ ys) ≡ is_critical q + others =
        sum_by-append xs (alive q ∷ ys) ∙ omega arith in
      rw after (GoesOn-IsShared others call (rw before at h))
  Event-IsExclusive {c} h (death (dying xs ys p e n)) =
      let few : sum_by holds c.fates ≤ 1 = at_most_one _ _ h in
      let before = ap (sum_by holds) e ∙ sum_by-append xs (alive p ∷ ys) in
      rw (value_of-at_die id c.sems) (omega (arith, few, before, sum_by-append xs (dead ∷ ys)))

  Later-IsExclusive : {c d : Children} → IsExclusive c → Later id c d → IsExclusive d
  Later-IsExclusive h now = h
  Later-IsExclusive h (next l e) = Event-IsExclusive (Later-IsExclusive h l) e

  -- After a set-up of the semaphore, in a system where the one that has the key, if any, is there,
  -- and with no child that has the lock then, at most one of any two children has it, whatever
  -- calls and deaths of the children come, as long as no client sets it up again or cleans it up.
  pub mutual_exclusion :
      (room : Bool) (s : Semaphores) {c d : Children} (xs ys zs : List Fate) (f g : Fate)
      → IsPresent s
      → setup_pipe true room s ≡ ok (id, c.sems)
      → sum_by holds c.fates ≡ 0
      → Later id c d
      → d.fates ≡ xs ++ f ∷ (ys ++ g ∷ zs)
      → holds f + holds g ≤ 1
  mutual_exclusion room s {c} {d} xs ys zs f g present set none_holds l split =
      let start : IsExclusive c =
        rw (setup_pipe_free room s c.sems id present set, none_holds) refl in
      omega (
        arith,
        at_most_one _ _ (Later-IsExclusive start l),
        ap (sum_by holds) split,
        sum_by-append xs (f ∷ (ys ++ g ∷ zs)),
        sum_by-append ys (g ∷ zs),
      )
