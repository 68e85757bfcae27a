-- ===== src/Threads/Dying/Tests.antt =====
-- Of three children the second one dies while it has the lock, and the first one leaves.
use super_smack.Prelude.{◌+◌, ◌≡◌, refl, ◌≤◌, true, none, some, [], ◌∷◌, sum_by}
use super_smack.Result.{ok, died, semop_failed}
use super_smack.Threads.System.{unlocked, locked, closing, exited}
use super_smack.Threads.Semaphore.{
  Semaphores, value_of, set_value, get, setup_pipe, lock_pipe_sem, unlock_pipe_sem, at_die,
}
use super_smack.Threads.Semaphore.Shared.{IsPresent}
use super_smack.Threads.Dying.Exclusive.{holds, mutual_exclusion}
use super_smack.Threads.Dying.{
  Children, alive, dead, Dies, dying, Later, now, next, going, exit_call, lock_call, death, served,
  later_served,
}

abbrev three : Children
three = record {
  fates = alive closing ∷ alive locked ∷ alive unlocked ∷ [];
  sems = record { keyed = some 4; values = (4, 0) ∷ []; next = 5 };
}

abbrev after_death : Children
after_death = record {
  fates = alive closing ∷ dead ∷ alive unlocked ∷ [];
  sems = at_die (some 4) three.sems;
}

abbrev left : Children
left = record { fates = alive exited ∷ dead ∷ alive unlocked ∷ []; sems = after_death.sems }

dies : Dies 4 three after_death
dies = dying (alive closing ∷ []) (alive unlocked ∷ []) locked refl cc

goes : Later 4 after_death left
goes = next now (going [] (dead ∷ alive unlocked ∷ []) refl exit_call)

later_served_example :
    (sum_by served left.fates ≤ sum_by served three.fates)
    × (lock_pipe_sem 4 left.sems ≡ died semop_failed)
    × (unlock_pipe_sem 4 left.sems ≡ died semop_failed)
later_served_example = later_served 4 dies goes

-- A system with no semaphore, and one after a set-up.
abbrev empty : Semaphores
empty = record { keyed = none; values = []; next = 4 }

abbrev set_up : Semaphores
set_up = record { keyed = some 4; values = (4, 1) ∷ []; next = 5 }

abbrev taken : Semaphores
taken = record { keyed = some 4; values = (4, 0) ∷ []; next = 5 }

is_set_up : setup_pipe true true empty ≡ ok (4, set_up)
unfolding setup_pipe get set_value
is_set_up = refl

empty-IsPresent : IsPresent empty
empty-IsPresent i e = cc e

abbrev two : Children
two = record { fates = alive unlocked ∷ alive unlocked ∷ []; sems = set_up }

abbrev one_holds : Children
one_holds = record { fates = alive locked ∷ alive unlocked ∷ []; sems = taken }

abbrev one_died : Children
one_died = record { fates = alive locked ∷ dead ∷ []; sems = at_die (some 4) taken }

first_locks : Later 4 two one_holds
unfolding lock_pipe_sem value_of set_value
first_locks = next now (going [] (alive unlocked ∷ []) refl (lock_call refl))

second_dies : Later 4 two one_died
second_dies = next first_locks (death (dying (alive locked ∷ []) [] unlocked refl cc))

mutual_exclusion_example : holds (alive locked) + holds dead ≤ 1
mutual_exclusion_example =
    mutual_exclusion 4 true empty [] [] [] (alive locked) dead empty-IsPresent is_set_up refl
      second_dies refl
