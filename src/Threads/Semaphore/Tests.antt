-- ===== src/Threads/Semaphore/Tests.antt =====
-- Two clients on a system with no semaphore yet.
use super_smack.Prelude.{◌≡◌, refl, true, none, some, [], ◌∷◌}
use super_smack.Result.{ok, died, semop_failed}
use super_smack.Threads.Semaphore.{
  Semaphores, get, set_value, setup_pipe, lock_pipe_sem, unlock_pipe_sem, at_die,
}
use super_smack.Threads.Semaphore.Shared.{setup_pipe_shared}

abbrev bare : Semaphores
bare = record { keyed = none; values = []; next = 4 }

abbrev ready : Semaphores
ready = record { keyed = some 4; values = (4, 1) ∷ []; next = 5 }

setup_pipe_shared_example :
    (s2 : Semaphores) × (s3 : Semaphores) × (s4 : Semaphores) × (lock_pipe_sem 4 ready
      ≡ ok (some s2))
    × (lock_pipe_sem 4 s2 ≡ ok none)
    × (setup_pipe true true s2 ≡ ok (4, s3))
    × (lock_pipe_sem 4 s3 ≡ ok (some s4))
    × (lock_pipe_sem 4 (at_die (some 4) s4) ≡ died semop_failed)
    × (unlock_pipe_sem 4 (at_die (some 4) s4) ≡ died semop_failed)
unfolding setup_pipe get set_value
setup_pipe_shared_example = setup_pipe_shared true true bare ready 4 (λ i e. cc) refl
