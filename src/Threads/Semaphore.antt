-- ===== src/Threads/Semaphore.antt =====
-- The set-up of the semaphore and its calls: `setup_pipe`, `lock_pipe_sem`, `unlock_pipe_sem` and
-- `clean_up` of src/client.cc, and what `die` of src/die.cc does with it. All clients of a
-- directory have the key that `ftok(".", 's')` gives.
mod Tests
pub mod Shared
use super_smack.Prelude.{
  ℕ, zero, suc, Bool, true, false, Option, none, some, List, [], ◌∷◌, if◌then◌else◌, ◌==◌,
}
use super_smack.Result.{Result, ok, died, ◌>>=◌, no_pipe, no_semaphore, semop_failed}

-- The semaphores of the system that clients make: which number has the key, and the values of those
-- that are there.
pub record Semaphores : Type 0 where
  pub keyed : Option ℕ
  pub values : List (ℕ × ℕ)
  -- the number of the next one
  pub next : ℕ

unfoldable pub value_of : ℕ → List (ℕ × ℕ) → Option ℕ
value_of id [] = none
value_of id ((i, v) ∷ vs) = if i == id then some v else value_of id vs

-- `semctl(id, 0, SETVAL, …)`, which fails unseen where there is no such semaphore.
unfoldable pub set_value : ℕ → ℕ → List (ℕ × ℕ) → List (ℕ × ℕ)
set_value id v [] = []
set_value id v ((i, u) ∷ vs) = if i == id then (i, v) ∷ vs else (i, u) ∷ set_value id v vs

unfoldable pub without : ℕ → List (ℕ × ℕ) → List (ℕ × ℕ)
without id [] = []
without id ((i, u) ∷ vs) = if i == id then without id vs else (i, u) ∷ without id vs

abbrev pub unkeyed : ℕ → Option ℕ → Option ℕ
unkeyed id none = none
unkeyed id (some i) = if i == id then none else some i

-- `semctl(id, 0, IPC_RMID, 0)`
unfoldable pub remove : ℕ → Semaphores → Semaphores
remove id s = record s { keyed = unkeyed id s.keyed; values = without id s.values }

-- `semget(sem_key, 0, 0666)`, of what has the key, and `semget(sem_key, 1, IPC_CREAT|IPC_EXCL|0666
-- )` where it fails; `room` is whether the system has one more.
unfoldable pub get : Option ℕ → Bool → Semaphores → Result (ℕ × Semaphores)
get (some id) room s = ok (id, s)
get none true s =
    ok
      (s.next, record s { keyed = some s.next; values = (s.next, 0) ∷ s.values; next = suc s.next })
get none false s = died no_semaphore

-- What a client keeps of the set-up: `pipe_sem_id`, which is `kill_sem_id` too; `none` is -1.
-- `setup_pipe`; `piped` is whether `pipe` comes back with one.
unfoldable pub setup_pipe : Bool → Bool → Semaphores → Result (ℕ × Semaphores)
setup_pipe piped room s =
    if piped
    then (do
      (id, s') ← get s.keyed room s
      ok (id, record s' { values = set_value id 1 s'.values }))
    else died no_pipe

-- `semop` with -1, of the value: it waits (`none`) where that is zero, and fails where there is
-- none.
abbrev pub lock_at : Option ℕ → ℕ → Semaphores → Result (Option Semaphores)
lock_at none id s = died semop_failed
lock_at (some zero) id s = ok none
lock_at (some (suc v)) id s = ok (some (record s { values = set_value id v s.values }))

unfoldable pub lock_pipe_sem : ℕ → Semaphores → Result (Option Semaphores)
lock_pipe_sem id s = lock_at (value_of id s.values) id s

abbrev pub unlock_at : Option ℕ → ℕ → Semaphores → Result Semaphores
unlock_at none id s = died semop_failed
unlock_at (some v) id s = ok (record s { values = set_value id (suc v) s.values })

unfoldable pub unlock_pipe_sem : ℕ → Semaphores → Result Semaphores
unlock_pipe_sem id s = unlock_at (value_of id s.values) id s

-- What `die` does with `kill_sem_id` before it exits.
unfoldable pub at_die : Option ℕ → Semaphores → Semaphores
at_die none s = s
at_die (some kill_sem_id) s = remove kill_sem_id s

-- `clean_up`, behind its call of `disconnect`
unfoldable pub clean_up : Option ℕ → Semaphores → Semaphores
clean_up none s = s
clean_up (some pipe_sem_id) s = remove pipe_sem_id s
