-- ===== src/Threads/System.antt =====
-- The processes of one client between `create_threads` and the end of `thread_sync`: the children
-- with the semaphore and the pipe, and their parent. One step is one call of one of them.
use super_smack.Prelude.{ℕ, suc, ◌≡◌, ◌≢◌, ◌⊎◌, false, none, some, List, [], ◌∷◌, ◌++◌, All}
use super_smack.Prelude.Int.{ℤ}
use super_smack.Result.{ok}
use super_smack.Report.{TypeReports}
use super_smack.Report.Codec.{Pipe, fd_send}
use super_smack.Threads.{Collector, take_time, take_report, send_time}

-- What a child has to tell.
pub record Message : Type 0 where
  pub connect_time : ℤ
  pub type_reports : TypeReports

-- Where a child stands in `thread_sync`: it has not locked yet, it has the lock (and has written
-- nothing, its time, or its report too), it has unlocked, or it has left by `exit(0)`.
pub data Phase : Type 0 where
  unlocked locked time_written report_written closing exited : Phase

pub record Child : Type 0 where
  pub phase : Phase
  pub message : Message

-- Where the parent stands: at `wait4`, in `transfer_report_data` before or behind the time, or
-- behind its loop, since `wait4` has found no child.
pub data ParentPhase : Type 0 where
  waiting selecting time_read finished : ParentPhase

-- One client, from its set-up on, while no other client of the directory sets up or removes the
-- semaphore that they share, and no child dies; Threads.Semaphore and Threads.Dying are about the
-- other cases. `children` are those that `wait4` has not given yet.
pub record System : Type 0 where
  pub children : List Child
  -- the value of the semaphore
  pub sem : ℕ
  pub pipe : Pipe
  pub phase : ParentPhase
  pub collector : Collector

-- A call of a child with the message `m`. `semop` with -1 waits until the semaphore is not zero.
pub data Move (m : Message) : Phase → ℕ → Pipe → Phase → ℕ → Pipe → Type 0 where
  lock_pipe_sem : {n : ℕ} {fd : Pipe} → Move m unlocked (suc n) fd locked n fd
  write_time :
      {n : ℕ} {fd fd' : Pipe}
      → send_time m.connect_time fd ≡ ok fd'
      → Move m locked n fd time_written n fd'
  fd_send_report :
      {n : ℕ} {fd fd' : Pipe}
      → fd_send m.type_reports fd ≡ ok fd'
      → Move m time_written n fd report_written n fd'
  unlock_pipe_sem : {n : ℕ} {fd : Pipe} → Move m report_written n fd closing (suc n) fd
  exit : {n : ℕ} {fd : Pipe} → Move m closing n fd exited n fd

-- `select` comes back where there is something to read, or nobody left to write.
abbrev pub IsReadable : System → Type 0
IsReadable s = (s.pipe.pending ≢ []) ⊎ All (λ (c : Child). c.phase ≡ exited) s.children

pub data Step (s : System) : System → Type 0 where
  child :
      (xs ys : List Child) (c : Child) {p : Phase} {n : ℕ} {fd : Pipe}
      → s.children ≡ xs ++ c ∷ ys
      → Move c.message c.phase s.sem s.pipe p n fd
      → Step s (record s { children = xs ++ record c { phase = p } ∷ ys; sem = n; pipe = fd })
  -- `wait4` gives a child that has left.
  wait :
      (xs ys : List Child) (c : Child)
      → s.phase ≡ waiting
      → s.children ≡ xs ++ c ∷ ys
      → c.phase ≡ exited
      → Step s (record s { children = xs ++ ys; phase = selecting })
  no_data :
      s.phase ≡ selecting
      → IsReadable s
      → take_time s.pipe s.collector ≡ ok none
      → Step s (record s { phase = waiting })
  read_time :
      {c : Collector} {fd : Pipe}
      → s.phase ≡ selecting
      → IsReadable s
      → take_time s.pipe s.collector ≡ ok (some (c, fd))
      → Step s (record s { phase = time_read; collector = c; pipe = fd })
  read_report :
      {c : Collector} {fd : Pipe}
      → s.phase ≡ time_read
      → IsReadable s
      → take_report s.pipe s.collector ≡ ok (c, fd)
      → Step s (record s { phase = waiting; collector = c; pipe = fd })
  -- `wait4` fails as there is no child.
  no_child : s.phase ≡ waiting → s.children ≡ [] → Step s (record s { phase = finished })

abbrev pub forked : List Message → List Child
forked [] = []
forked (m ∷ messages) = record { phase = unlocked; message = m } ∷ forked messages

-- Behind `create_threads`: the semaphore is 1 (`setup_pipe`), and the pipe is empty.
abbrev pub start : List Message → Collector → System
start messages c = record {
  children = forked messages;
  sem = 1;
  pipe = record { pending = []; broken = false };
  phase = waiting;
  collector = c;
}

pub data Reach (s : System) : System → Type 0 where
  here : Reach s s
  then : {t u : System} → Reach s t → Step t u → Reach s u
