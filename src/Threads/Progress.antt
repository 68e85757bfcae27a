-- ===== src/Threads/Progress.antt =====
-- That the processes of a client come to the end of `thread_sync`.
use mathlib.Core.Path.{subst}
use super_smack.Prelude.{
  All-split, Bool-cases, ℕ, zero, suc, ◌+◌, ◌<◌, ◌≡◌, ◌≢◌, refl, ap, sym, ◌∙◌, ◌⊎◌, inl, inr, List,
  [], ◌∷◌, ◌++◌, Bytes, arith, All, some,
}
use super_smack.Result.{ok}
use super_smack.Report.Codec.{Pipe, fd_send, read}
use super_smack.Threads.{Collector, take_time, send_time}
use super_smack.Threads.System.{
  Message, Phase, unlocked, locked, time_written, report_written, closing, exited, Child,
  ParentPhase, waiting, selecting, time_read, finished, System, Move, lock_pipe_sem, write_time,
  fd_send_report, unlock_pipe_sem, exit, Step, child, wait, no_data, read_time, read_report,
  no_child, Reach, then, start,
}
use super_smack.Threads.Queue.{
  is_critical, critical, IsGood, report_bytes_some, flat, open_times, holding, send_time-eq,
  fd_send-eq,
}
use super_smack.Threads.Collect.{half, IsFit, IsFitChild, Inv, start-Inv}
use super_smack.Threads.Collect.Steps.{next_message, report_next, Reach-Inv}

-- The calls that a process has before it, those of a child with one for `wait4` and what follows
-- it in the parent.
abbrev pub to_go : Phase → ℕ
to_go unlocked = 9
to_go locked = 8
to_go time_written = 7
to_go report_written = 6
to_go closing = 5
to_go exited = 4

abbrev pub parent_to_go : ParentPhase → ℕ
parent_to_go waiting = 1
parent_to_go selecting = 3
parent_to_go time_read = 2
parent_to_go finished = 0

unfoldable pub all_to_go : List Child → ℕ
all_to_go [] = 0
all_to_go (c ∷ cs) = to_go c.phase + all_to_go cs

abbrev pub measure : System → ℕ
measure s = all_to_go s.children + parent_to_go s.phase

all_to_go-append : (xs ys : List Child) → all_to_go (xs ++ ys) ≡ all_to_go xs + all_to_go ys
unfolding all_to_go
all_to_go-append [] ys = omega arith
all_to_go-append (c ∷ xs) ys = omega (arith, all_to_go-append xs ys)

all_to_go-split :
    (xs ys : List Child) (c : Child)
    → all_to_go (xs ++ c ∷ ys) ≡ all_to_go xs + (to_go c.phase + all_to_go ys)
unfolding all_to_go
all_to_go-split xs ys c = all_to_go-append xs (c ∷ ys)

Move-to_go :
    {m : Message} {p p' : Phase} {n n' : ℕ} {fd fd' : Pipe}
    → Move m p n fd p' n' fd'
    → suc (to_go p') ≡ to_go p
Move-to_go lock_pipe_sem = refl
Move-to_go (write_time e) = refl
Move-to_go (fd_send_report e) = refl
Move-to_go unlock_pipe_sem = refl
Move-to_go exit = refl

-- Each step takes one call or more from those that are left.
pub Step-measure : {s t : System} → Step s t → measure t < measure s
Step-measure {s} (child xs ys c {p} split mv) = omega (
  arith,
  ap all_to_go split,
  all_to_go-split xs ys c,
  all_to_go-split xs ys (record c { phase = p }),
  Move-to_go mv,
)
Step-measure {s} (wait xs ys c p split e) = omega (
  arith,
  ap all_to_go split,
  all_to_go-split xs ys c,
  all_to_go-append xs ys,
  ap to_go e,
  ap parent_to_go p,
)
Step-measure (no_data p r e) = omega (arith, ap parent_to_go p)
Step-measure (read_time p r e) = omega (arith, ap parent_to_go p)
Step-measure (read_report p r e) = omega (arith, ap parent_to_go p)
Step-measure (no_child p e) = omega (arith, ap parent_to_go p)

-- A child that can be given to `wait4` or go on by itself, or all wait for the semaphore.
record Busy (cs : List Child) : Type 0 where
  xs : List Child
  ys : List Child
  c : Child
  split : cs ≡ xs ++ c ∷ ys
  busy : c.phase ≢ unlocked

phase_cases : (p : Phase) → (p ≡ unlocked) ⊎ (p ≢ unlocked)
phase_cases unlocked = inl refl
phase_cases locked = inr (λ e. cc)
phase_cases time_written = inr (λ e. cc)
phase_cases report_written = inr (λ e. cc)
phase_cases closing = inr (λ e. cc)
phase_cases exited = inr (λ e. cc)

find-Busy : (cs : List Child) → Busy cs ⊎ All (λ (c : Child). c.phase ≡ unlocked) cs
find-Busy [] = inr tt
find-Busy (c ∷ cs) = elim (phase_cases c.phase) [
  | inr busy ↦ inl (record { xs = []; ys = cs; c = c; split = refl; busy = busy })
  | inl u ↦ elim (find-Busy cs) [
    | inl b ↦
        inl
          (record { xs = c ∷ b.xs; ys = b.ys; c = b.c; split = ap (◌∷◌ c) b.split; busy = b.busy })
    | inr all ↦ inr (u, all)
  ]
]

All-unlocked-critical :
    (cs : List Child) → All (λ (c : Child). c.phase ≡ unlocked) cs → critical cs ≡ 0
unfolding critical
All-unlocked-critical [] h = refl
All-unlocked-critical (c ∷ cs) h = omega (arith, ap is_critical h.0, All-unlocked-critical cs h.1)

-- A call that a child can make, with what it leads to.
data Can (m : Message) (p : Phase) (n : ℕ) (fd : Pipe) : Type 0 where
  can : {p' : Phase} {n' : ℕ} {fd' : Pipe} → Move m p n fd p' n' fd' → Can m p n fd

-- A child that has locked goes on to its exit.
Can-move :
    (m : Message) (p : Phase) (n : ℕ) (fd : Pipe) (b : Bytes)
    → IsGood m
    → fd ≡ holding b
    → p ≢ unlocked
    → (p ≡ exited) ⊎ Can m p n fd
Can-move m unlocked n fd b good e h = absurd (h refl)
Can-move m locked n fd b good e h =
    inr (can (write_time (ap (send_time m.connect_time) e ∙ send_time-eq m.connect_time b)))
Can-move m time_written n fd b good e h =
    inr (can (fd_send_report (ap (fd_send m.type_reports) e ∙ fd_send-eq m good b)))
Can-move m report_written n fd b good e h = inr (can (unlock_pipe_sem))
Can-move m closing n fd b good e h = inr (can (exit))
Can-move m exited n fd b good e h = inl refl

Can-lock : (m : Message) (p : Phase) (n : ℕ) (fd : Pipe) → p ≡ unlocked → n ≡ 1 → Can m p n fd
Can-lock m p n fd e k =
    subst (λ p. Can m p n fd) (sym e)
      (subst (λ n. Can m unlocked n fd) (sym k) (can (lock_pipe_sem)))

not_timed :
    (fd : Pipe) (c : Collector) {r : Collector × Pipe}
    → take_time fd c ≡ ok (some r)
    → fd.pending ≢ []
unfolding take_time read
not_timed fd c e empty = elim (Bool-cases fd.broken) [
  | inl broken ↦ cc (rw (broken, read, take_time) at e)
  | inr works ↦ cc (rw (works, empty, read, take_time) at e)
]

module _ (c0 : Collector) (messages : List Message) (s : System) (inv : Inv c0 messages s) where
  abbrev NextStep : Type 0
  NextStep = (t : System) × Step s t

  child_step :
      (xs ys : List Child) (c : Child)
      → s.children ≡ xs ++ c ∷ ys
      → Can c.message c.phase s.sem s.pipe
      → NextStep
  child_step xs ys c split (can move) = (_, child xs ys c split move)

  while_waiting : s.phase ≡ waiting → NextStep
  while_waiting p = elim (find-Busy s.children) [
    | inl b ↦
        let fit =
          (All-split (IsFitChild c0) b.xs b.ys b.c
            (subst (All (IsFitChild c0)) b.split inv.fit_children)).1 in
        elim (Can-move b.c.message b.c.phase s.sem s.pipe _ fit.0 inv.bytes b.busy) [
          | inl left ↦ (_, wait b.xs b.ys b.c p b.split left)
          | inr going ↦ child_step b.xs b.ys b.c b.split going
        ]
    | inr all ↦ all_wait s.children refl all
  ]
    where
      all_wait :
          (cs : List Child)
          → s.children ≡ cs
          → All (λ (c : Child). c.phase ≡ unlocked) cs
          → NextStep
      all_wait [] e h = (_, no_child p e)
      all_wait (c ∷ cs) e h = child_step [] cs c e (
          Can-lock c.message c.phase s.sem s.pipe h.0
            (omega (arith, inv.exclusive, ap critical e, All-unlocked-critical (c ∷ cs) h)))

  step_at : (p : ParentPhase) → s.phase ≡ p → s.phase ≢ finished → NextStep
  step_at waiting e h = while_waiting e
  step_at selecting e h =
      let next = next_message c0 messages s inv e in
      (_, read_time e (inl (not_timed s.pipe s.collector next.timed)) next.timed)
  step_at time_read e h =
      let (m, whole, now, next) = report_next c0 messages s inv e in
      let good = (subst (All (IsFit c0)) whole inv.fit_reading).0.0 in
      (_, read_report e (inl (behind m whole good)) next)
    where
      behind : (m : Message) → inv.reading ≡ m ∷ [] → IsGood m → s.pipe.pending ≢ []
      behind m whole good empty = report_bytes_some m good _ (
          sym (
            ap (λ (fd : Pipe). fd.pending)
              (inv.bytes
                ∙ ap (λ r. holding (half r ++ (flat inv.queue ++ open_times s.children))) whole))
          ∙ empty)
  step_at finished e h = absurd (h e)

finished_cases : (p : ParentPhase) → (p ≡ finished) ⊎ (p ≢ finished)
finished_cases waiting = inr (λ e. cc)
finished_cases selecting = inr (λ e. cc)
finished_cases time_read = inr (λ e. cc)
finished_cases finished = inl refl

-- In every state that the processes of a client reach, the parent has found no child left or some
-- process can make a call that succeeds; and each such call, whichever process makes it, leaves
-- fewer to be made. Each message must fit its pipe message and be of the types that the parent has.
pub thread_sync_ends :
    (ms : List Message) (c0 : Collector) (s : System)
    → All (IsFit c0) ms
    → Reach (start ms c0) s
    → ((s.phase ≡ finished) ⊎ ((t : System) × Step s t))
      × ((t : System) → Step s t → measure t < measure s)
thread_sync_ends ms c0 s fit r = (
  elim (finished_cases s.phase) [
    | inl e ↦ inl e
    | inr h ↦ inr (step_at c0 ms s (Reach-Inv c0 ms r (start-Inv c0 ms fit)) s.phase refl h)
  ],
  λ t st. Step-measure st,
)

-- So from each of them a run leads to the end.
pub reach_finished :
    (n : ℕ) (ms : List Message) (c0 : Collector) (s : System)
    → All (IsFit c0) ms
    → measure s < n
    → Reach (start ms c0) s
    → (t : System) × Reach (start ms c0) t × (t.phase ≡ finished)
reach_finished zero ms c0 s fit b r = absurd (omega arith)
reach_finished (suc n) ms c0 s fit b r = elim (thread_sync_ends ms c0 s fit r).0 [
  | inl e ↦ (s, r, e)
  | inr (t, st) ↦ reach_finished n ms c0 t fit (omega (arith, Step-measure st)) (then r st)
]
