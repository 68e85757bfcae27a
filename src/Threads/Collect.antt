-- ===== src/Threads/Collect.antt =====
-- The invariant of the processes of a client: who has the lock, what stands in the pipe, and what
-- the parent has gathered.
pub mod Children
pub mod Steps
pub mod Gathered
use mathlib.Core.List.{Perm, perm_middle}
use mathlib.Core.List.Perm
use super_smack.Prelude.{
  ℕ, zero, suc, ◌+◌, ◌<◌, ◌≤◌, ◌≡◌, ◌≢◌, refl, sym, ap, ◌∙◌, ◌⊎◌, inl, inr, Bool, true, false,
  Option, none, some, List, [], ◌∷◌, ◌++◌, append-nil, append_assoc, arith, Bytes, length,
  length-append, All, All-append, All-split,
}
use super_smack.Result.{ok, ok_injective}
use super_smack.Report.Codec.{Pipe, int_bytes, fd_send}
use super_smack.Report.Merge.{Knows, merge, Knows-merge}
use super_smack.Threads.{Collector, take_time, take_report, send_time, add_time}
use super_smack.Threads.System.{
  Message, Phase, unlocked, locked, time_written, report_written, closing, exited, Child,
  ParentPhase, waiting, selecting, time_read, finished, System, Move, lock_pipe_sem, write_time,
  fd_send_report, unlock_pipe_sem, exit, Step, Reach, here, then, start, forked,
}
use super_smack.Threads.Queue.{
  is_critical, has_sent, open_time, unsent_one, critical, sent, open_times, unsent, critical-append,
  sent-append, open_times-append, unsent-append, critical-open_times, IsGood, report_bytes,
  message_bytes, flat, flat-append, holding, send_time-eq, fd_send-eq, take_time-eq, take_report-eq,
}

-- A message added to what the parent has, and all the messages of a list, in order.
abbrev pub absorb : Message → Collector → Collector
absorb m c = record (add_time m.connect_time c) {
  type_reports = merge m.type_reports c.type_reports;
}

unfoldable pub gather : Collector → List Message → Collector
gather c [] = c
gather c (m ∷ ms) = gather (absorb m c) ms

pub gather-append :
    (c : Collector) (ms : List Message) (m : Message)
    → gather c (ms ++ m ∷ []) ≡ absorb m (gather c ms)
unfolding gather
gather-append c [] m = refl
gather-append c (k ∷ ms) m = gather-append (absorb k c) ms m

-- The message that a move completes in the pipe.
abbrev pub completed : Phase → Message → List Message
completed time_written m = m ∷ []
completed _ m = []

pub Move-critical :
    {m : Message} {p p' : Phase} {n n' : ℕ} {fd fd' : Pipe}
    → Move m p n fd p' n' fd'
    → n' + is_critical p' ≡ n + is_critical p
Move-critical lock_pipe_sem = omega arith
Move-critical (write_time e) = refl
Move-critical (fd_send_report e) = refl
Move-critical unlock_pipe_sem = omega arith
Move-critical exit = refl

pub Move-sent :
    {m : Message} {p p' : Phase} {n n' : ℕ} {fd fd' : Pipe}
    → Move m p n fd p' n' fd'
    → has_sent p' ≡ has_sent p + length (completed p m)
Move-sent lock_pipe_sem = refl
Move-sent (write_time e) = refl
Move-sent (fd_send_report e) = refl
Move-sent unlock_pipe_sem = refl
Move-sent exit = refl

pub Move-unsent :
    {m : Message} {p p' : Phase} {n n' : ℕ} {fd fd' : Pipe}
    → Move m p n fd p' n' fd'
    → unsent_one p m ≡ completed p m ++ unsent_one p' m
Move-unsent lock_pipe_sem = refl
Move-unsent (write_time e) = refl
Move-unsent (fd_send_report e) = refl
Move-unsent unlock_pipe_sem = refl
Move-unsent exit = refl

-- The bytes behind `b` before and after a move; `ox` and `oy` are the times of the others.
pub Move-bytes :
    {m : Message} {p p' : Phase} {n n' : ℕ} {fd fd' : Pipe} (b ox oy : Bytes)
    → IsGood m
    → Move m p n fd p' n' fd'
    → (is_critical p ≡ 1 → (ox ≡ []) × (oy ≡ []))
    → fd ≡ holding (b ++ (ox ++ (open_time p m ++ oy)))
    → fd' ≡ holding ((b ++ flat (completed p m)) ++ (ox ++ (open_time p' m ++ oy)))
unfolding flat message_bytes
Move-bytes b ox oy good lock_pipe_sem alone e = rw (append-nil b) e
Move-bytes {m} b ox oy good (write_time {fd} w) alone e =
    let (x, y) = alone refl in
    let before : fd ≡ holding b = e ∙ rw (x, y, append-nil b) refl in
    sym (
      ok_injective (sym (ap (send_time m.connect_time) before ∙ send_time-eq m.connect_time b) ∙ w))
    ∙ rw (x, y, append-nil b, append-nil (int_bytes m.connect_time)) refl
Move-bytes {m} b ox oy good (fd_send_report {fd} w) alone e =
    let (x, y) = alone refl in
    let timed = b ++ int_bytes m.connect_time in
    let before : fd ≡ holding timed = e ∙ rw (x, y, append-nil (int_bytes m.connect_time)) refl in
    sym (ok_injective (sym (ap (fd_send m.type_reports) before ∙ fd_send-eq m good timed) ∙ w))
    ∙ ap holding (
        append_assoc b (int_bytes m.connect_time) (report_bytes m.type_reports)
        ∙ rw (x, y, append-nil (message_bytes m), append-nil (b ++ message_bytes m)) refl)
Move-bytes b ox oy good unlock_pipe_sem alone e = rw (append-nil b) e
Move-bytes b ox oy good exit alone e = rw (append-nil b) e

-- Where the parent has read a time, the report behind it is next in the pipe.
abbrev pub half : List Message → Bytes
half [] = []
half (m ∷ ms) = report_bytes m.type_reports

-- A child that the parent knows of and whose message it has not begun to read.
abbrev pub owed : ParentPhase → ℕ
owed selecting = 1
owed _ = 0

-- What the parent has gathered; `reading` is the message of which it has read the time.
abbrev pub IsAt : ParentPhase → Collector → List Message → Collector → Type 0
IsAt time_read before reading c =
    (m : Message) × (reading ≡ m ∷ []) × (c ≡ add_time m.connect_time before)
IsAt _ before reading c = (reading ≡ []) × (c ≡ before)

module _ (c0 : Collector) where
  -- A message that can be sent and read, and whose types the parent has.
  abbrev pub IsFit : Message → Type 0
  IsFit m = IsGood m × Knows c0.type_reports m.type_reports

  abbrev pub IsFitChild : Child → Type 0
  IsFitChild c = IsFit c.message

  pub record Inv (messages : List Message) (s : System) : Type 0 where
    pub got : List Message
    pub reading : List Message
    pub queue : List Message
    pub exclusive : s.sem + critical s.children ≡ 1
    pub bytes : s.pipe ≡ holding (half reading ++ (flat queue ++ open_times s.children))
    pub credits : length queue ≡ sent s.children + owed s.phase
    pub order : Perm messages (got ++ (reading ++ (queue ++ unsent s.children)))
    pub gathered : IsAt s.phase (gather c0 got) reading s.collector
    pub gone : s.phase ≡ finished → s.children ≡ []
    pub fit_reading : All IsFit reading
    pub fit_queue : All IsFit queue
    pub fit_children : All IsFitChild s.children

  pub Knows-gather :
      (c : Collector) (ms : List Message) (n : Message)
      → Knows c.type_reports n.type_reports
      → Knows (gather c ms).type_reports n.type_reports
  unfolding gather
  Knows-gather c [] n h = h
  Knows-gather c (m ∷ ms) n h =
      Knows-gather (absorb m c) ms n (Knows-merge m.type_reports c.type_reports n.type_reports h)

  forked-facts :
      (ms : List Message)
      → All IsFit ms
      → (critical (forked ms) ≡ 0)
        × (sent (forked ms) ≡ 0)
        × (open_times (forked ms) ≡ [])
        × (unsent (forked ms) ≡ ms)
        × All IsFitChild (forked ms)
  unfolding critical sent open_times unsent
  forked-facts [] h = (refl, refl, refl, refl, tt)
  forked-facts (m ∷ ms) (f, h) =
      let (a, b, c, d, e) = forked-facts ms h in
      (omega (arith, a), omega (arith, b), c, ap (◌∷◌ m) d, (f, e))

  pub start-Inv : (ms : List Message) → All IsFit ms → Inv ms (start ms c0)
  unfolding gather flat
  start-Inv ms h =
      let (a, b, c, d, e) = forked-facts ms h in
      record {
        got = [];
        reading = [];
        queue = [];
        exclusive = omega (arith, a);
        bytes = rw c refl;
        credits = omega (arith, b);
        order = rw d (Perm.refl ms);
        gathered = (refl, refl);
        gone = λ e. cc;
        fit_reading = tt;
        fit_queue = tt;
        fit_children = e;
      }
