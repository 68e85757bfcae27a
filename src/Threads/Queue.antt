-- ===== src/Threads/Queue.antt =====
-- What stands in the pipe between the children and their parent: whole messages in the order in
-- which the children had the lock, and behind them a time whose report is still to come.
use super_smack.Prelude.{
  ℕ, ◌%◌, ◌+◌, ◌≤◌, ◌≡◌, ◌≢◌, refl, sym, ap, ◌∙◌, false, none, some, List, [], ◌∷◌, ◌++◌,
  append_assoc, arith, Bytes,
}
use super_smack.Prelude.Int.{ℤ, IsInt}
use super_smack.Result.{ok}
use super_smack.StringMap.Order.{IsSorted}
use super_smack.Report.{TypeReports}
use super_smack.Report.Codec.{
  Pipe, fd_send, int_bytes, read, write_or_die, write, max_report_len, fill,
}
use super_smack.Report.Message.{bytes_int-int_bytes}
use super_smack.Report.Send.{IsFilled, size, fill_total, IsMessage, fd_send-IsMessage}
use super_smack.Report.Merge.{IsSendable, Knows, merge, update_from_fd-message}
use super_smack.Threads.{Collector, take_time, take_report, send_time, add_time}
use super_smack.Threads.System.{
  Message, Phase, unlocked, locked, time_written, report_written, closing, exited, Child,
}

-- A child between its two calls of the semaphore.
abbrev pub is_critical : Phase → ℕ
is_critical locked = 1
is_critical time_written = 1
is_critical report_written = 1
is_critical _ = 0

-- A child whose whole message is written.
abbrev pub has_sent : Phase → ℕ
has_sent report_written = 1
has_sent closing = 1
has_sent exited = 1
has_sent _ = 0

abbrev pub open_time : Phase → Message → Bytes
open_time time_written m = int_bytes m.connect_time
open_time _ m = []

abbrev pub unsent_one : Phase → Message → List Message
unsent_one unlocked m = m ∷ []
unsent_one locked m = m ∷ []
unsent_one time_written m = m ∷ []
unsent_one _ m = []

-- Those of all the children of a list.
unfoldable pub critical : List Child → ℕ
critical [] = 0
critical (c ∷ cs) = is_critical c.phase + critical cs

unfoldable pub sent : List Child → ℕ
sent [] = 0
sent (c ∷ cs) = has_sent c.phase + sent cs

unfoldable pub open_times : List Child → Bytes
open_times [] = []
open_times (c ∷ cs) = open_time c.phase c.message ++ open_times cs

unfoldable pub unsent : List Child → List Message
unsent [] = []
unsent (c ∷ cs) = unsent_one c.phase c.message ++ unsent cs

pub critical-append : (xs ys : List Child) → critical (xs ++ ys) ≡ critical xs + critical ys
unfolding critical
critical-append [] ys = omega arith
critical-append (c ∷ xs) ys = omega (arith, critical-append xs ys)

pub sent-append : (xs ys : List Child) → sent (xs ++ ys) ≡ sent xs + sent ys
unfolding sent
sent-append [] ys = omega arith
sent-append (c ∷ xs) ys = omega (arith, sent-append xs ys)

pub open_times-append :
    (xs ys : List Child) → open_times (xs ++ ys) ≡ open_times xs ++ open_times ys
unfolding open_times
open_times-append [] ys = refl
open_times-append (c ∷ xs) ys =
    ap (◌++◌ (open_time c.phase c.message)) (open_times-append xs ys)
    ∙ sym (append_assoc (open_time c.phase c.message) (open_times xs) (open_times ys))

pub unsent-append : (xs ys : List Child) → unsent (xs ++ ys) ≡ unsent xs ++ unsent ys
unfolding unsent
unsent-append [] ys = refl
unsent-append (c ∷ xs) ys =
    ap (◌++◌ (unsent_one c.phase c.message)) (unsent-append xs ys)
    ∙ sym (append_assoc (unsent_one c.phase c.message) (unsent xs) (unsent ys))

-- The same with one child in the middle.
module _ (xs ys : List Child) (c : Child) where
  pub critical-split : critical (xs ++ c ∷ ys) ≡ critical xs + (is_critical c.phase + critical ys)
  unfolding critical
  critical-split = critical-append xs (c ∷ ys)

  pub sent-split : sent (xs ++ c ∷ ys) ≡ sent xs + (has_sent c.phase + sent ys)
  unfolding sent
  sent-split = sent-append xs (c ∷ ys)

  pub open_times-split :
      open_times (xs ++ c ∷ ys) ≡ open_times xs ++ (open_time c.phase c.message ++ open_times ys)
  unfolding open_times
  open_times-split = open_times-append xs (c ∷ ys)

  pub unsent-split :
      unsent (xs ++ c ∷ ys) ≡ unsent xs ++ (unsent_one c.phase c.message ++ unsent ys)
  unfolding unsent
  unsent-split = unsent-append xs (c ∷ ys)

no_open_time : (p : Phase) (m : Message) → is_critical p ≡ 0 → open_time p m ≡ []
no_open_time unlocked m h = refl
no_open_time locked m h = refl
no_open_time time_written m h = absurd (omega (arith, h))
no_open_time report_written m h = refl
no_open_time closing m h = refl
no_open_time exited m h = refl

-- Where nobody has the lock, nobody has written a time alone.
pub critical-open_times : (cs : List Child) → critical cs ≡ 0 → open_times cs ≡ []
unfolding critical open_times
critical-open_times [] h = refl
critical-open_times (c ∷ cs) h =
    rw
      (no_open_time c.phase c.message (omega (arith, h)), critical-open_times cs (omega (arith, h)))
      refl

-- A message whose report can be sent and read back, and whose time is an `int`.
pub record IsGood (m : Message) : Type 0 where
  pub time : IsInt m.connect_time
  pub sorted : IsSorted m.type_reports
  pub sendable : IsSendable m.type_reports
  pub fits : 1 + size m.type_reports ≤ max_report_len

-- The bytes of a report as `fd_send` writes them.
unfoldable pub report_bytes : TypeReports → Bytes
report_bytes m = elim (fill 1 m) [ ok (recs, n) ↦ n % 256 ∷ recs | _ ↦ [] ]

unfoldable pub message_bytes : Message → Bytes
message_bytes m = int_bytes m.connect_time ++ report_bytes m.type_reports

unfoldable pub flat : List Message → Bytes
flat [] = []
flat (m ∷ ms) = message_bytes m ++ flat ms

pub flat-append : (ms ks : List Message) → flat (ms ++ ks) ≡ flat ms ++ flat ks
unfolding flat
flat-append [] ks = refl
flat-append (m ∷ ms) ks =
    ap (◌++◌ (message_bytes m)) (flat-append ms ks)
    ∙ sym (append_assoc (message_bytes m) (flat ms) (flat ks))

abbrev pub holding : Bytes → Pipe
holding bytes = record { pending = bytes; broken = false }

pub send_time-eq :
    (time : ℤ) (before : Bytes)
    → send_time time (holding before) ≡ ok (holding (before ++ int_bytes time))
unfolding send_time write_or_die write
send_time-eq time before = refl

sendable-IsFilled : (m : TypeReports) → IsSendable m → IsFilled m
sendable-IsFilled [] h = tt
sendable-IsFilled ((name, none) ∷ m) h = absurd h
sendable-IsFilled ((name, some r) ∷ m) (text, short, ints, more) = sendable-IsFilled m more

module _ (m : Message) (good : IsGood m) where
  filled : (b : Bytes × ℕ) × (fill 1 m.type_reports ≡ ok b)
  filled = fill_total 1 m.type_reports (sendable-IsFilled m.type_reports good.sendable) good.fits

  report_bytes-eq : report_bytes m.type_reports ≡ filled.0.1 % 256 ∷ filled.0.0
  unfolding report_bytes
  report_bytes-eq = rw (filled.1, report_bytes) refl

  pub report_bytes_some : (rest : Bytes) → report_bytes m.type_reports ++ rest ≢ []
  report_bytes_some rest e = cc (rw report_bytes-eq at e)

  pub fd_send-eq :
      (before : Bytes)
      → fd_send m.type_reports (holding before)
        ≡ ok (holding (before ++ report_bytes m.type_reports))
  unfolding fd_send write_or_die write
  fd_send-eq before = rw (report_bytes-eq, filled.1, fd_send) refl

  message : IsMessage m.type_reports [] (report_bytes m.type_reports)
  message =
      fd_send-IsMessage m.type_reports (holding []) (holding (report_bytes m.type_reports))
        (fd_send-eq [])

  pub take_time-eq :
      (rest : Bytes) (c : Collector)
      → take_time (holding (int_bytes m.connect_time ++ rest)) c
        ≡ ok (some (add_time m.connect_time c, holding rest))
  unfolding take_time read int_bytes
  take_time-eq rest c =
      ap (λ time. ok (some (add_time time c, holding rest)))
        (bytes_int-int_bytes m.connect_time [] good.time)

  pub take_report-eq :
      (rest : Bytes) (c : Collector)
      → Knows c.type_reports m.type_reports
      → take_report (holding (report_bytes m.type_reports ++ rest)) c
        ≡ ok (record c { type_reports = merge m.type_reports c.type_reports }, holding rest)
  unfolding take_report
  take_report-eq rest c known =
      rw
        (
          message.appended,
          update_from_fd-message m.type_reports c.type_reports rest message.recs message.filled
              good.sendable known,
        )
        refl
