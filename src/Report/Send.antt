-- ===== src/Report/Send.antt =====
-- `fd_send`: the whole message, its bounds, and when there is one.
use super_smack.Prelude.{
  ℕ, ◌+◌, ◌*◌, ◌%◌, ◌≤◌, ◌<◌, ◌≡◌, refl, ◌∙◌, ap, true, false, inl, inr, none, some, [], ◌∷◌, ◌++◌,
  arith, ltb, Bytes, length, length-append, Bool-cases,
}
use super_smack.Result.{report_overflow, ok, >>=-eq-ok, died}
use super_smack.Report.Types.{TypeReports}
use super_smack.Report.Codec.{
  Pipe, record_bytes, fill, fd_send, write_or_die, write, max_report_len,
}
use super_smack.Report.Message.{length-record_bytes}

-- The records of a fill stay inside the buffer, and take 13 bytes or more each.
fill_bounds :
    (p : ℕ) (m : TypeReports) {recs : Bytes} {n : ℕ}
    → fill p m ≡ ok (recs, n)
    → p ≤ max_report_len
    → (p + length recs ≤ max_report_len) × (13 * n ≤ length recs)
unfolding fill
fill_bounds p [] h k = ground arith
fill_bounds p ((name, none) ∷ m) h k = ground arith
fill_bounds p ((name, some r) ∷ m) {recs} {n} h k =
    elim (Bool-cases (ltb (p + length name + 12) max_report_len)) [
      | inr full ↦ cc (rw full at h)
      | inl room ↦
          let ((rest, num), filled, e) =
            >>=-eq-ok (fill (p + 1 + length name + 12) m) _ (rw room at h) in
          ground (
            arith,
            fill_bounds (p + 1 + length name + 12) m filled,
            length-append (record_bytes name r) rest,
            length-record_bytes name r,
          )
    ]

pub fill_count :
    (p : ℕ) (m : TypeReports) {recs : Bytes} {n : ℕ} → fill p m ≡ ok (recs, n) → n ≡ length m
unfolding fill
fill_count p [] h = ground arith
fill_count p ((name, none) ∷ m) h = ground arith
fill_count p ((name, some r) ∷ m) {recs} {n} h =
    elim (Bool-cases (ltb (p + length name + 12) max_report_len)) [
      | inr full ↦ cc (rw full at h)
      | inl room ↦
          let ((rest, num), filled, e) =
            >>=-eq-ok (fill (p + 1 + length name + 12) m) _ (rw room at h) in
          ground (arith, fill_count (p + 1 + length name + 12) m filled)
    ]

-- What a message looks like to the pipe.
pub record IsMessage (m : TypeReports) (before after : Bytes) : Type 0 where
  pub recs : Bytes
  pub appended : after ≡ before ++ (length m ∷ recs)
  pub filled : fill 1 m ≡ ok (recs, length m)
  pub fits : length recs + 1 ≤ max_report_len
  pub few : length m < 256

written :
    (fd fd' : Pipe) (buf : Bytes)
    → write_or_die fd buf ≡ ok fd'
    → (fd'.pending ≡ fd.pending ++ buf) × (fd.broken ≡ false) × (fd'.broken ≡ false)
unfolding write_or_die
written fd fd' buf h = ground arith

-- A report that is sent is one message of at most `MAX_REPORT_LEN` bytes behind what the pipe
-- held, whose first byte is the number of its records: the cast of `num_recs` loses nothing.
pub fd_send-IsMessage :
    (m : TypeReports) (fd fd' : Pipe) → fd_send m fd ≡ ok fd' → IsMessage m fd.pending fd'.pending
unfolding fd_send
fd_send-IsMessage m fd fd' h =
    let ((recs, n), filled, e) = >>=-eq-ok (fill 1 m) _ h in
    let bound = fill_bounds 1 m filled (omega arith) in
    let count : n ≡ length m = fill_count 1 m filled in
    let byte : n % 256 ≡ length m = omega (arith, bound.0, bound.1) in
    record {
      recs = recs;
      appended = rw byte at ((written fd fd' ((n % 256) ∷ recs) e).0);
      filled = filled ∙ ap (λ k. ok (recs, k)) count;
      fits = omega (arith, bound.0);
      few = omega (arith, bound.0, bound.1);
    }

pub fd_send_works :
    (m : TypeReports) (fd : Pipe)
    → fd_send m (record { pending = []; broken = false }) ≡ ok fd
    → fd.broken ≡ false
unfolding fd_send
fd_send_works m fd h =
    let ((recs, n), filled, e) = >>=-eq-ok (fill 1 m) _ h in
    (written (record { pending = []; broken = false }) fd ((n % 256) ∷ recs) e).2

-- The length of the records of a report.
abbrev pub size : TypeReports → ℕ
size [] = 0
size ((name, _) ∷ m) = length name + 13 + size m

-- No null pointer among the reports.
abbrev pub IsFilled : TypeReports → Type 0
IsFilled [] = Unit
IsFilled ((name, none) ∷ m) = ⊥
IsFilled ((name, some r) ∷ m) = IsFilled m

pub fill_total :
    (p : ℕ) (m : TypeReports)
    → IsFilled m
    → p + size m ≤ max_report_len
    → (b : Bytes × ℕ) × (fill p m ≡ ok b)
unfolding fill
fill_total p [] f h = (([], 0), refl)
fill_total p ((name, none) ∷ m) f h = absurd f
fill_total p ((name, some r) ∷ m) f h =
    let room : ltb (p + length name + 12) max_report_len ≡ true = ground arith in
    let ((rest, n), e) = fill_total (p + 1 + length name + 12) m f (omega arith) in
    ((record_bytes name r ++ rest, n + 1), rw (room, e) refl)

fill_overflow :
    (p : ℕ) (m : TypeReports)
    → IsFilled m
    → p ≤ max_report_len
    → max_report_len < p + size m
    → fill p m ≡ died report_overflow
unfolding fill
fill_overflow p [] f l h = absurd (omega arith)
fill_overflow p ((name, none) ∷ m) f l h = absurd f
fill_overflow p ((name, some r) ∷ m) f l h =
    elim (Bool-cases (ltb (p + length name + 12) max_report_len)) [
      | inr full ↦ rw full refl
      | inl room ↦
          rw (room, fill_overflow (p + 1 + length name + 12) m f (ground arith) (omega arith)) refl
    ]

-- Into a pipe that works, a report with no null pointer is sent if its message has at most
-- `MAX_REPORT_LEN` bytes.
pub fd_send_total :
    (m : TypeReports) (before : Bytes)
    → IsFilled m
    → 1 + size m ≤ max_report_len
    → (fd : Pipe) × (fd_send m (record { pending = before; broken = false }) ≡ ok fd)
unfolding fd_send write_or_die write
fd_send_total m before f fits =
    let ((recs, n), e) = fill_total 1 m f fits in
    (record { pending = before ++ (n % 256) ∷ recs; broken = false }, rw e refl)

-- A report with no null pointer whose message is longer than `MAX_REPORT_LEN` ends the child,
-- whatever the pipe holds.
pub fd_send_overflow :
    (m : TypeReports) (fd : Pipe)
    → IsFilled m
    → max_report_len < 1 + size m
    → fd_send m fd ≡ died report_overflow
unfolding fd_send
fd_send_overflow m fd f over = rw (fill_overflow 1 m f (omega arith) over) refl
