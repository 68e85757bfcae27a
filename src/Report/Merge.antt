-- ===== src/Report/Merge.antt =====
-- `fd_send` in a child, then `update_from_fd` in the parent: the whole message.
use super_smack.Prelude.{
  ℕ, suc, ◌+◌, ◌<◌, ◌≡◌, refl, ◌∙◌, true, false, ◌⊎◌, inl, inr, Option, none, some, [], ◌∷◌, ◌++◌,
  append_assoc, arith, ltb, if◌then◌else◌, Bytes, length, IsText, str_eq, str_eq_iff, str_eq_refl,
  Bool-cases,
}
use super_smack.Result.{ok, >>=-eq-ok}
use super_smack.StringMap.{lookup, insert}
use super_smack.StringMap.Laws.{lookup-insert}
use super_smack.StringMap.Order.{IsSorted, lookup-Above}
use super_smack.Report.Types.{TypeReport, TypeReports, update_many}
use super_smack.Report.Codec.{
  Pipe, record_bytes, fill, fd_send, read, read_records, update_from_fd, max_report_len,
}
use super_smack.Report.Message.{IsIntReport, read_record-record_bytes}
use super_smack.Report.Send.{fd_send-IsMessage, fd_send_works}

-- Each record can be read back: its name is a text whose length fits a byte, its numbers `int`s.
abbrev pub IsSendable : TypeReports → Type 0
IsSendable [] = Unit
IsSendable ((name, none) ∷ m) = ⊥
IsSendable ((name, some r) ∷ m) = IsText name × (length name < 256) × IsIntReport r × IsSendable m

-- Each type of `m` has a report in `p`.
abbrev pub Knows : TypeReports → TypeReports → Type 0
Knows p [] = Unit
Knows p ((name, o) ∷ m) = ((s : TypeReport) × (lookup name p ≡ some (some s))) × Knows p m

-- What the parent holds under a name, after a child's record of that name is added to it.
abbrev pub combined :
    Option (Option TypeReport) → Option (Option TypeReport) → Option (Option TypeReport)
combined (some (some r)) (some (some s)) =
    some (some (update_many s r.num_queries r.max_time r.min_time))
combined _ o = o

pub add : Bytes → TypeReport → TypeReports → TypeReports
add name r p = elim (lookup name p) [
  | some (some s) ↦ insert name (some (update_many s r.num_queries r.max_time r.min_time)) p
  | _ ↦ p
]

unfoldable pub merge : TypeReports → TypeReports → TypeReports
merge [] p = p
merge ((name, none) ∷ m) p = merge m p
merge ((name, some r) ∷ m) p = merge m (add name r p)

pub lookup-add :
    (name k : Bytes) (r : TypeReport) (p : TypeReports)
    → lookup k (add name r p)
      ≡ (if str_eq name k then combined (some (some r)) (lookup k p) else lookup k p)
unfolding add
lookup-add name k r p = elim (Bool-cases (str_eq name k)) [
  | inl same ↦ rw (same, (str_eq_iff name k).0 same) (at_key (lookup k p) refl)
  | inr other ↦ rw other (elsewhere (lookup name p) other)
]
  where
    at_key :
        (o : Option (Option TypeReport))
        → lookup k p ≡ o
        → lookup k (elim o [
          | some (some s) ↦ insert k (some (update_many s r.num_queries r.max_time r.min_time)) p
          | _ ↦ p
        ])
          ≡ combined (some (some r)) o
    at_key (some (some s)) e = simp (lookup-insert, str_eq_refl)
    at_key (some none) e = e
    at_key none e = e

    elsewhere :
        (o : Option (Option TypeReport))
        → str_eq name k ≡ false
        → lookup k (elim o [
          | some (some s) ↦ insert name (some (update_many s r.num_queries r.max_time r.min_time)) p
          | _ ↦ p
        ])
          ≡ lookup k p
    elsewhere (some (some s)) ne = simp (lookup-insert, ne)
    elsewhere (some none) ne = refl
    elsewhere none ne = refl

combined-none : (o : Option (Option TypeReport)) → combined (some none) o ≡ o
combined-none o = ground arith

pub lookup-merge :
    (m p : TypeReports) (k : Bytes)
    → IsSorted m
    → lookup k (merge m p) ≡ combined (lookup k m) (lookup k p)
unfolding merge lookup
lookup-merge [] p k h = refl
lookup-merge ((name, none) ∷ m) p k h = elim (Bool-cases (str_eq name k)) [
  | inl same ↦
      let absent = rw ((str_eq_iff name k).0 same) at (lookup-Above name m h.0) in
      rw same (lookup-merge m p k h.1 ∙ rw absent)
  | inr other ↦ rw other (lookup-merge m p k h.1)
]
lookup-merge ((name, some r) ∷ m) p k h = elim (Bool-cases (str_eq name k)) [
  | inl same ↦
      let absent = rw ((str_eq_iff name k).0 same) at (lookup-Above name m h.0) in
      rw same (lookup-merge m (add name r p) k h.1 ∙ rw (absent, lookup-add name k r p, same))
  | inr other ↦ rw other (lookup-merge m (add name r p) k h.1 ∙ rw (lookup-add name k r p, other))
]

add_known :
    (name : Bytes) (r s : TypeReport) (p : TypeReports)
    → lookup name p ≡ some (some s)
    → add name r p ≡ insert name (some (update_many s r.num_queries r.max_time r.min_time)) p
unfolding add
add_known name r s p e = rw (e, add)

Knows-add : (name : Bytes) (r : TypeReport) (p m : TypeReports) → Knows p m → Knows (add name r p) m
Knows-add name r p [] h = tt
Knows-add name r p ((k, o) ∷ m) h = (still (Bool-cases (str_eq name k)), Knows-add name r p m h.1)
  where
    still :
        (str_eq name k ≡ true) ⊎ (str_eq name k ≡ false)
        → (s : TypeReport) × (lookup k (add name r p) ≡ some (some s))
    still (inl same) = (
      update_many h.0.0 r.num_queries r.max_time r.min_time,
      rw (lookup-add name k r p, same, h.0.1) refl,
    )
    still (inr other) = (h.0.0, rw (lookup-add name k r p, other) h.0.1)

module _ (rest : Bytes) where
  read_records-record_bytes :
      (name : Bytes) (r s : TypeReport) (p : TypeReports) (recs recs' : Bytes) (n n' : ℕ)
      → recs ≡ record_bytes name r ++ recs'
      → n ≡ suc n'
      → IsIntReport r
      → IsText name
      → length name < 256
      → lookup name p ≡ some (some s)
      → read_records n (record { pending = recs ++ rest; broken = false }) p
        ≡ read_records n' (record { pending = recs' ++ rest; broken = false }) (add name r p)
  unfolding read_records
  read_records-record_bytes name r s p recs recs' n n' e f ints text short known =
      rw
        (
          e,
          f,
          append_assoc (record_bytes name r) recs' rest,
          read_record-record_bytes name r ints (recs' ++ rest) p s text short known,
          add_known name r s p known,
        )
        refl

  read_records-fill :
      (at : ℕ) (m p : TypeReports) (recs : Bytes) (n : ℕ)
      → fill at m ≡ ok (recs, n)
      → IsSendable m
      → Knows p m
      → read_records n (record { pending = recs ++ rest; broken = false }) p
        ≡ ok (merge m p, record { pending = rest; broken = false })
  unfolding fill read_records merge
  read_records-fill at [] p recs n h sendable known = ground arith
  read_records-fill at ((name, none) ∷ m) p recs n h sendable known = absurd sendable
  read_records-fill at ((name, some r) ∷ m) p recs n h (text, short, ints, more) ((s, k), known) =
      elim (Bool-cases (ltb (at + length name + 12) max_report_len)) [
        | inr full ↦ cc (rw full at h)
        | inl room ↦
            let ((recs', n'), filled, e) =
              >>=-eq-ok (fill (at + 1 + length name + 12) m) _ (rw room at h) in
            let later =
              read_records-fill (at + 1 + length name + 12) m (add name r p) recs' n' filled more
                (Knows-add name r p m known) in
            let parts : (recs ≡ record_bytes name r ++ recs') × (n ≡ suc n') = ground (arith, e) in
            read_records-record_bytes name r s p recs recs' n n' parts.0 parts.1 ints text short k
            ∙ later
      ]

-- What a parent that reads a message has afterwards: under each name that the message carries its
-- own report with the child's added, all else as it was, and in the pipe what stood behind.
pub record IsMerged (m p : TypeReports) (fd : Pipe) (rest : Bytes) : Type 0 where
  pub result : TypeReports
  pub returned : update_from_fd fd p ≡ ok (result, record { pending = rest; broken = false })
  pub at_key : (k : Bytes) → lookup k result ≡ combined (lookup k m) (lookup k p)

pub update_from_fd-message :
    (m p : TypeReports) (rest recs : Bytes)
    → fill 1 m ≡ ok (recs, length m)
    → IsSendable m
    → Knows p m
    → update_from_fd (record { pending = length m ∷ (recs ++ rest); broken = false }) p
      ≡ ok (merge m p, record { pending = rest; broken = false })
unfolding update_from_fd read
update_from_fd-message m p rest recs filled sendable known =
    read_records-fill rest 1 m p recs (length m) filled sendable known

read_back :
    (m p : TypeReports) (rest recs : Bytes)
    → fill 1 m ≡ ok (recs, length m)
    → IsSorted m
    → IsSendable m
    → Knows p m
    → IsMerged m p (record { pending = length m ∷ (recs ++ rest); broken = false }) rest
read_back m p rest recs filled sorted sendable known = record {
  result = merge m p;
  returned = update_from_fd-message m p rest recs filled sendable known;
  at_key = λ k. lookup-merge m p k sorted;
}

-- A report sent into an empty pipe is read back by a parent that knows its types, whatever `rest`
-- other children have written behind it.
pub update_from_fd-fd_send :
    (m p : TypeReports) (fd : Pipe) (rest : Bytes)
    → fd_send m (record { pending = []; broken = false }) ≡ ok fd
    → IsSorted m
    → IsSendable m
    → Knows p m
    → IsMerged m p (record fd { pending = fd.pending ++ rest }) rest
update_from_fd-fd_send m p fd rest sent sorted sendable known =
    let message = fd_send-IsMessage m (record { pending = []; broken = false }) fd sent in
    rw (message.appended, fd_send_works m fd sent)
      (read_back m p rest message.recs message.filled sorted sendable known)

pub Knows-merge : (m p n : TypeReports) → Knows p n → Knows (merge m p) n
unfolding merge
Knows-merge [] p n h = h
Knows-merge ((name, none) ∷ m) p n h = Knows-merge m p n h
Knows-merge ((name, some r) ∷ m) p n h = Knows-merge m (add name r p) n (Knows-add name r p n h)
