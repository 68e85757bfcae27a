-- ===== src/Report/Indexed.antt =====
-- The report of a type behind `Query_report::update` (src/query.cc), which looks its type up.
use super_smack.Prelude.{
  ◌≡◌, refl, ap, ◌∙◌, false, Option, none, some, if◌then◌else◌, Bytes, str_eq, str_eq_iff,
  Bool-cases, Option-cases, inl, inr,
}
use super_smack.Prelude.Int.{ℤ}
use super_smack.StringMap.{lookup, insert}
use super_smack.StringMap.Laws.{lookup-insert, lookup-insert_self}
use super_smack.Report.{TypeReport, TypeReports, update_one, update_type, index}

index-some :
    (k : Bytes) (m : TypeReports) (o : Option TypeReport) → lookup k m ≡ some o → index k m ≡ (o, m)
unfolding index
index-some k m o e = rw (e, index) refl

index-none : (k : Bytes) (m : TypeReports) → lookup k m ≡ none → index k m ≡ (none, insert k none m)
unfolding index
index-none k m e = rw (e, index) refl

-- What `update_type` does with the entry that `index` gives.
abbrev updated : Bytes → ℤ → Option TypeReport × TypeReports → TypeReports
updated name q_time entry = elim entry.0 [
  | some r ↦ insert name (some (update_one r q_time)) entry.1
  | none ↦ entry.1
]

update_type-index :
    (name : Bytes) (q_time : ℤ) (m : TypeReports) {entry : Option TypeReport × TypeReports}
    → index name m ≡ entry
    → update_type name q_time m ≡ updated name q_time entry
unfolding update_type
update_type-index name q_time m e = ap (updated name q_time) e

update_type_known :
    (t : Bytes) (q_time : ℤ) (m : TypeReports) (r : TypeReport)
    → lookup t m ≡ some (some r)
    → update_type t q_time m ≡ insert t (some (update_one r q_time)) m
update_type_known t q_time m r e = update_type-index t q_time m (index-some t m (some r) e)

lookup-insert_other :
    (t name : Bytes) (o : Option TypeReport) (m : TypeReports)
    → str_eq name t ≡ false
    → lookup t (insert name o m) ≡ lookup t m
lookup-insert_other t name o m other = lookup-insert name t o m ∙ rw other refl

pub lookup-update_type :
    (t name : Bytes) (q_time : ℤ) (m : TypeReports) (r : TypeReport)
    → lookup t m ≡ some (some r)
    → lookup t (update_type name q_time m)
      ≡ some (some (if str_eq name t then update_one r q_time else r))
lookup-update_type t name q_time m r e = elim (Bool-cases (str_eq name t)) [
  | inl same ↦
      let name_t = (str_eq_iff name t).0 same in
      rw (same, name_t, update_type_known t q_time m r e)
        (lookup-insert_self t (some (update_one r q_time)) m)
  | inr other ↦ rw other (elim (Option-cases (lookup name m)) [
    | inl missing ↦
        rw (update_type-index name q_time m (index-none name m missing))
          (lookup-insert_other t name none m other ∙ e)
    | inr (none, null) ↦ rw (update_type-index name q_time m (index-some name m none null)) e
    | inr (some r', there) ↦
        rw (update_type-index name q_time m (index-some name m (some r') there))
          (lookup-insert_other t name _ m other ∙ e)
  ])
]
