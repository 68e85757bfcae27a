-- ===== src/Report/Filled.antt =====
-- The reports of a barrel hold no null pointer, and their names stay in order.
use super_smack.Prelude.{
  ◌≡◌, refl, ◌∙◌, ap, ◌⊎◌, inl, inr, Option, none, some, [], ◌∷◌, arith, Bytes, str_eq, str_lt,
  str_eq_refl, Bool-cases,
}
use super_smack.Prelude.Int.{ℤ}
use super_smack.StringMap.{lookup, insert}
use super_smack.StringMap.Laws.{lookup-insert, lookup-insert_self}
use super_smack.StringMap.Order.{IsSorted, insert-IsSorted}
use super_smack.Report.Types.{
  TypeReport, new_type_report, TypeReports, add_type, update_type, update_one,
}
use super_smack.Report.Send.{IsFilled}

-- Under this name stands a report, and no null pointer.
abbrev pub Has : Bytes → TypeReports → Type 0
Has name m = (r : TypeReport) × (lookup name m ≡ some (some r))

-- The state that every barrel keeps its reports in.
pub record IsKept (m : TypeReports) : Type 0 where
  pub filled : IsFilled m
  pub sorted : IsSorted m

insert-IsFilled :
    (name : Bytes) (r : TypeReport) (m : TypeReports)
    → IsFilled m
    → IsFilled (insert name (some r) m)
unfolding insert
insert-IsFilled name r [] h = tt
insert-IsFilled name r ((k, none) ∷ m) h = absurd h
insert-IsFilled name r ((k, some s) ∷ m) h = elim (Bool-cases (str_eq k name)) [
  | inl same ↦ rw same h
  | inr other ↦ elim (Bool-cases (str_lt name k)) [
    | inl below ↦ rw (other, below) h
    | inr above ↦ rw (other, above) (insert-IsFilled name r m h)
  ]
]

insert-IsKept :
    (name : Bytes) (r : TypeReport) (m : TypeReports) → IsKept m → IsKept (insert name (some r) m)
insert-IsKept name r m h = record {
  filled = insert-IsFilled name r m h.filled;
  sorted = insert-IsSorted name (some r) m h.sorted;
}

Has-insert :
    (name k : Bytes) (r : TypeReport) (m : TypeReports) → Has k m → Has k (insert name (some r) m)
Has-insert name k r m (s, e) = elim (Bool-cases (str_eq name k)) [
  | inl same ↦ (r, lookup-insert name k (some r) m ∙ rw same refl)
  | inr other ↦ (s, lookup-insert name k (some r) m ∙ rw other e)
]

-- In such a state a name is missing or has a report.
lookup-IsFilled :
    (name : Bytes) (m : TypeReports) → IsFilled m → (lookup name m ≡ none) ⊎ Has name m
unfolding lookup
lookup-IsFilled name [] h = inl refl
lookup-IsFilled name ((k, none) ∷ m) h = absurd h
lookup-IsFilled name ((k, some r) ∷ m) h = elim (Bool-cases (str_eq k name)) [
  | inl same ↦ inr (r, rw same refl)
  | inr other ↦ rw other (lookup-IsFilled name m h)
]

add_type-missing :
    (name : Bytes) (m : TypeReports)
    → lookup name m ≡ none
    → add_type name m ≡ insert name (some new_type_report) (insert name none m)
unfolding add_type
add_type-missing name m e = ground arith

add_type-present : (name : Bytes) (m : TypeReports) → Has name m → add_type name m ≡ m
unfolding add_type
add_type-present name m (r, e) = ground arith

insert-insert :
    (name : Bytes) (o p : Option TypeReport) (m : TypeReports)
    → insert name o (insert name p m) ≡ insert name o m
unfolding insert
insert-insert name o p [] = rw str_eq_refl
insert-insert name o p ((k, q) ∷ m) = elim (Bool-cases (str_eq k name)) [
  | inl same ↦ rw same (rw str_eq_refl refl)
  | inr other ↦ elim (Bool-cases (str_lt name k)) [
    | inl below ↦ rw (other, below) (rw str_eq_refl refl)
    | inr above ↦ rw (other, above) (rw (other, above) (ap (◌∷◌ (k, q)) (insert-insert name o p m)))
  ]
]

-- After `add_query_charge` the query's type has a report, which is new if it had none.
pub add_type-eq :
    (name : Bytes) (m : TypeReports)
    → IsFilled m
    → add_type name m
      ≡ elim (lookup name m) [ none ↦ insert name (some new_type_report) m | some _ ↦ m ]
add_type-eq name m h = elim (lookup-IsFilled name m h) [
  | inl missing ↦ add_type-missing name m missing ∙ insert-insert name _ none m ∙ rw missing refl
  | inr (r, e) ↦ add_type-present name m (r, e) ∙ rw e refl
]

pub add_type-IsKept : (name : Bytes) (m : TypeReports) → IsKept m → IsKept (add_type name m)
add_type-IsKept name m h = elim (lookup-IsFilled name m h.filled) [
  | inl missing ↦
      rw (add_type-missing name m missing, insert-insert) (insert-IsKept name new_type_report m h)
  | inr has ↦ rw (add_type-present name m has) h
]

pub Has-add_type : (name k : Bytes) (m : TypeReports) → IsKept m → Has k m → Has k (add_type name m)
Has-add_type name k m h has = elim (lookup-IsFilled name m h.filled) [
  | inl missing ↦
      rw (add_type-missing name m missing, insert-insert) (Has-insert name k new_type_report m has)
  | inr there ↦ rw (add_type-present name m there) has
]

pub Has-add_type_self : (name : Bytes) (m : TypeReports) → IsKept m → Has name (add_type name m)
Has-add_type_self name m h = elim (lookup-IsFilled name m h.filled) [
  | inl missing ↦
      rw (add_type-missing name m missing, insert-insert)
        (new_type_report, lookup-insert_self name (some new_type_report) m)
  | inr there ↦ rw (add_type-present name m there) there
]

-- `Query_report::update` of a type that has a report.
pub update_type-known :
    (name : Bytes) (t : ℤ) (r : TypeReport) (m : TypeReports)
    → lookup name m ≡ some (some r)
    → update_type name t m ≡ insert name (some (update_one r t)) m
unfolding update_type
update_type-known name t r m e = ground arith

pub update_type-IsKept :
    (name : Bytes) (t : ℤ) (m : TypeReports) → IsKept m → Has name m → IsKept (update_type name t m)
update_type-IsKept name t m h (r, e) =
    rw (update_type-known name t r m e) (insert-IsKept name (update_one r t) m h)

pub Has-update_type :
    (name k : Bytes) (t : ℤ) (m : TypeReports) → Has name m → Has k m → Has k (update_type name t m)
Has-update_type name k t m (r, e) has =
    rw (update_type-known name t r m e) (Has-insert name k (update_one r t) m has)
