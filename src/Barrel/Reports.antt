-- ===== src/Barrel/Reports.antt =====
-- Each query of a barrel has a report of its type, whatever line the barrel was read from.
use super_smack.Prelude.{
  ℕ, ◌≡◌, true, inl, inr, List, [], ◌∷◌, arith, ◌==◌, Bytes, All, All-append, c_str, Bool-cases,
  Option-cases,
}
use super_smack.Prelude.Int.{ℤ}
use super_smack.Result.{ok, >>=-eq-ok, ok_injective}
use mathlib.Core.Path.{subst}
use super_smack.StringMap.{lookup}
use super_smack.Query.{Query}
use super_smack.Report.{TypeReports, add_type}
use super_smack.Report.Filled.{Has, IsKept, add_type-IsKept, Has-add_type, Has-add_type_self}
use super_smack.Barrel.{
  Action, query_charge, sleep_action, Barrel, add_query_charge, add_sleep_action, ParseState,
  at_num_shots, at_query_name, Parser, QueryPool, charge, word_end, step, run, last_word, finish,
  update_client_def, dash, initial,
}

abbrev pub IsReported : TypeReports → Action → Type 0
IsReported m (query_charge q num_shots) = Has q.type_name m
IsReported m (sleep_action sec usec) = Unit

-- The report of each query's type is there, none is a null pointer, and the names are in order.
pub record IsReady (b : Barrel) : Type 0 where
  pub reports : IsKept b.type_reports
  pub reported : All (IsReported b.type_reports) b.actions

All-add_type :
    (name : Bytes) (m : TypeReports) (actions : List Action)
    → IsKept m
    → All (IsReported m) actions
    → All (IsReported (add_type name m)) actions
All-add_type name m [] k h = tt
All-add_type name m (query_charge q n ∷ actions) k h =
    (Has-add_type name q.type_name m k h.0, All-add_type name m actions k h.1)
All-add_type name m (sleep_action s u ∷ actions) k h = (tt, All-add_type name m actions k h.1)

add_query_charge-IsReady :
    (q : Query) (n : ℤ) (b : Barrel) → IsReady b → IsReady (add_query_charge q n b)
unfolding add_query_charge
add_query_charge-IsReady q n b h = record {
  reports = add_type-IsKept q.type_name b.type_reports h.reports;
  reported =
      All-append (IsReported (add_type q.type_name b.type_reports)) b.actions
        (query_charge q n ∷ [])
        (All-add_type q.type_name b.type_reports b.actions h.reports h.reported)
        (Has-add_type_self q.type_name b.type_reports h.reports, tt);
}

add_sleep_action-IsReady : (t : ℤ × ℤ) (b : Barrel) → IsReady b → IsReady (add_sleep_action t b)
unfolding add_sleep_action
add_sleep_action-IsReady (sec, usec) b h = record {
  reports = h.reports;
  reported =
      All-append (IsReported b.type_reports) b.actions (sleep_action sec usec ∷ []) h.reported
        (tt, tt);
}

module _ (sleep_time : Bytes → ℤ × ℤ) (pool : QueryPool) where
  charge-IsReady :
      (name : Bytes) (n : ℤ) (b b' : Barrel)
      → IsReady b
      → charge sleep_time pool name n b ≡ ok b'
      → IsReady b'
  unfolding charge
  charge-IsReady name n b b' h e = elim (Option-cases (lookup name pool)) [
    | inl missing ↦ cc (rw (missing, charge) at e)
    | inr (o, found) ↦ elim (Option-cases o) [
      | inl null ↦ cc (rw (found, charge, null) at e)
      | inr (q, there) ↦
          subst IsReady (ok_injective (rw (found, charge, there) at e))
            (add_query_charge-IsReady q n b h)
    ]
  ]

  word_end-IsReady :
      (state : ParseState) (word : Bytes) (p p' : Parser)
      → IsReady p.qb
      → word_end sleep_time pool state word p ≡ ok p'
      → IsReady p'.qb
  unfolding word_end
  word_end-IsReady at_num_shots word p p' h e = elim (Option-cases (dash word)) [
    | inl number ↦
        subst (λ (p : Parser). IsReady p.qb) (ok_injective (rw (number, word_end) at e)) h
    | inr (time, sleeps) ↦
        subst (λ (p : Parser). IsReady p.qb) (ok_injective (rw (sleeps, word_end) at e))
          (add_sleep_action-IsReady (sleep_time time) p.qb h)
  ]
  word_end-IsReady at_query_name word p p' h e =
      let (qb, charged, e') = >>=-eq-ok (charge sleep_time pool word p.num_shots p.qb) _ e in
      subst (λ (p : Parser). IsReady p.qb) (ok_injective e')
        (charge-IsReady word p.num_shots p.qb qb h charged)

  step-IsReady :
      (c : ℕ) (p p' : Parser) → IsReady p.qb → step sleep_time pool c p ≡ ok p' → IsReady p'.qb
  unfolding step
  step-IsReady c p p' h e = elim (Bool-cases (c == b' ')) [
    | inr other ↦ subst (λ (p : Parser). IsReady p.qb) (ok_injective (rw other at e)) h
    | inl space ↦ elim (Bool-cases p.last_was_space) [
      | inl again ↦ let same : p ≡ p' = ground arith in subst (λ (p : Parser). IsReady p.qb) same h
      | inr ends ↦
          let same : word_end sleep_time pool p.parse_state (c_str p.buf)
                (record p { last_was_space = true; buf = [] })
              ≡ ok p' =
            ground arith in
          word_end-IsReady p.parse_state (c_str p.buf)
            (record p { last_was_space = true; buf = [] }) p' h same
    ]
  ]

  run-IsReady :
      (str : Bytes) (p p' : Parser)
      → IsReady p.qb
      → run sleep_time pool str p ≡ ok p'
      → IsReady p'.qb
  unfolding run
  run-IsReady [] p p' h e = subst (λ (p : Parser). IsReady p.qb) (ok_injective e) h
  run-IsReady (c ∷ str) p p' h e =
      let (q, first, rest) = >>=-eq-ok (step sleep_time pool c p) _ e in
      run-IsReady str q p' (step-IsReady c p q h first) rest

  last_word-IsReady :
      (word : Bytes) (p : Parser) (b : Barrel)
      → IsReady p.qb
      → last_word sleep_time pool word p ≡ ok b
      → IsReady b
  unfolding last_word
  last_word-IsReady word p b h e = elim (Option-cases (dash word)) [
    | inl number ↦ charge-IsReady word p.num_shots p.qb b h (rw (number, last_word) at e)
    | inr (time, sleeps) ↦
        subst IsReady (ok_injective (rw (sleeps, last_word) at e))
          (add_sleep_action-IsReady (sleep_time time) p.qb h)
  ]

  -- Whatever a `query_barrel` line holds, the barrel that is read from it can report each of its
  -- queries: the type of every one has a report.
  pub update_client_def-IsReady :
      (str : Bytes) (b : Barrel) → update_client_def sleep_time pool str ≡ ok b → IsReady b
  unfolding update_client_def
  update_client_def-IsReady str b e =
      let (p, ran, ended) = >>=-eq-ok (run sleep_time pool str initial) _ e in
      let h =
        run-IsReady str initial p
          (record { reports = record { filled = tt; sorted = tt }; reported = tt }) ran in
      elim (Bool-cases p.last_was_space) [
        | inl over ↦ let same : p.qb ≡ b = unfold finish in ground arith in subst IsReady same h
        | inr more ↦
            let same : last_word sleep_time pool (c_str p.buf) p ≡ ok b =
              unfold finish in ground arith in
            last_word-IsReady (c_str p.buf) p b h same
      ]
