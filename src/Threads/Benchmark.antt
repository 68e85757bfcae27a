-- ===== src/Threads/Benchmark.antt =====
-- A whole run of a client: each child unloads the barrel, and the parent gathers what it counted.
mod Tests
use native.Mathlib.Nat.{suc-mul}
use super_smack.Prelude.{
  ℕ, suc, ◌+◌, ◌*◌, ◌^◌, ◌<◌, ◌≡◌, refl, sym, ap, ◌∙◌, Bool, true, false, Option, none, some, List,
  [], ◌∷◌, if◌then◌else◌, Bytes, str_eq, str_eq_iff, length, arith, All, sum_by, Bool-cases, inl,
  inr,
}
use super_smack.Prelude.Int.{ℤ, pos, pos_part, neg_part}
use super_smack.Result.{ok, ok_injective}
use super_smack.StringMap.{lookup}
use super_smack.StringMap.Order.{IsSorted, lookup-Above}
use super_smack.Report.{TypeReport, TypeReports}
use super_smack.Barrel.{Barrel}
use super_smack.Barrel.Fire.{Connection, unload_query_barrel}
use super_smack.Barrel.Fire.Schedule.{schedule}
use super_smack.Barrel.Fire.Counts.{count, unload_query_barrel-HasCount}
use super_smack.Threads.{Collector}
use super_smack.Threads.System.{Message, finished, System, Reach, start}
use super_smack.Threads.Collect.{IsFit}
use super_smack.Threads.Totals.{counted, told, owing, HasCount, collected_totals}

counted_other :
    (f : TypeReport → ℕ) (name key : Bytes) (o : Option TypeReport) (m : TypeReports)
    → str_eq key name ≡ false
    → counted f name ((key, o) ∷ m) ≡ counted f name m
unfolding counted
counted_other f name key none m e = refl
counted_other f name key (some r) m e = rw e (omega arith)

counted-none :
    (f : TypeReport → ℕ) (name : Bytes) (m : TypeReports)
    → lookup name m ≡ none
    → counted f name m ≡ 0
unfolding counted lookup
counted-none f name [] h = refl
counted-none f name ((key, o) ∷ m) h = elim (Bool-cases (str_eq key name)) [
  | inl same ↦ cc (rw same at h)
  | inr other ↦ counted_other f name key o m other ∙ counted-none f name m (rw other at h)
]

some_injective : {o p : Option TypeReport} → some o ≡ some p → o ≡ p
some_injective e = cc

-- In the order of the keys a type has one report at most.
counted-lookup :
    (f : TypeReport → ℕ) (name : Bytes) (m : TypeReports) (r : TypeReport)
    → IsSorted m
    → lookup name m ≡ some (some r)
    → counted f name m ≡ f r
unfolding counted lookup
counted-lookup f name [] r s h = cc h
counted-lookup f name ((key, o) ∷ m) r s h = elim (Bool-cases (str_eq key name)) [
  | inl same ↦
      let held : o ≡ some r = some_injective (rw same at h) in
      let absent = rw ((str_eq_iff key name).0 same) at (lookup-Above key m s.0) in
      rw (held, same) (omega (arith, counted-none f name m absent))
  | inr other ↦ counted_other f name key o m other ∙ counted-lookup f name m r s.1 (rw other at h)
]

sum_by-same :
    (f : Message → ℕ) (k : ℕ) (ms : List Message)
    → All (λ (m : Message). f m ≡ k) ms
    → sum_by f ms ≡ length ms * k
sum_by-same f k [] h = omega arith
sum_by-same f k (m ∷ ms) h = omega (arith, h.0, sum_by-same f k ms h.1, suc-mul (length ms) k)

module _ {ℓ} {World : Type ℓ} (cn : Connection World) (qb : Barrel) where
  -- A child whose reports are those of the barrel, unloaded from some state of the world.
  abbrev pub HasUnloaded : Message → Type ℓ
  HasUnloaded m =
      (w : World) × (s : World × Barrel) × (unload_query_barrel cn qb w ≡ ok s)
      × (m.type_reports ≡ s.1.type_reports)

  module _ (name : Bytes) (n : ℕ) (own : HasCount name n qb.type_reports)
      (few : suc (n + count name (schedule qb)) < 2 ^ 31) where
    unloaded-HasCount :
        (m : Message) → HasUnloaded m → HasCount name (n + count name (schedule qb)) m.type_reports
    unloaded-HasCount m (w, s, e, same) =
        rw same (unload_query_barrel-HasCount cn name n qb w own few e)

    told_each :
        (c0 : Collector) (ms : List Message)
        → All (IsFit c0) ms
        → All HasUnloaded ms
        → All (λ (m : Message). told name m ≡ n + count name (schedule qb)) ms
          × All (λ (m : Message). owing name m ≡ 0) ms
    told_each c0 [] fit h = (tt, tt)
    told_each c0 (m ∷ ms) fit h =
        let (r, l, c) = unloaded-HasCount m h.0 in
        let (more, none_more) = told_each c0 ms fit.1 h.1 in
        let sorted = fit.0.0.sorted in
        (
          (
            counted-lookup (λ r. pos_part r.num_queries) name m.type_reports r sorted l
                ∙ ap pos_part c,
            more,
          ),
          (
            counted-lookup (λ r. neg_part r.num_queries) name m.type_reports r sorted l
                ∙ ap neg_part c,
            none_more,
          ),
        )

    -- Where each child whose message the parent gets has unloaded the barrel from some state of the
    -- world, and the parent has found no child left, the parent's number of queries of a type is its own and, for
    -- each child, what the barrel came with and one for each shot of the type in its schedule. The
    -- messages fit, the barrel and the parent have a report of the type, and the sums are below
    -- 2^31.
    pub benchmark_total :
        (ms : List Message) (c0 : Collector) (s : System) (n0 k : ℕ)
        → All (IsFit c0) ms
        → All HasUnloaded ms
        → HasCount name n0 c0.type_reports
        → c0.num_reported_clients ≡ pos k
        → n0 + length ms * (n + count name (schedule qb)) < 2 ^ 31
        → k + length ms < 2 ^ 31
        → Reach (start ms c0) s
        → s.phase ≡ finished
        → HasCount name (n0 + length ms * (n + count name (schedule qb))) s.collector.type_reports
    benchmark_total ms c0 s n0 k fit unloaded here clients small few_clients r f =
        let (each, none_owing) = told_each c0 ms fit unloaded in
        let sum = sum_by-same (told name) (n + count name (schedule qb)) ms each in
        rw (← sum)
          (collected_totals name ms c0 s n0 k fit none_owing here clients (rw sum small) few_clients
            r f).0
