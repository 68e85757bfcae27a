-- ===== src/Report/Stats.antt =====
-- What `Query_type_report` holds after a run of queries, and after the reports of the children.
use super_smack.Prelude.{
  ℕ, suc, ◌+◌, ◌^◌, ◌<◌, ◌≡◌, refl, List, [], ◌∷◌, ◌++◌, arith, length, All, ◌∙◌, ap,
}
use super_smack.Prelude.Int.{ℤ, pos, ◌≤ℤ◌, ◌+ᵢ◌}
use super_smack.Report.Types.{TypeReport, new_type_report, update_one, update_many}

-- One `update(int)` for each query of a run, in order.
pub update_each : TypeReport → List ℤ → TypeReport
update_each r [] = r
update_each r (t ∷ ts) = update_each (update_one r t) ts

pub +ᵢ-one : (n : ℕ) → suc n < 2 ^ 31 → pos n +ᵢ pos 1 ≡ pos (suc n)
unfolding ◌+ᵢ◌
+ᵢ-one n h = ground arith

-- The state after a run whose last query took `t`.
pub record IsLast (n : ℕ) (t : ℤ) (r : TypeReport) : Type 0 where
  pub num_queries : r.num_queries ≡ pos (suc n)
  pub min_time : r.min_time ≡ t
  pub max_time : r.max_time ≡ t

update_one-IsLast :
    (n : ℕ) (t : ℤ) (r : TypeReport)
    → r.num_queries ≡ pos (suc n)
    → suc (suc n) < 2 ^ 31
    → IsLast (suc n) t (update_one r t)
unfolding update_one
update_one-IsLast n t r e h = ground (arith, +ᵢ-one (suc n))

pub update_one-num_queries :
    (n : ℕ) (t : ℤ) (r : TypeReport)
    → r.num_queries ≡ pos n
    → suc n < 2 ^ 31
    → (update_one r t).num_queries ≡ pos (suc n)
unfolding update_one
update_one-num_queries n t r e h = ground (arith, +ᵢ-one n)

update_each-num_queries :
    (ts : List ℤ) (n : ℕ) (r : TypeReport)
    → r.num_queries ≡ pos n
    → n + length ts < 2 ^ 31
    → (update_each r ts).num_queries ≡ pos (n + length ts)
unfolding update_each
update_each-num_queries [] n r e h = ground arith
update_each-num_queries (t ∷ ts) n r e h =
    let one : (update_one r t).num_queries ≡ pos (suc n) =
      update_one-num_queries n t r e (omega arith) in
    update_each-num_queries ts (suc n) (update_one r t) one (omega arith) ∙ ap pos (omega arith)

update_each-append :
    (xs : List ℤ) (t : ℤ) (r : TypeReport)
    → update_each r (xs ++ t ∷ []) ≡ update_one (update_each r xs) t
unfolding update_each
update_each-append [] t r = refl
update_each-append (x ∷ xs) t r = update_each-append xs t (update_one r x)

-- After two queries or more the fastest and the slowest time are both the time of the last query,
-- whatever the others took, and the number of queries is right.
pub update_each-IsLast :
    (first : ℤ) (ts : List ℤ) (t : ℤ)
    → length ts + 2 < 2 ^ 31
    → IsLast (suc (length ts)) t (update_each new_type_report (first ∷ (ts ++ t ∷ [])))
update_each-IsLast first ts t h =
    let before = update_each new_type_report (first ∷ ts) in
    let count : before.num_queries ≡ pos (suc (length ts)) =
      update_each-num_queries (first ∷ ts) 0 new_type_report refl (omega arith)
      ∙ ap pos (omega arith) in
    rw (update_each-append (first ∷ ts) t new_type_report)
      (update_one-IsLast (length ts) t before count (omega arith))

-- One `update(int, int, int)` for the report of each child, in order.
pub absorb_each : TypeReport → List TypeReport → TypeReport
absorb_each r [] = r
absorb_each r (c ∷ cs) = absorb_each (update_many r c.num_queries c.max_time c.min_time) cs

-- The bounds of a merged report: no child was slower than `max_time`, which does not fall, and
-- `min_time` is still that of the parent.
record IsBound (r : TypeReport) (cs : List TypeReport) (merged : TypeReport) : Type 0 where
  slowest : All (λ c. c.max_time ≤ℤ merged.max_time) cs
  grows : r.max_time ≤ℤ merged.max_time
  min_time : merged.min_time ≡ r.min_time

absorb_each-IsBound :
    (r : TypeReport) (cs : List TypeReport)
    → All (λ c. r.min_time ≤ℤ c.min_time) cs
    → IsBound r cs (absorb_each r cs)
unfolding absorb_each update_many
absorb_each-IsBound r [] h = record { slowest = tt; grows = omega arith; min_time = refl }
absorb_each-IsBound r (c ∷ cs) h =
    let r' = update_many r c.num_queries c.max_time c.min_time in
    let kept : r'.min_time ≡ r.min_time = ground arith in
    let later = absorb_each-IsBound r' cs (rw kept h.1) in
    let above : (c.max_time ≤ℤ r'.max_time) × (r.max_time ≤ℤ r'.max_time) = ground arith in
    record {
      slowest = (omega (arith, above.0, later.grows), later.slowest);
      grows = omega (arith, above.1, later.grows);
      min_time = later.min_time ∙ kept;
    }

-- A parent whose report is new, and whose children report no negative time, ends with a
-- `min_time` of 0, and with a `max_time` that no child's exceeds.
pub absorb_each_min_time :
    (cs : List TypeReport)
    → All (λ c. pos 0 ≤ℤ c.min_time) cs
    → ((absorb_each new_type_report cs).min_time ≡ pos 0)
      × All (λ c. c.max_time ≤ℤ (absorb_each new_type_report cs).max_time) cs
absorb_each_min_time cs h =
    let b = absorb_each-IsBound new_type_report cs h in (b.min_time, b.slowest)
