-- ===== src/Threads/Totals.antt =====
-- The numbers that a report of a run prints: how many queries of a type were fired, and by how many
-- clients.
use super_smack.Prelude.{
  ℕ, ◌+◌, ◌^◌, ◌<◌, ◌≡◌, refl, sym, ap, ◌∙◌, false, none, some, List, [], ◌∷◌, if◌then◌else◌, Bytes,
  str_eq, str_eq_refl, str_eq_iff, length, arith, All, sum_by, Perm-sum_by, Bool-cases, inl, inr,
}
use super_smack.Prelude.Int.{ℤ, pos, negsuc, pos_part, neg_part, ◌+ᵢ◌}
use super_smack.StringMap.{lookup}
use super_smack.Report.{TypeReport, TypeReports, update_many}
use super_smack.Report.Merge.{merge, add, lookup-add}
use super_smack.Threads.{Collector, add_time}
use super_smack.Threads.System.{Message, finished, System, Reach, start}
use super_smack.Threads.Collect.{absorb, gather, IsFit}
use super_smack.Threads.Collect.Gathered.{collected}

-- What the reports of a type come to.
unfoldable pub counted : (TypeReport → ℕ) → Bytes → TypeReports → ℕ
counted f name [] = 0
counted f name ((key, none) ∷ m) = counted f name m
counted f name ((key, some r) ∷ m) = (if str_eq key name then f r else 0) + counted f name m

-- How many queries of a type a child tells of, and how many below none.
abbrev pub told : Bytes → Message → ℕ
told name m = counted (λ r. pos_part r.num_queries) name m.type_reports

abbrev pub owing : Bytes → Message → ℕ
owing name m = counted (λ r. neg_part r.num_queries) name m.type_reports

-- A report of a type at its place, with the number of its queries.
abbrev pub HasCount : Bytes → ℕ → TypeReports → Type 0
HasCount name n p = (r : TypeReport) × (lookup name p ≡ some (some r)) × (r.num_queries ≡ pos n)

+ᵢ-pos : (a b : ℕ) → a + b < 2 ^ 31 → pos a +ᵢ pos b ≡ pos (a + b)
unfolding ◌+ᵢ◌
+ᵢ-pos a b h = ground arith

pos-pos_part : (z : ℤ) → neg_part z ≡ 0 → z ≡ pos (pos_part z)
pos-pos_part (pos n) h = refl
pos-pos_part (negsuc n) h = absurd (omega (arith, h))

add-HasCount :
    (name : Bytes) (n : ℕ) (r : TypeReport) (p : TypeReports)
    → neg_part r.num_queries ≡ 0
    → n + pos_part r.num_queries < 2 ^ 31
    → HasCount name n p
    → HasCount name (n + pos_part r.num_queries) (add name r p)
unfolding update_many
add-HasCount name n r p z h (s, l, c) = (
  update_many s r.num_queries r.max_time r.min_time,
  lookup-add name name r p ∙ rw (str_eq_refl name, l) refl,
  ap (λ k. k +ᵢ r.num_queries) c
      ∙ ap (λ k. pos n +ᵢ k) (pos-pos_part r.num_queries z)
      ∙ +ᵢ-pos n (pos_part r.num_queries) h,
)

add-HasCount_other :
    (key name : Bytes) (n : ℕ) (r : TypeReport) (p : TypeReports)
    → str_eq key name ≡ false
    → HasCount name n p
    → HasCount name n (add key r p)
add-HasCount_other key name n r p other (s, l, c) = (s, lookup-add key name r p ∙ rw other l, c)

merge-HasCount :
    (name : Bytes) (m p : TypeReports) (n : ℕ)
    → counted (λ r. neg_part r.num_queries) name m ≡ 0
    → n + counted (λ r. pos_part r.num_queries) name m < 2 ^ 31
    → HasCount name n p
    → HasCount name (n + counted (λ r. pos_part r.num_queries) name m) (merge m p)
unfolding counted merge
merge-HasCount name [] p n z h (r, l, c) = (r, l, c ∙ ap pos (omega arith))
merge-HasCount name ((key, none) ∷ m) p n z h c = merge-HasCount name m p n z h c
merge-HasCount name ((key, some r) ∷ m) p n z h c = elim (Bool-cases (str_eq key name)) [
  | inl same ↦
      let z' = rw same at z in
      let h' = rw same at h in
      let added : HasCount name (n + pos_part r.num_queries) (add key r p) =
        rw ((str_eq_iff key name).0 same)
          (add-HasCount name n r p (omega (arith, z')) (omega (arith, h')) c) in
      let (s, l, e) =
        merge-HasCount name m (add key r p) (n + pos_part r.num_queries) (omega (arith, z'))
          (omega (arith, h')) added in
      rw same (s, l, e ∙ ap pos (omega arith))
  | inr other ↦
      let z' = rw other at z in
      let h' = rw other at h in
      let (s, l, e) =
        merge-HasCount name m (add key r p) n (omega (arith, z')) (omega (arith, h'))
          (add-HasCount_other key name n r p other c) in
      rw other (s, l, e ∙ ap pos (omega arith))
]

absorb-HasCount :
    (name : Bytes) (m : Message) (c : Collector) (n : ℕ)
    → owing name m ≡ 0
    → n + told name m < 2 ^ 31
    → HasCount name n c.type_reports
    → HasCount name (n + told name m) (absorb m c).type_reports
absorb-HasCount name m c n z h k = merge-HasCount name m.type_reports c.type_reports n z h k

gather-HasCount :
    (name : Bytes) (ms : List Message) (c : Collector) (n : ℕ)
    → sum_by (owing name) ms ≡ 0
    → n + sum_by (told name) ms < 2 ^ 31
    → HasCount name n c.type_reports
    → HasCount name (n + sum_by (told name) ms) (gather c ms).type_reports
unfolding gather
gather-HasCount name [] c n z h (r, l, k) = (r, l, k ∙ ap pos (omega arith))
gather-HasCount name (m ∷ ms) c n z h k =
    let (r, l, e) =
      gather-HasCount name ms (absorb m c) (n + told name m) (omega (arith, z)) (omega (arith, h))
        (absorb-HasCount name m c n (omega (arith, z)) (omega (arith, h)) k) in
    (r, l, e ∙ ap pos (omega arith))

gather-num_reported_clients :
    (ms : List Message) (c : Collector) (n : ℕ)
    → c.num_reported_clients ≡ pos n
    → n + length ms < 2 ^ 31
    → (gather c ms).num_reported_clients ≡ pos (n + length ms)
unfolding gather add_time
gather-num_reported_clients [] c n e h = e ∙ ap pos (omega arith)
gather-num_reported_clients (m ∷ ms) c n e h =
    gather-num_reported_clients ms (absorb m c) (n + 1)
      (ap (λ k. k +ᵢ pos 1) e ∙ +ᵢ-pos n 1 (omega (arith, h))) (omega (arith, h))
    ∙ ap pos (omega arith)

owing_none :
    (name : Bytes) (ms : List Message)
    → All (λ (m : Message). owing name m ≡ 0) ms
    → sum_by (owing name) ms ≡ 0
owing_none name [] h = refl
owing_none name (m ∷ ms) h = omega (arith, h.0, owing_none name ms h.1)

sum_by-length : (ms : List Message) → sum_by (λ m. 1) ms ≡ length ms
sum_by-length [] = refl
sum_by-length (m ∷ ms) = omega (arith, sum_by-length ms)

-- Where the parent has found no child left, the number of queries that it has of a type is its own
-- and those of all the children, and the number of clients its own and that of the children,
-- whatever the order of the steps was: each message fits and tells of no negative number, and both
-- sums are below 2^31.
pub collected_totals :
    (name : Bytes) (ms : List Message) (c0 : Collector) (s : System) (n k : ℕ)
    → All (IsFit c0) ms
    → All (λ (m : Message). owing name m ≡ 0) ms
    → HasCount name n c0.type_reports
    → c0.num_reported_clients ≡ pos k
    → n + sum_by (told name) ms < 2 ^ 31
    → k + length ms < 2 ^ 31
    → Reach (start ms c0) s
    → s.phase ≡ finished
    → HasCount name (n + sum_by (told name) ms) s.collector.type_reports
      × (s.collector.num_reported_clients ≡ pos (k + length ms))
collected_totals name ms c0 s n k fit none_owing own clients few few_clients r f =
    let (order, p, e) = collected ms c0 s fit r f in
    let same = Perm-sum_by (told name) p in
    let none_owed = sym (Perm-sum_by (owing name) p) ∙ owing_none name ms none_owing in
    let as_long : length order ≡ length ms =
      sym (sum_by-length order) ∙ sym (Perm-sum_by (λ (m : Message). 1) p) ∙ sum_by-length ms in
    let (t, l, c) = gather-HasCount name order c0 n none_owed (omega (arith, same, few)) own in
    rw e (
      (t, l, c ∙ ap pos (omega (arith, same))),
      gather-num_reported_clients order c0 k clients (omega (arith, as_long, few_clients))
          ∙ ap pos (omega (arith, as_long)),
    )
