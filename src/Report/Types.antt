-- ===== src/Report/Types.antt =====
-- `Query_type_report` and the updates of `Query_report` in src/query.cc. Times are `int`s, in ms.
use super_smack.Prelude.{Bool, true, false, Option, none, some, if◌then◌else◌, Bytes, ◌==◌}
use super_smack.Prelude.Int.{ℤ, pos, ltb_ℤ, ◌+ᵢ◌}
use super_smack.StringMap.{StringMap, lookup, insert}

pub record TypeReport : Type 0 where
  pub num_queries : ℤ
  pub min_time : ℤ
  pub max_time : ℤ

-- `Query_type_report()`
abbrev pub new_type_report : TypeReport
new_type_report = record { num_queries = pos 0; min_time = pos 0; max_time = pos 0 }

-- A conversion of an `int` to `bool`: `if(n)`.
abbrev pub is_nonzero : ℤ → Bool
is_nonzero (pos n) = if n == 0 then false else true
is_nonzero _ = true

-- `Query_type_report::update(int q_time)`
unfoldable pub update_one : TypeReport → ℤ → TypeReport
update_one r q_time =
    let times =
      if is_nonzero r.num_queries
      then record r { min_time = q_time; max_time = q_time }
      else record r {
        min_time = if ltb_ℤ q_time r.min_time then q_time else r.min_time;
        max_time = if ltb_ℤ r.max_time q_time then q_time else r.max_time;
      } in
    record times { num_queries = times.num_queries +ᵢ pos 1 }

-- `Query_type_report::update(int num_queries, int max_q_time, int min_q_time)`
unfoldable pub update_many : TypeReport → ℤ → ℤ → ℤ → TypeReport
update_many r num_queries max_q_time min_q_time = record {
  num_queries = r.num_queries +ᵢ num_queries;
  min_time = if ltb_ℤ min_q_time r.min_time then min_q_time else r.min_time;
  max_time = if ltb_ℤ r.max_time max_q_time then max_q_time else r.max_time;
}

-- `map<string, Query_type_report*>`; `none` is a null pointer. Each pointer of the program is held
-- by one entry of one map, so a report is kept in the entry itself.
abbrev pub TypeReports : Type 0
TypeReports = StringMap (Option TypeReport)

-- `type_reports[name]`, which adds a null pointer under a name that is missing.
unfoldable pub index : Bytes → TypeReports → Option TypeReport × TypeReports
index name m = elim (lookup name m) [ some r ↦ (r, m) | none ↦ (none, insert name none m) ]

-- `Query_report::update`
unfoldable pub update_type : Bytes → ℤ → TypeReports → TypeReports
unfolding index
update_type type_name q_time m =
    let (qtr, m') = index type_name m in
    elim qtr [ some r ↦ insert type_name (some (update_one r q_time)) m' | none ↦ m' ]

-- The lines of `Query_barrel::add_query_charge` that make room for a query's type.
unfoldable pub add_type : Bytes → TypeReports → TypeReports
unfolding index
add_type type_name m =
    let (qtr, m') = index type_name m in
    elim qtr [ some r ↦ m' | none ↦ insert type_name (some new_type_report) m' ]
