-- ===== src/Report/Print.antt =====
-- What is printed of a report, and what a script asks of it: `print` of src/query.cc and
-- src/client.h, and `Client::get_param_val` of src/client.cc.
use super_smack.Prelude.{
  ℕ, Bool, ◌&&◌, none, some, [], ◌∷◌, ◌++◌, if◌then◌else◌, Bytes, codes, str_eq,
}
use super_smack.Prelude.Int.{ℤ, pos, sub_ℕ, eq_ℤ}
use super_smack.Prelude.Decimal.{int_text}
use super_smack.Result.{
  Result, ok, died, null_report, no_such_query_type, unknown_query_param, ◌>>=◌,
}
use super_smack.Report.{TypeReport, TypeReports, index}

-- A run time in seconds and microseconds, as `end - start`.
pub record RunTime : Type 0 where
  pub sec : ℤ
  pub usec : ℤ

-- `start` and `end` of a `Query_report`.
pub record Clock : Type 0 where
  pub start_sec : ℕ
  pub start_usec : ℕ
  pub end_sec : ℕ
  pub end_usec : ℕ

-- `Query_report()`
abbrev pub new_clock : Clock
new_clock = record { start_sec = 0; start_usec = 0; end_sec = 0; end_usec = 0 }

-- `Query_report::start_clock` and `Query_report::stop_clock`, by what `gettimeofday` gives.
unfoldable pub start_clock : ℕ → ℕ → Clock → Clock
start_clock tv_sec tv_usec c = record c { start_sec = tv_sec; start_usec = tv_usec }

unfoldable pub stop_clock : ℕ → ℕ → Clock → Clock
stop_clock tv_sec tv_usec c = record c { end_sec = tv_sec; end_usec = tv_usec }

-- What `print` gives on, and `get_run_time` computes with.
unfoldable pub run_time_of : Clock → RunTime
run_time_of c = record { sec = sub_ℕ c.end_sec c.start_sec; usec = sub_ℕ c.end_usec c.start_usec }

-- `snprintf` of the queries in a second, `%.2f`, by the number of queries and the time.
module _ (q_per_s : ℤ → RunTime → Bytes) where
  -- `Query_type_report::print`
  unfoldable pub print_type : TypeReport → RunTime → Bytes
  print_type r t =
      let rate =
        if eq_ℤ t.sec (pos 0) && eq_ℤ t.usec (pos 0)
        then codes "n/a"
        else q_per_s r.num_queries t in
      int_text r.num_queries
      ++ b'\t'
        ∷ (int_text r.max_time ++ b'\t' ∷ (int_text r.min_time ++ b'\t' ∷ (rate ++ b'\n' ∷ [])))

  -- The loop of `Query_report::print`, over the types in order.
  unfoldable pub print_types : TypeReports → RunTime → Result Bytes
  print_types [] t = ok []
  print_types ((name, none) ∷ m) t = died null_report
  print_types ((name, some r) ∷ m) t = do
    rest ← print_types m t
    ok (name ++ b'\t' ∷ (print_type r t ++ rest))

  abbrev pub heading : Bytes
  heading = codes "Query_type\tnum_queries\tmax_time\tmin_time\tq_per_s\n"

  -- `Query_report::print`
  unfoldable pub print_report : TypeReports → RunTime → Result Bytes
  print_report m t = do rows ← print_types m t; ok (heading ++ rows)

-- `Client::print_connect_times`, by the maximum, the minimum, the average and the number.
unfoldable pub print_connect_times : ℤ → ℤ → ℤ → ℤ → Bytes
print_connect_times max_connect_time min_connect_time avg_connect_time num_reported_clients =
    codes "connect: max="
    ++ int_text max_connect_time
    ++ codes "ms  min="
    ++ int_text min_connect_time
    ++ codes "ms avg= "
    ++ int_text avg_connect_time
    ++ codes "ms from "
    ++ int_text num_reported_clients
    ++ codes " clients \n"

-- A `Val` is made of a number, or of the rate, which is a parameter like its printing.
pub data ParamVal (Rate : Type 0) : Type 0 where
  number : ℤ → ParamVal Rate
  rate : Rate → ParamVal Rate

module _ {Rate : Type 0} (divide : ℤ → RunTime → Rate) (is_zero : RunTime → Bool) where
  -- The tests on the second name.
  unfoldable pub type_param : Bytes → TypeReport → RunTime → Result (ParamVal Rate)
  type_param s2 qr run_time =
      if str_eq s2 (codes "num_queries")
      then ok (number qr.num_queries)
      else if str_eq s2 (codes "max_time")
      then ok (number qr.max_time)
      else if str_eq s2 (codes "min_time")
      then ok (number qr.min_time)
      else if str_eq s2 (codes "q_per_s")
      then ok (if is_zero run_time then number (pos 0) else rate (divide qr.num_queries run_time))
      else died (unknown_query_param s2)

  -- `Client::get_param_val(string&, string&)`, with the reports, to which an unknown type is added.
  unfoldable pub get_type_param_val :
      Bytes → Bytes → RunTime → TypeReports → Result (ParamVal Rate × TypeReports)
  get_type_param_val s1 s2 run_time m =
      let (qr, m') = index s1 m in
      elim qr [
        | none ↦ died (no_such_query_type s1)
        | some r ↦ (do v ← type_param s2 r run_time; ok (v, m'))
      ]
