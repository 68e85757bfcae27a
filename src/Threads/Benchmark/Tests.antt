-- ===== src/Threads/Benchmark/Tests.antt =====
-- A run of a client with two children, who fire a barrel.
use super_smack.Prelude.{
  ℕ, suc, ◌+◌, ◌*◌, ◌≡◌, ◌≢◌, refl, true, str_eq, c_str, List, [], ◌∷◌, some, arith, codes, All,
  length,
}
use super_smack.Prelude.Int.{pos, ◌+ᵢ◌}
use super_smack.StringMap.{lookup, insert}
use super_smack.Query.{new_query}
use super_smack.Report.{TypeReport, new_type_report, update_type, update_one}
use super_smack.Barrel.{Barrel, query_charge}
use super_smack.Barrel.Fire.{
  Connection, Timeval, exchange, send, elapsed, fire_shot, fire_shots, fire, fire_all, fire_rounds,
  unload_query_barrel,
}
use super_smack.Database.Pg.{
  Libpq, succeeded, new_pg, safe_query, exec_on, answered, clear, find, remove,
}
use super_smack.Database.PgBarrel.{PgWorld, pg_connection, query_on, clock_on}
use super_smack.Barrel.Fire.Schedule.{schedule}
use super_smack.Barrel.Fire.Counts.{count}
use super_smack.Threads.{Collector, new_collector}
use super_smack.Threads.System.{Message, finished, System, Reach, start, here}
use super_smack.Threads.Collect.{IsFit}
use super_smack.Threads.Totals.{HasCount}
use super_smack.Threads.Progress.{all_to_go, reach_finished}
use super_smack.Threads.Benchmark.{HasUnloaded, benchmark_total}

abbrev parent : Collector
parent = new_collector ((codes "s", some new_type_report) ∷ [])

-- A server of Postgres that counts its queries and gives each an empty result; its clock reads
-- the count, in milliseconds.
abbrev server : Libpq ℕ
server = record {
  login = λ l n. (true, n);
  exec = λ q n. (succeeded (record { fields = []; rows = [] }), suc n);
}

abbrev clock : ℕ → Timeval × ℕ
clock n = (record { tv_sec = 10; tv_usec = 1000 * n }, n)

abbrev pg : Connection (PgWorld ℕ)
pg = pg_connection server (λ f n. f) (λ n. n) (λ s. s) clock (λ sec usec n. n)

abbrev online : PgWorld ℕ
online = record { client = record (new_pg 0) { con = true }; dictionaries = []; calls = 0 }

-- After four queries.
abbrev later : PgWorld ℕ
later = record online {
  client = record online.client {
    res = some 3;
    live = (3, record { fields = []; rows = [] }) ∷ [];
    fresh = 4;
    server = 4;
  };
}

abbrev pair : Barrel
pair = record {
  actions =
      query_charge
        (record new_query { name = codes "sel"; type_name = codes "s"; query = codes "select 1" })
        (pos 2)
      ∷ [];
  num_rounds = pos 2;
  type_reports = parent.type_reports;
}

abbrev four : TypeReport
four = record { num_queries = pos 4; min_time = pos 1; max_time = pos 1 }

abbrev fired : Message
fired = record { connect_time = pos 7; type_reports = (codes "s", some four) ∷ [] }

fired-HasUnloaded : HasUnloaded pg pair fired
unfolding unload_query_barrel fire_rounds fire_all fire fire_shots fire_shot exchange send
    update_type lookup str_eq c_str insert update_one ◌+ᵢ◌ elapsed query_on clock_on safe_query
    exec_on answered clear find remove
fired-HasUnloaded = (online, (later, record pair { type_reports = fired.type_reports }), refl, refl)

s_no_nul : ◌≢◌ {A = ℕ} b's' 0
s_no_nul e = absurd (ground arith)

known_s : lookup (codes "s") parent.type_reports ≡ some (some new_type_report)
unfolding lookup str_eq
known_s = refl

fired-IsFit : IsFit parent fired
fired-IsFit = (
  record {
    time = (omega arith, omega arith);
    sorted = (tt, tt);
    sendable = (
      (s_no_nul, tt),
      omega arith,
      record {
        num_queries = (omega arith, omega arith);
        min_time = (omega arith, omega arith);
        max_time = (omega arith, omega arith);
      },
      tt,
    );
    fits = omega arith;
  },
  ((new_type_report, known_s), tt),
)

abbrev both : List Message
both = fired ∷ fired ∷ []

both-IsFit : All (IsFit parent) both
both-IsFit = (fired-IsFit, (fired-IsFit, tt))

at_end : (t : System) × Reach (start both parent) t × (t.phase ≡ finished)
unfolding all_to_go
at_end = reach_finished 20 both parent (start both parent) both-IsFit (omega arith) here

counted_four : count (codes "s") (schedule pair) ≡ 4
unfolding count str_eq c_str
counted_four = refl

benchmark_total_example :
    HasCount
      (codes "s")
      (0 + length both * (0 + count (codes "s") (schedule pair)))
      at_end.0.collector.type_reports
benchmark_total_example =
    benchmark_total pg pair (codes "s") 0 (new_type_report, known_s, refl)
      (omega (arith, counted_four)) both parent at_end.0 0 0 both-IsFit
      (fired-HasUnloaded, (fired-HasUnloaded, tt)) (new_type_report, known_s, refl) refl
      (omega (arith, counted_four)) (omega arith) at_end.1 at_end.2
