-- ===== src/Database/Tests.antt =====
-- The clients of two databases on a server that counts its queries.
use super_smack.Prelude.{
  ℕ, inl, inr, arith, suc, ◌+◌, ◌≡◌, ◌≢◌, refl, sym, ap, Bool, true, false, Bytes, str_eq, is_alnum,
  none, some, List, [], ◌∷◌, codes, c_str,
}
use super_smack.Prelude.Int.{ℤ, pos}
use super_smack.StringMap.{lookup, insert}
use super_smack.Dictionary.{new_rand, next_word_of}
use super_smack.Client.ParsedQuery.{
  Dictionaries, Expansion, safe_parsed_query, step, word_of, plain_step, put_var, end_var,
}
use super_smack.Client.ParsedQuery as Client
use super_smack.Prelude.Atoi.{atoi}
use super_smack.Query.{new_query}
use super_smack.Barrel.{Barrel, query_charge, sleep_action}
use super_smack.Report.{new_type_report}
use super_smack.Barrel.Fire.{Timeval, unload_query_barrel}
use super_smack.Barrel.Fire.Schedule.{schedule}
use super_smack.Barrel.Fire.Counts.{count, HasCount}
use super_smack.Database.PgTaken.{IsAccepted, IsOnline, pg_connection-count}
use super_smack.Database.PgBarrel.{PgWorld, max_query, IsTidyWorld, pg_connection, unload_on_pg}
use super_smack.Result.{Keeps, ok, crashed, double_free}
use super_smack.Database.{ResultSet, dump_text, names_text, rows_text, cells_text}
use super_smack.Database.Pg.{
  Answer, succeeded, Libpq, PgClient, new_pg, dump_result, safe_query, first_value, clear,
  result_at, find, remove,
}
use super_smack.Database.PgOwned.{IsSafe, itself, CountsRows}
use super_smack.Database.PgRuns.{
  Call, query, lose, table_info, load_data, leave, connect, run, run-IsSafe, dump_then_query,
}
use super_smack.Database.Mysql.{Libmysql, MysqlClient}
use super_smack.Database.Mysql

abbrev two_rows : ResultSet
two_rows = record {
  fields = codes "id" ∷ codes "name" ∷ [];
  rows = (some (codes "42") ∷ some (codes "ann") ∷ []) ∷ (some (codes "43") ∷ none ∷ []) ∷ [];
}

dump_text-two_rows : dump_text two_rows ≡ codes "id\tname\t\n42\tann\t\n43\tNULL\t\n"
unfolding dump_text names_text rows_text cells_text
dump_text-two_rows = refl

abbrev counting : Libpq ℕ
counting = record {
  login = λ l server. (true, server);
  exec = λ q server. (succeeded two_rows, suc server);
}

abbrev online : PgClient ℕ
online = record (new_pg 0) { con = true }

abbrev calls : List Call
calls =
    connect (record {
      user = codes "u";
      pass = codes "p";
      host = codes "h";
      db = codes "d";
      socket = [];
      port = [];
    })
    ∷ query (codes "select 1") true
    ∷ table_info (codes "t")
    ∷ load_data (codes "t") (codes "t.dat")
    ∷ lose
    ∷ leave
    ∷ []

abbrev table_of : Answer → ResultSet
table_of (succeeded r) = r
table_of _ = two_rows

counting-CountsRows : CountsRows counting
unfolding first_value atoi c_str
counting-CountsRows name server r e = (pos 42, rw (sym (ap table_of e)) refl)

run-IsSafe_example : IsSafe itself (run counting calls (new_pg 0))
run-IsSafe_example = run-IsSafe counting counting-CountsRows calls (new_pg 0) tt

abbrev queried : PgClient ℕ
queried = record online { res = some 0; live = (0, two_rows) ∷ []; fresh = 1; server = 1 }

abbrev dumped : PgClient ℕ
dumped = record queried { live = []; files = (some (codes "out"), dump_text two_rows) ∷ [] }

dump_result-queried : dump_result (λ f. true) (some (codes "out")) true queried ≡ ok (true, dumped)
unfolding dump_result clear result_at find remove
dump_result-queried = refl

dump_then_query_example : safe_query counting (codes "select 1") true dumped ≡ crashed double_free
dump_then_query_example =
    dump_then_query counting (λ f. true) (codes "out") true true (codes "select 1") queried dumped 0
      two_rows refl refl dump_result-queried

-- A dump with no result leaves its stream.
abbrev silent : Libmysql ℕ
silent = record {
  login = λ l port socket server. server;
  errno = λ server. pos 0;
  send = λ q server. (true, suc server);
  store_result = λ server. (none, server);
  close = λ server. server;
}

abbrev idle : MysqlClient ℕ
idle = record { connected = true; live = 0; streams = 0; server = 0; files = [] }

dump_result_leak :
    Mysql.dump_result silent (λ f. true) (some (codes "out")) true idle
    ≡ ok (pos 0, record idle { streams = 1; files = (some (codes "out"), []) ∷ [] })
unfolding Mysql.dump_result Mysql.store Mysql.is_open Mysql.check_error
dump_result_leak = refl

-- One random dictionary `d` with one word.
abbrev pool : Dictionaries
pool = (codes "d", some (record new_rand { words = codes "x" ∷ [] })) ∷ []

abbrev world : PgWorld ℕ
world = record { client = online; dictionaries = pool; calls = 0 }

-- A query with a word of `d`, and one of no words with a result set.
abbrev looks : Barrel
looks = record {
  actions =
      query_charge
        (record new_query {
          name = codes "q";
          type_name = codes "s";
          query = codes "call '$d'";
          parsed = true;
        })
        (pos 2)
      ∷ query_charge
          (record new_query {
            name = codes "r";
            type_name = codes "s";
            query = codes "select 1";
            has_result_set = true;
          })
          (pos 1)
      ∷ sleep_action (pos 0) (pos 10)
      ∷ [];
  num_rounds = pos 2;
  type_reports = [];
}

abbrev now : ℕ → Timeval × ℕ
now server = (record { tv_sec = server; tv_usec = 0 }, server)

abbrev no_printf : Bytes → ℤ → Bytes
no_printf f n = f

abbrev zeros : ℕ → ℕ
zeros n = 0

abbrev same : Bytes → Bytes
same s = s

-- The dictionaries stay as they are.
abbrev IsPool : Dictionaries → Type 0
IsPool d = d ≡ pool

abbrev called : ℕ → Expansion
called n = record {
  parsed_query = codes "call 'x'";
  var_buf = [];
  in_var = false;
  escaped = false;
  dictionaries = pool;
  calls = n + 1;
}

call_expanded :
    (n : ℕ)
    → safe_parsed_query no_printf zeros same (codes "call '$d'") max_query pool n ≡ ok (called n)
unfolding safe_parsed_query Client.run step word_of next_word_of lookup insert str_eq c_str is_alnum
    plain_step put_var end_var
call_expanded n = refl

call-IsExpandable :
    (n : ℕ) (d : Dictionaries)
    → IsPool d
    → Keeps IsPool
        (λ why. ⊥)
        (λ (s : Expansion). s.dictionaries)
        (safe_parsed_query no_printf zeros same (codes "call '$d'") max_query d n)
call-IsExpandable n d h = rw (h, call_expanded n) refl

plain : ◌≢◌ {A = Bool} false true
plain e = cc

unload_on_pg_example :
    Keeps
      (IsTidyWorld counting no_printf zeros same now (λ sec usec server. server) IsPool)
      (λ why. ⊥)
      (λ (s : PgWorld ℕ × Barrel). s.0)
      (unload_query_barrel
        (pg_connection counting no_printf zeros same now (λ sec usec server. server))
        looks
        world)
unfolding c_str
unload_on_pg_example =
    unload_on_pg counting no_printf zeros same now (λ sec usec server. server) IsPool looks world
      (
        λ e d n h. call-IsExpandable n d h,
        (
          λ e d n h. call-IsExpandable n d h,
          (
            λ e. absurd (plain e),
            (
              tt,
              (
                λ e d n h. call-IsExpandable n d h,
                (λ e d n h. call-IsExpandable n d h, (λ e. absurd (plain e), (tt, tt))),
              ),
            ),
          ),
        ),
      )
      tt refl

-- The same barrel with a report of its type.
abbrev reported : Barrel
reported = record looks { type_reports = (codes "s", some new_type_report) ∷ [] }

counted_looks : count (codes "s") (schedule reported) ≡ 6
unfolding count str_eq c_str
counted_looks = refl

has_s : lookup (codes "s") reported.type_reports ≡ some (some new_type_report)
unfolding lookup str_eq
has_s = refl

call-IsSendable :
    (d : Dictionaries) (n : ℕ)
    → IsPool d
    → (s : Expansion) × (safe_parsed_query no_printf zeros same (codes "call '$d'") max_query d n
        ≡ ok s)
      × IsPool s.dictionaries
      × IsAccepted counting no_printf zeros same now
          (λ sec usec server. server)
          (c_str s.parsed_query)
call-IsSendable d n h = (called n, rw h (call_expanded n), refl, λ server. (two_rows, refl))

pg_connection-count_example :
    (s : PgWorld ℕ × Barrel) × (unload_query_barrel
        (pg_connection counting no_printf zeros same now (λ sec usec server. server))
        reported
        world
      ≡ ok s)
    × IsOnline counting no_printf zeros same now (λ sec usec server. server) IsPool s.0
    × HasCount
        (pg_connection counting no_printf zeros same now (λ sec usec server. server))
        (codes "s")
        (0 + count (codes "s") (schedule reported))
        s.1.type_reports
unfolding c_str
pg_connection-count_example =
    pg_connection-count counting no_printf zeros same now (λ sec usec server. server) IsPool
      (codes "s") 0 reported world
      (
        inr (refl, λ d n h. call-IsSendable d n h),
        (
          inr (refl, λ d n h. call-IsSendable d n h),
          (
            inl (refl, λ server. (two_rows, refl)),
            (
              tt,
              (
                inr (refl, λ d n h. call-IsSendable d n h),
                (
                  inr (refl, λ d n h. call-IsSendable d n h),
                  (inl (refl, λ server. (two_rows, refl)), (tt, tt)),
                ),
              ),
            ),
          ),
        ),
      )
      (tt, refl, refl) (new_type_report, has_s, refl) (omega (arith, counted_looks))
