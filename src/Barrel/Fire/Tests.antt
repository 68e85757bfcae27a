-- ===== src/Barrel/Fire/Tests.antt =====
-- Runs of a barrel that is unloaded.
use super_smack.Prelude.{
  ℕ, suc, ◌+◌, ◌≡◌, refl, true, str_eq, c_str, inl, some, [], ◌∷◌, arith, codes,
}
use super_smack.Prelude.Int.{pos}
use super_smack.Result.{ok}
use super_smack.StringMap.{lookup}
use super_smack.Query.{Query, new_query}
use super_smack.Report.{new_type_report}
use super_smack.Barrel.{Barrel, query_charge, sleep_action}
use super_smack.Barrel.Fire.{Connection, Timeval, unload_query_barrel}
use super_smack.Database.Pg.{Libpq, succeeded, new_pg}
use super_smack.Database.PgBarrel.{PgWorld, pg_connection, clock_on}
use super_smack.Database.PgTaken.{IsOnline, IsSendable-IsTaken}
use super_smack.Barrel.Fire.Schedule.{shot, schedule}
use super_smack.Barrel.Fire.Counts.{IsTaken, HasCount, count, unload_query_barrel-count}

-- A server of Postgres that counts its queries and gives each an empty result; its clock reads
-- the count, in seconds.
abbrev server : Libpq ℕ
server = record {
  login = λ l n. (true, n);
  exec = λ q n. (succeeded (record { fields = []; rows = [] }), suc n);
}

abbrev clock : ℕ → Timeval × ℕ
clock n = (record { tv_sec = n; tv_usec = 0 }, n)

abbrev pg : Connection (PgWorld ℕ)
pg = pg_connection server (λ f n. f) (λ n. n) (λ s. s) clock (λ sec usec n. n)

abbrev online : PgWorld ℕ
online = record { client = record (new_pg 0) { con = true }; dictionaries = []; calls = 0 }

abbrev IsConnected : PgWorld ℕ → Type 0
IsConnected = IsOnline server (λ f n. f) (λ n. n) (λ s. s) clock (λ sec usec n. n) (λ d. Unit)

abbrev select : Query
select = record new_query { name = codes "sel"; type_name = codes "s"; query = codes "select 1" }

abbrev two_rounds : Barrel
two_rounds = record {
  actions = query_charge select (pos 3) ∷ sleep_action (pos 0) (pos 10) ∷ [];
  num_rounds = pos 2;
  type_reports = (codes "s", some new_type_report) ∷ [];
}

counted : count (codes "s") (schedule two_rounds) ≡ 6
unfolding count str_eq c_str
counted = refl

has_s : lookup (codes "s") two_rounds.type_reports ≡ some (some new_type_report)
unfolding lookup str_eq
has_s = refl

select-IsTaken : IsTaken pg IsConnected (shot select)
select-IsTaken =
    IsSendable-IsTaken server (λ f n. f) (λ n. n) (λ s. s) clock (λ sec usec n. n) (λ d. Unit)
      (shot select) (inl (refl, λ n. (record { fields = []; rows = [] }, refl)))

looks : (w : PgWorld ℕ) → IsConnected w → IsConnected (pg.gettimeofday w).1
unfolding clock_on
looks w h = h

unload_query_barrel-count_example :
    (s : PgWorld ℕ × Barrel) × (unload_query_barrel pg two_rounds online ≡ ok s)
    × IsConnected s.0
    × HasCount pg (codes "s") (0 + count (codes "s") (schedule two_rounds)) s.1.type_reports
unload_query_barrel-count_example =
    unload_query_barrel-count pg IsConnected (codes "s") 0 two_rounds online looks
      (
        select-IsTaken,
        (
          select-IsTaken,
          (
            select-IsTaken,
            (λ w h. h, (select-IsTaken, (select-IsTaken, (select-IsTaken, (λ w h. h, tt))))),
          ),
        ),
      )
      (tt, refl, tt) (new_type_report, has_s, refl) (omega (arith, counted))
