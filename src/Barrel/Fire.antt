-- ===== src/Barrel/Fire.antt =====
-- How a client fires its barrel: `Query_charge::fire` of src/query.cc, `Sleep_action::fire` of
-- src/query.h and `Client::unload_query_barrel` of src/client.cc.
pub mod Schedule
pub mod Counts
pub mod Elapsed
pub mod Keeps
mod Tests
use super_smack.Prelude.{
  ℕ, zero, suc, ◌+◌, ◌-◌, ◌*◌, ◌/◌, Bool, true, false, Option, none, some, List, [], ◌∷◌, ◌++◌,
  if◌then◌else◌, ◌==◌, leb, Bytes, c_str,
}
use super_smack.Prelude.Int.{ℤ, pos, sub_ℕ, pos_part, ◌+ℤ◌, wrap}
use super_smack.Result.{Result, ok, died, crashed, ◌>>=◌}
use super_smack.Query.{Query}
use super_smack.Report.{TypeReports, update_type}
use super_smack.Barrel.{Action, query_charge, sleep_action, Barrel}

-- `struct timeval` of a time since 1970.
pub record Timeval : Type 0 where
  pub tv_sec : ℕ
  pub tv_usec : ℕ

-- `(end.tv_sec - start.tv_sec)*1000 + (end.tv_usec - start.tv_usec)/1000`; the division of C
-- goes towards zero.
abbrev pub thousandth : ℕ → ℕ → ℤ
thousandth end start =
    if leb start end then pos ((end - start) / 1000) else sub_ℕ 0 ((start - end) / 1000)

unfoldable pub elapsed : Timeval → Timeval → ℤ
elapsed start end =
    sub_ℕ (end.tv_sec * 1000) (start.tv_sec * 1000) +ℤ thousandth end.tv_usec start.tv_usec

-- What a charge calls. `World` is the state of the connection, of its dictionaries and the clock.
pub record Connection {ℓ} (World : Type ℓ) : Type ℓ where
  -- `safe_query`, and `safe_parsed_query` with `MAX_QUERY`
  pub safe_query : Bytes → World → Result World
  pub safe_parsed_query : Bytes → World → Result World
  pub lose_result : World → Result World
  pub gettimeofday : World → Timeval × World
  -- `sleep` and `usleep`
  pub pause : ℤ → ℤ → World → World

-- The connection, and the reports of the client's barrel.
pub record Client {ℓ} (World : Type ℓ) : Type ℓ where
  pub world : World
  pub type_reports : TypeReports

module _ {ℓ} {World : Type ℓ} (cn : Connection World) where
  -- `if(query.parsed) … else …`
  unfoldable pub send : Query → World → Result World
  send query w =
      if query.parsed
      then cn.safe_parsed_query (c_str query.query) w
      else cn.safe_query (c_str query.query) w

  -- A query, and `lose_result` if it has a result set.
  unfoldable pub exchange : Query → World → Result World
  exchange query w = do w' ← send query w; if query.has_result_set then cn.lose_result w' else ok w'

  -- The body of the loop of `fire`.
  unfoldable pub fire_shot : Query → Client World → Result (Client World)
  fire_shot query cli = do
    let (start, w1) = cn.gettimeofday cli.world
    w2 ← exchange query w1
    let (end, w3) = cn.gettimeofday w2
    let q_time = wrap (elapsed start end)
    ok (record {
      world = w3;
      type_reports = update_type (c_str query.type_name) q_time cli.type_reports;
    })

  -- That loop, with the shots left.
  unfoldable pub fire_shots : ℕ → Query → Client World → Result (Client World)
  fire_shots zero query cli = ok cli
  fire_shots (suc n) query cli = do cli' ← fire_shot query cli; fire_shots n query cli'

  -- The virtual `fire`.
  unfoldable pub fire : Action → Client World → Result (Client World)
  fire (query_charge query num_shots) cli = fire_shots (pos_part num_shots) query cli
  fire (sleep_action sec usec) cli = ok (record cli { world = cn.pause sec usec cli.world })

  -- The loop over the actions.
  unfoldable pub fire_all : List Action → Client World → Result (Client World)
  fire_all [] cli = ok cli
  fire_all (a ∷ actions) cli = do cli' ← fire a cli; fire_all actions cli'

  unfoldable pub fire_rounds : ℕ → List Action → Client World → Result (Client World)
  fire_rounds zero actions cli = ok cli
  fire_rounds (suc n) actions cli = do cli' ← fire_all actions cli; fire_rounds n actions cli'

  -- `Client::unload_query_barrel`, on a client whose reports are those of the barrel.
  unfoldable pub unload_query_barrel : Barrel → World → Result (World × Barrel)
  unload_query_barrel qb w = do
    cli ←
        fire_rounds (pos_part qb.num_rounds) qb.actions
          (record { world = w; type_reports = qb.type_reports })
    ok (cli.world, record qb { type_reports = cli.type_reports })

-- `Query_barrel::set_num_rounds`
unfoldable pub set_num_rounds : ℤ → Barrel → Barrel
set_num_rounds num_rounds qb = record qb { num_rounds = num_rounds }
