-- ===== src/Options/Tests.antt =====
-- Runs of the options.
use super_smack.Prelude.{ℕ, ◌≡◌, refl, List, [], ◌∷◌, ◌++◌, some, none, Bytes, codes, arith, str_eq}
use super_smack.Result.{ok, crashed, out_of_bounds}
use super_smack.Engines.{
  Engine, new_engines, add_engine, register, engine_id, id_in, new_client, new_client_by_id,
}
use super_smack.Engines.Ids.{no_engine, one_more}
use super_smack.Options.{Settings, running, take_option, take_options, set_db_type, engine_lines}
use super_smack.Options.Chosen.{take_options-new_client}

abbrev engines : List (Engine ℕ)
engines =
    add_engine (codes "PostgreSQL") (codes "pg") 11 (codes "1") (codes "a")
      (add_engine (codes "MySQL") (codes "mysql") 10 (codes "1") (codes "a") new_engines)

abbrev settings : Settings
settings = record { db_type = 1; datadir = []; input = none }

abbrev before : List (ℕ × Bytes)
before = (b'd', codes "mysql") ∷ []

abbrev behind : List (ℕ × Bytes)
behind = (b'D', codes "/tmp") ∷ []

pg_id : engine_id (some (codes "pg")) engines ≡ 2
unfolding engine_id id_in add_engine register str_eq
pg_id = refl

taken :
    take_options engines (before ++ (b'd', codes "pg") ∷ behind) settings
    ≡ ok (running (record settings { db_type = 2; datadir = codes "/tmp" }))
unfolding take_options take_option set_db_type engine_id id_in add_engine register str_eq
taken = refl

take_options-new_client_example :
    new_client_by_id 2 engines ≡ new_client (some (codes "pg")) engines
take_options-new_client_example =
    take_options-new_client engines before behind (codes "pg") settings
      (record settings { db_type = 2; datadir = codes "/tmp" })
      (one_more _ _ _ _ _ (one_more _ _ _ _ _ no_engine)) (ground (arith, pg_id)) (refl, tt) taken

-- A table with no free slot is read beyond its end.
full_table :
    engine_lines {Creator = ℕ}
      (record { id = 1; name = []; handle = []; create = some 1; version = []; author = [] } ∷ [])
    ≡ crashed out_of_bounds
unfolding engine_lines
full_table = refl
