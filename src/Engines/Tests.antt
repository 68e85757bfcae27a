-- ===== src/Engines/Tests.antt =====
-- Runs of the table of engines.
use super_smack.Prelude.{ℕ, ◌≡◌, refl, some, List, codes, str_eq}
use super_smack.Engines.{
  Engine, id_in, creator_of, register, add_engine, new_engines, engine_id, new_client,
}

abbrev two_engines : List (Engine ℕ)
two_engines =
    add_engine (codes "PostgreSQL") (codes "pg") 11 (codes "1") (codes "a")
      (add_engine (codes "MySQL") (codes "mysql") 10 (codes "1") (codes "a") new_engines)

engine_id-two :
    (engine_id (some (codes "pg")) two_engines ≡ 2)
    × (new_client (some (codes "pg")) two_engines ≡ some 11)
unfolding engine_id id_in add_engine register str_eq new_client creator_of
engine_id-two = (refl, refl)
