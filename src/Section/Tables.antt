-- ===== src/Section/Tables.antt =====
-- `Table_def::validate_table` of src/parse.cc, at the end of a table section: the table is made
-- anew if it is missing or too small.
pub mod Statements
pub mod Total
use super_smack.Prelude.{
  ℕ, ◌≡◌, refl, Bool, true, false, not, Option, none, some, List, [], ◌∷◌, ◌++◌, if◌then◌else◌,
  ◌==◌, Bytes, codes, c_str, Option-cases, Bool-cases, inl, inr,
}
use super_smack.Prelude.Int.{ℤ, ltb_ℤ}
use super_smack.Prelude.Atoi.{atoi}
use super_smack.Result.{Result, ok, died, crashed, missing_client, no_data_file, ◌>>=◌}
use super_smack.StringMap.{StringMap, lookup}
use super_smack.Path.{mk_data_path, path_text, populate_data_file}
use super_smack.Section.{TableDef}

-- What the code calls: the methods of the client of the section, and the system. `World` is the
-- state of the database, of the connection and of the files.
pub record Calls {ℓ} (World : Type ℓ) : Type ℓ where
  pub connect : World → Result World
  -- `none` for a result that is not zero; else the number of rows
  pub get_table_info : Bytes → World → Result (Option ℤ × World)
  pub safe_query : Bytes → World → Result World
  pub load_table_data : Bytes → Bytes → World → Result World
  pub disconnect : World → Result World
  -- whether `stat` succeeds
  pub has_file : Bytes → World → Bool
  -- `system`, with whether its result is zero
  pub system : Bytes → World → Bool × World

-- `do_create` and `do_drop`.
pub record Checks : Type 0 where
  pub do_create : Bool
  pub do_drop : Bool

unfoldable pub checks_of : Option ℤ → ℤ → Checks
checks_of none min_rows_lim = record { do_create = true; do_drop = false }
checks_of (some num_rows) min_rows_lim =
    if ltb_ℤ num_rows min_rows_lim
    then record { do_create = true; do_drop = true }
    else record { do_create = false; do_drop = false }

module _ {ℓ} {World : Type ℓ} (datadir : Option Bytes) (calls : Calls World) where
  -- `if(stat(file, &f) && populate_data_file(…)) die(…)`
  unfoldable pub ensure_file : Bytes → Bytes → World → Result World
  ensure_file file cmd w =
      let (zero_status, w') = calls.system (c_str (populate_data_file file cmd)) w in
      if not (calls.has_file file w)
      then (if not zero_status then died no_data_file else ok w')
      else ok w

  unfoldable pub drop_table : Bytes → World → Result World
  drop_table name w = calls.safe_query (c_str (codes "drop table " ++ name)) w

  unfoldable pub create_table : TableDef → Bytes → World → Result World
  create_table def name w = do
    path ← mk_data_path datadir (c_str def.data_file)
    w1 ← calls.safe_query (c_str def.create_st) w
    file ← path_text path
    w2 ← ensure_file file (c_str def.gen_data_file) w1
    calls.load_table_data name file w2

  -- `if(do_drop) …` and `if(do_create) …`
  unfoldable pub renew : TableDef → Bytes → Checks → World → Result World
  renew def name checks w = do
    w' ← (if checks.do_drop then drop_table name w else ok w)
    if checks.do_create then create_table def name w' else ok w'

  -- `Table_def::validate_table`; `known` is whether `client_pool` has the client.
  unfoldable pub validate_table : Bool → TableDef → Bytes → World → Result World
  validate_table known def name w = if not known then died missing_client else (do
    w1 ← calls.connect w
    (info, w2) ← calls.get_table_info name w1
    w3 ← renew def name (checks_of info (atoi (c_str def.min_rows))) w2
    calls.disconnect w3)
