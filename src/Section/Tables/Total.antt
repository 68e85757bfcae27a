-- ===== src/Section/Tables/Total.antt =====
-- That `validate_table` comes to its end where what it calls does.
use super_smack.Prelude.{
  ◌≡◌, refl, Bool, true, false, Option, Bytes, codes, c_str, Bool-cases, inl, inr, ◌++◌,
  if◌then◌else◌,
}
use super_smack.Prelude.Int.{ℤ}
use super_smack.Prelude.Atoi.{atoi}
use super_smack.Result.{ok}
use super_smack.Path.{DataPath, mk_data_path, path_text, populate_data_file}
use super_smack.Section.{TableDef}
use super_smack.Section.Tables.{
  Calls, Checks, checks_of, ensure_file, drop_table, create_table, renew, validate_table,
}

-- Every call succeeds, in every state.
pub record IsWorking {ℓ} {World : Type ℓ} (calls : Calls World) : Type ℓ where
  pub connects : (w : World) → (w' : World) × (calls.connect w ≡ ok w')
  pub informs :
      (name : Bytes) (w : World)
      → (info : Option ℤ × World) × (calls.get_table_info name w ≡ ok info)
  pub queries : (query : Bytes) (w : World) → (w' : World) × (calls.safe_query query w ≡ ok w')
  pub loads :
      (name file : Bytes) (w : World) → (w' : World) × (calls.load_table_data name file w ≡ ok w')
  pub disconnects : (w : World) → (w' : World) × (calls.disconnect w ≡ ok w')
  pub runs : (cmd : Bytes) (w : World) → (calls.system cmd w).0 ≡ true

module _ {ℓ} {World : Type ℓ} (datadir : Option Bytes) (calls : Calls World)
    (working : IsWorking calls) where
  ensure_file_total :
      (file cmd : Bytes) (w : World) → (w' : World) × (ensure_file datadir calls file cmd w ≡ ok w')
  unfolding ensure_file
  ensure_file_total file cmd w = elim (Bool-cases (calls.has_file file w)) [
    | inl there ↦ (w, rw (there, ensure_file) refl)
    | inr missing ↦ (
      (calls.system (c_str (populate_data_file file cmd)) w).1,
      rw (missing, working.runs (c_str (populate_data_file file cmd)) w, ensure_file) refl,
    )
  ]

  create_table_total :
      (def : TableDef) (name : Bytes) (path : DataPath) (file : Bytes) (w : World)
      → mk_data_path datadir (c_str def.data_file) ≡ ok path
      → path_text path ≡ ok file
      → (w' : World) × (create_table datadir calls def name w ≡ ok w')
  unfolding create_table
  create_table_total def name path file w p f =
      let (w1, e1) = working.queries (c_str def.create_st) w in
      let (w2, e2) = ensure_file_total file (c_str def.gen_data_file) w1 in
      let (w3, e3) = working.loads name file w2 in (w3, rw (p, e1, f, e2, e3, create_table) refl)

  drop_total :
      (do_drop : Bool) (name : Bytes) (w : World)
      → (w' : World) × ((if do_drop then drop_table datadir calls name w else ok w) ≡ ok w')
  unfolding drop_table
  drop_total true name w = working.queries (c_str (codes "drop table " ++ name)) w
  drop_total false name w = (w, refl)

  create_total :
      (do_create : Bool) (def : TableDef) (name : Bytes) (path : DataPath) (file : Bytes)
      (w : World)
      → mk_data_path datadir (c_str def.data_file) ≡ ok path
      → path_text path ≡ ok file
      → (w' : World) × ((if do_create then create_table datadir calls def name w else ok w) ≡ ok w')
  create_total true def name path file w p f = create_table_total def name path file w p f
  create_total false def name path file w p f = (w, refl)

  renew_total :
      (def : TableDef) (name : Bytes) (path : DataPath) (file : Bytes) (checks : Checks) (w : World)
      → mk_data_path datadir (c_str def.data_file) ≡ ok path
      → path_text path ≡ ok file
      → (w' : World) × (renew datadir calls def name checks w ≡ ok w')
  unfolding renew
  renew_total def name path file checks w p f =
      let (w1, e1) = drop_total checks.do_drop name w in
      let (w2, e2) = create_total checks.do_create def name path file w1 p f in
      (w2, rw (e1, e2) refl)

  -- Where every call succeeds and the data file has a path that can be read, the table of a known
  -- client is validated without fault.
  pub validate_table_total :
      (def : TableDef) (name : Bytes) (path : DataPath) (file : Bytes) (w : World)
      → mk_data_path datadir (c_str def.data_file) ≡ ok path
      → path_text path ≡ ok file
      → (w' : World) × (validate_table datadir calls true def name w ≡ ok w')
  unfolding validate_table checks_of
  validate_table_total def name path file w p f =
      let (w1, e1) = working.connects w in
      let ((info, w2), e2) = working.informs name w1 in
      let (w3, e3) =
        renew_total def name path file (checks_of info (atoi (c_str def.min_rows))) w2 p f in
      let (w4, e4) = working.disconnects w3 in (w4, rw (e1, e2, e3, e4, validate_table) refl)
