-- ===== src/Section/Tests.antt =====
-- Runs of the sections.
use super_smack.Prelude.{ℕ, ◌≡◌, refl, true, none, some, List, [], ◌∷◌, ◌++◌, c_str, codes}
use super_smack.Prelude.Int.{pos}
use super_smack.Result.{ok}
use super_smack.Section.{TableDef, DictDef}
use super_smack.Dictionary.{Dictionary}
use super_smack.Section.Tables.{
  Calls, validate_table, renew, checks_of, drop_table, create_table, ensure_file,
}
use super_smack.Prelude.Atoi.{atoi}
use super_smack.Section.Tables.Total.{IsWorking}
use super_smack.Section.Print.{print_main_line, print_params, print_others}
use super_smack.Path.{mk_data_path, path_text}
use super_smack.Section.Tables.Statements.{
  ClientCall, connect_call, info_call, query_call, load_call, disconnect_call, logged, validation,
  validate_table-statements,
}

-- A database whose table has one row, and whose state does not matter.
abbrev one_row : Calls ℕ
one_row = record {
  connect = λ w. ok w;
  get_table_info = λ name w. ok (some (pos 1), w);
  safe_query = λ query w. ok w;
  load_table_data = λ name file w. ok w;
  disconnect = λ w. ok w;
  has_file = λ file w. true;
  system = λ cmd w. (true, w);
}

abbrev five_rows : TableDef
five_rows = record {
  create_st = codes "create table t";
  min_rows = codes "5";
  client = codes "admin";
  data_file = codes "t.dat";
  gen_data_file = codes "gen-data";
}

abbrev told : List ClientCall
told =
    connect_call
    ∷ info_call (codes "t")
    ∷ query_call (codes "drop table t")
    ∷ query_call (codes "create table t")
    ∷ load_call (codes "t") (codes "t.dat")
    ∷ disconnect_call
    ∷ []

validate_table-five :
    validate_table none (logged one_row) true five_rows (codes "t") (0, []) ≡ ok (0, told)
unfolding validate_table logged renew checks_of atoi c_str drop_table create_table mk_data_path
    path_text ensure_file
validate_table-five = refl

validate_table-statements_example :
    (m : List ClientCall) × (validation none (some (pos 1)) five_rows (codes "t") ≡ ok m)
    × (told ≡ [] ++ m)
validate_table-statements_example =
    validate_table-statements none one_row (some (pos 1)) five_rows (codes "t") 0 0 0 [] refl refl
      validate_table-five

one_row-IsWorking : IsWorking one_row
one_row-IsWorking = record {
  connects = λ w. (w, refl);
  informs = λ name w. ((some (pos 1), w), refl);
  queries = λ query w. (w, refl);
  loads = λ name file w. (w, refl);
  disconnects = λ w. (w, refl);
  runs = λ cmd w. refl;
}

abbrev letters_section : DictDef
letters_section = record {
  source = codes "x,y,";
  source_type = codes "list";
  dict_type = codes "seq";
  name = codes "d";
  file_size_equiv = [];
  delim = [];
}

-- A line of the main section with two parameters.
prints :
    print_main_line (record {
      client = codes "c";
      method = codes "sleep";
      param_list = codes "1" ∷ codes "5" ∷ [];
    })
    ≡ codes "main_line: client: c,method=sleep,param_list: 1,5\n"
unfolding print_main_line print_params print_others
prints = refl
