-- ===== src/Script/Run.antt =====
-- The actions of the grammar, src/super-smack-yacc.yy, on the pools of the process.
mod Tests
pub mod Lines
use super_smack.Prelude.{
  ℕ, zero, suc, Option, none, some, Bool, true, false, not, List, [], ◌∷◌, ◌++◌, Bytes, codes,
  if◌then◌else◌, length, get_elem?, c_str, str_eq,
}
use super_smack.Prelude.Int.{ℤ, pos, negsuc, ltb_ℤ}
use super_smack.Prelude.Atoi.{atoi}
use super_smack.Result.{
  Result, ok, died, crashed, ◌>>=◌, undefined_client, missing_argument, unset_variable,
  out_of_bounds, null_pointer, out_of_fuel, parse_error,
}
use super_smack.StringMap.{StringMap, lookup, insert}
use super_smack.Threads.{Collector, get_param_val}
use super_smack.Report.{TypeReports}
use super_smack.Report.Print.{RunTime, ParamVal, rate, get_type_param_val}
use super_smack.Report.Print
use super_smack.Query.{
  Query, new_query, query_line, parsed_line, type_line, has_result_set_line, set_q_param,
}
use super_smack.Barrel.{QueryPool}
use super_smack.Dictionary.{Dictionary}
use super_smack.Section.{
  DictDef, TableDef, source_line, source_type_line, delim_line, file_size_equiv_line,
  dict_type_line, client_line, create_line, min_rows_line, data_file_line, gen_data_file_line,
  update_dict_def, update_table_def,
}
use super_smack.Section.Dicts.{make_dict}
use super_smack.Section.Tables.{Calls, validate_table}
use super_smack.Section.Created.{
  Client, ClientDef, new_client_def, query_barrel_line, user_line, pass_line, host_line, db_line,
  port_line, socket_line, update_def, make_client,
}
use super_smack.Main.{MainLine, Methods, Fork, Process}
use super_smack.Main
use super_smack.Script.Token.{
  Token, Word, query_sym, type_sym, has_result_set_sym, parsed_sym, source_type_sym, source_sym,
  delim_sym, file_size_equiv_sym, query_barrel_sym, user_sym, pass_sym, db_sym, host_sym, port_sym,
  socket_sym, client_sym, create_sym, min_rows_sym, data_file_sym, gen_data_file_sym,
}
use super_smack.Script.Lexer.{initial, lex}
use super_smack.Script.Grammar.{
  Kind, query_kind, dict_kind, client_kind, table_kind, SimpleExpr, number, string, argument,
  variable, client_type_param, client_param,
}
use super_smack.Script.Values.{
  Val, new_val, val_of_string, val_of_chars, val_of_int, val_of_double, concat, set_val,
}
use super_smack.Script.Defs.{
  Def, query_def, dict_def, client_def, table_def, new_def, query_part, dict_part, table_part,
}
use super_smack.Script.Parser.{Actions, yyparse}

-- What the process has of the system and of its libraries. `World` is as in `Methods`.
pub record System (World Double : Type 0) : Type 0 where
  pub methods : Methods World
  -- the client of a table section
  pub table_calls : Bytes → Calls World
  -- the connect times of a client, and its barrel's run time and reports, if it has a barrel
  pub collector : Bytes → World → Collector
  pub barrel_reports : Bytes → World → Option (RunTime × TypeReports)
  -- a client that the pool holds from here on
  pub enter : Bytes → Client → World → World
  -- what the engine of the chosen database creates
  pub created : Option Client
  pub sleep_time : Bytes → ℤ × ℤ
  pub datadir : Option Bytes
  pub files : Bytes → Option Bytes
  -- `glob_argv` behind the options
  pub glob_argv : List Bytes
  pub atof : Bytes → Double
  -- the double 0, the double that an `int` is, the rate of queries, and what `%f` prints
  pub zero_double : Double
  pub of_int : ℤ → Double
  pub divide : ℤ → RunTime → Double
  pub is_zero : RunTime → Bool
  pub format : Double → Bytes
  -- what `fork()` gives at a line of the main section, if the line calls it
  pub fork_at : ℕ → Fork

-- The pools, the variables, and what the lines of the main section change.
pub record State (World Double : Type 0) : Type 0 where
  pub query_pool : QueryPool
  pub dict_pool : StringMap Dictionary
  pub client_pool : StringMap Client
  pub var_hash : StringMap (Val Double)
  pub process : Process World
  -- how many lines have been executed
  pub executed : ℕ

-- A dictionary that is made, or a load that did not end.
abbrev pub made {ℓ} : {A : Type ℓ} → Option (Result A) → Result A
made none = crashed out_of_fuel
made (some r) = r

module _ {World Double : Type 0} (fuel : ℕ) (sys : System World Double) where
  abbrev pub client_part : Word → Bytes → ClientDef → QueryPool → Result ClientDef
  client_part query_barrel_sym str d pool = update_def sys.sleep_time pool (query_barrel_line str) d
  client_part user_sym str d pool = update_def sys.sleep_time pool (user_line str) d
  client_part pass_sym str d pool = update_def sys.sleep_time pool (pass_line str) d
  client_part db_sym str d pool = update_def sys.sleep_time pool (db_line str) d
  client_part host_sym str d pool = update_def sys.sleep_time pool (host_line str) d
  client_part port_sym str d pool = update_def sys.sleep_time pool (port_line str) d
  client_part socket_sym str d pool = update_def sys.sleep_time pool (socket_line str) d
  client_part _ str d pool = ok d

  unfoldable pub def_line : Word → Bytes → Def → State World Double → Result Def
  def_line w str (query_def q) s = ok (query_def (query_part w str q))
  def_line w str (dict_def d) s = ok (dict_def (dict_part w str d))
  def_line w str (client_def d) s = do d' ← client_part w str d s.query_pool; ok (client_def d')
  def_line w str (table_def t) s = ok (table_def (table_part w str t))

  -- `query_pool[$1->name] = $1` and its kin
  abbrev pub add_query : Query → State World Double → State World Double
  add_query q s = record s { query_pool = insert q.name (some q) s.query_pool }

  abbrev pub add_dict : Dictionary → State World Double → State World Double
  add_dict d s = record s { dict_pool = insert d.name d s.dict_pool }

  abbrev pub set_world : World → State World Double → State World Double
  set_world w s = record s { process = record s.process { world = w } }

  abbrev pub add_client : Bytes → Client → State World Double → State World Double
  add_client name c s =
      set_world (sys.enter name c s.process.world)
        (record s { client_pool = insert name c s.client_pool })

  -- `client_pool[name]`, tested for a null pointer.
  abbrev pub known : StringMap Client → Bytes → Bool
  known pool name = elim (lookup name pool) [ none ↦ false | some c ↦ true ]

  unfoldable pub end_def : Bytes → Def → State World Double → Result (State World Double)
  end_def name (query_def q) s = ok (add_query (record q { name = name }) s)
  end_def name (dict_def d) s = do
    dict ← made (make_dict sys.datadir sys.files fuel (record d { name = name }))
    ok (add_dict dict s)
  end_def name (client_def d) s = do
    c ← make_client sys.created d
    ok (add_client name (record c { name = name }) s)
  end_def name (table_def t) s = do
    w ←
        validate_table sys.datadir (sys.table_calls t.client) (known s.client_pool t.client) t name
          s.process.world
    ok (set_world w s)

  -- `glob_argv[n]`, behind the test `n >= glob_argc`
  unfoldable pub argument_val : ℤ → Result (Val Double)
  argument_val (pos n) = elim (get_elem? sys.glob_argv n) [
    | some a ↦ ok (val_of_chars sys.atof a)
    | none ↦ died (missing_argument (pos n))
  ]
  argument_val (negsuc n) = crashed out_of_bounds

  abbrev pub val_of : ParamVal Double → Val Double
  val_of (Print.number n) = val_of_int sys.format sys.of_int n
  val_of (rate d) = val_of_double sys.format sys.of_int d

  -- `get_param_val(string&)` of a client
  unfoldable pub param_val : Bytes → Bytes → World → Result (Val Double)
  param_val c p w = do
    n ← get_param_val p (sys.collector c w)
    ok (val_of_int sys.format sys.of_int n)

  -- `get_param_val(string&, string&)` of a client, which uses its barrel untested; where it comes
  -- back, it has added no type.
  unfoldable pub type_param_val : Bytes → Bytes → Bytes → World → Result (Val Double)
  type_param_val c t p w = elim (sys.barrel_reports c w) [
    | none ↦ crashed null_pointer
    | some (run_time, reports) ↦ (do
      (v, same) ← get_type_param_val sys.divide sys.is_zero t p run_time reports
      ok (val_of v))
  ]

  -- The actions of `simple_expr`.
  unfoldable pub simple_val : SimpleExpr → State World Double → Result (Val Double)
  simple_val (number t) s = ok (val_of_string sys.atof t)
  simple_val (string t) s = ok (val_of_string sys.atof t)
  simple_val (argument t) s = argument_val (atoi (c_str t))
  simple_val (variable x) s = elim (lookup x s.var_hash) [
    | some v ↦ ok v
    | none ↦ died (unset_variable x)
  ]
  simple_val (client_type_param c t p) s =
      if known s.client_pool (c_str c)
      then type_param_val c t p s.process.world
      else died (undefined_client c)
  simple_val (client_param c p) s =
      if known s.client_pool (c_str c)
      then param_val c p s.process.world
      else died (undefined_client c)

  -- A variable that is new is a value that is kept.
  abbrev pub kept : Option (Val Double) → Val Double
  kept (some v) = v
  kept none = record (new_val sys.zero_double) { delete_me_not = some true }

  -- The action of `assign_line`.
  unfoldable pub assign_val : Bytes → Val Double → State World Double → State World Double
  assign_val x v s = record s {
    var_hash = insert x (set_val v (kept (lookup x s.var_hash))) s.var_hash;
  }

  unfoldable pub execute_line : MainLine → State World Double → Result (State World Double)
  execute_line l s = do
    p ←
        Main.execute s.query_pool (known s.client_pool) sys.methods (sys.fork_at s.executed) l
          s.process
    ok (record s { process = p; executed = suc s.executed })

  abbrev pub script_actions : Actions (State World Double) Def (Val Double)
  script_actions = record {
    new_def = new_def;
    def_line = def_line;
    end_section = λ k name d s. end_def name d s;
    simple = simple_val;
    concat = λ u v. concat sys.atof v u;
    text = λ v. v.strval;
    execute = execute_line;
    assign = assign_val;
  }

  -- `do_parse`, of the text of the script. The lexer changes nothing that the actions see, so it is
  -- run to its end before them.
  unfoldable pub do_parse : Bytes → State World Double → Result (State World Double)
  do_parse text s = yyparse script_actions (lex initial text) s

  -- `main`, behind `get_options`
  unfoldable pub run_script : Bytes → State World Double → Result World
  run_script text s = do
    s' ← do_parse text s
    ok (
        if str_eq s'.process.current_client Main.main_client
        then Main.wait_for_client_threads s'.query_pool (known s'.client_pool) sys.methods
            s'.process.client_pids s'.process.world
        else s'.process.world)
