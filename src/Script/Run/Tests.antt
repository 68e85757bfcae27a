-- ===== src/Script/Run/Tests.antt =====
-- A script with a query section and two lines, from its text to the calls that its lines make.
use super_smack.StringMap.{lookup}
use super_smack.Prelude.{
  false, ◌≡◌, refl, arith, none, some, List, [], ◌∷◌, ◌++◌, Bytes, codes, str_eq, is_digit,
  is_alnum, true,
}
use super_smack.Prelude.Int.{ℤ, pos}
use super_smack.Result.{Result, ok, ◌>>=◌}
use super_smack.Section.Created.{new_client}
use super_smack.Section.Tables.{Calls}
use super_smack.Main.{run_lines, MainLine, Methods, in_child, main_client}
use super_smack.Script.Token.{
  Token, word, mark, ident_sym, string_sym, query_sym, main_sym, open_sect_sym, close_sect_sym,
  open_paren_sym, close_paren_sym, semi_sym, dot_sym, find_word,
}
use super_smack.Script.Lexer.Print.{Blank, space, print}
use super_smack.Script.Grammar.{lines_tokens, SectionText, query_kind, allows}
use super_smack.Script.Parser.Meaning.{run_sections}
use super_smack.Threads.{new_collector}
use super_smack.Prelude.Decimal.{int_text}
use super_smack.Main.Run.{own}
use super_smack.Script.Parser.{run, main_lines}
use super_smack.Script.Run.{known, System, State, do_parse, script_actions}
use super_smack.Script.Run.Lines.{executed_lines, do_parse-run_lines, run-own, literals, with_forks}

abbrev noted : Bytes → List Bytes → Result (List Bytes)
noted what w = ok (w ++ what ∷ [])

abbrev methods : Methods (List Bytes)
methods = record {
  connect = λ c w. noted (codes "connect") w;
  init = λ c w. noted (codes "init") w;
  safe_query = λ c q w. noted q w;
  safe_parsed_query = λ c q n w. noted q w;
  dump_result = λ c f w. noted (codes "dump") w;
  set_num_rounds = λ c n w. noted (codes "rounds") w;
  disconnect = λ c w. noted (codes "disconnect") w;
  start_clock = λ c w. ok w;
  stop_clock = λ c w. ok w;
  create_threads = λ c n w. noted (codes "threads") w;
  thread_sync = λ c w. ok w;
  print_connect_times = λ c w. ok w;
  print_barrel_report = λ c w. ok w;
  unload_query_barrel = λ c w. noted (codes "unload") w;
  pause = λ sec ms w. w;
  print = λ s w. w ++ s ∷ [];
  waitpid = λ pid w. w;
}

abbrev table_calls : Bytes → Calls (List Bytes)
table_calls client = record {
  connect = λ w. ok w;
  get_table_info = λ name w. ok (none, w);
  safe_query = noted;
  load_table_data = λ name file w. ok w;
  disconnect = λ w. ok w;
  has_file = λ file w. true;
  system = λ cmd w. (true, w);
}

abbrev sys : System (List Bytes) ℤ
sys = record {
  methods = methods;
  table_calls = table_calls;
  collector = λ c w. new_collector [];
  barrel_reports = λ c w. none;
  enter = λ name c w. w;
  created = some new_client;
  sleep_time = λ s. (pos 0, pos 0);
  datadir = none;
  files = λ name. none;
  glob_argv = codes "a.smack" ∷ [];
  atof = λ s. pos 0;
  zero_double = pos 0;
  of_int = λ n. n;
  divide = λ n t. n;
  is_zero = λ t. false;
  format = int_text;
  fork_at = λ n. in_child;
}

-- The client `c` is there already.
abbrev start : State (List Bytes) ℤ
start = record {
  query_pool = [];
  dict_pool = [];
  client_pool = (codes "c", new_client) ∷ [];
  var_hash = [];
  process = record { current_client = main_client; client_pids = []; world = [] };
  executed = 0;
}

abbrev section : SectionText
section = record {
  kind = query_kind;
  name = codes "sel";
  first = record { key = query_sym; value = codes "select 1" };
  more = [];
}

abbrev lines : List MainLine
lines =
    record { client = codes "c"; method = codes "init"; param_list = [] }
    ∷ record { client = codes "c"; method = codes "query"; param_list = codes "hi" ∷ [] }
    ∷ []

-- Each token with a space behind it.
abbrev spaces : List Token → List (Token × Blank × List Blank)
spaces [] = []
spaces (t ∷ ts) = (t, space, []) ∷ spaces ts

-- `query "sel" { query "select 1" ; } main { c . init ( ) ; c . query ( "hi" ) ; }`
abbrev tokens : List Token
tokens =
    word query_sym
    ∷ string_sym (codes "sel")
    ∷ mark open_sect_sym
    ∷ word query_sym
    ∷ string_sym (codes "select 1")
    ∷ mark semi_sym
    ∷ mark close_sect_sym
    ∷ word main_sym
    ∷ mark open_sect_sym
    ∷ ident_sym (codes "c")
    ∷ mark dot_sym
    ∷ ident_sym (codes "init")
    ∷ mark open_paren_sym
    ∷ mark close_paren_sym
    ∷ mark semi_sym
    ∷ ident_sym (codes "c")
    ∷ mark dot_sym
    ∷ word query_sym
    ∷ mark open_paren_sym
    ∷ string_sym (codes "hi")
    ∷ mark close_paren_sym
    ∷ mark semi_sym
    ∷ mark close_sect_sym
    ∷ []

do_parse-run_lines_example : do_parse 9 sys (print (spaces tokens)) start ≡ (do
  s ← run_sections (script_actions 9 sys) (section ∷ []) start
  executed_lines 9 sys lines s)
unfolding find_word str_eq is_alnum is_digit allows
do_parse-run_lines_example =
    do_parse-run_lines 9 sys (spaces tokens) section []
      (record { client = codes "c"; method = codes "init"; param_list = [] })
      (record { client = codes "c"; method = codes "query"; param_list = codes "hi" ∷ [] } ∷ [])
      start (ground arith) refl (ground arith)

-- The child of the client `c`.
abbrev child : State (List Bytes) ℤ
child = record start { process = record start.process { current_client = codes "c" } }

run-own_example :
    run
      (script_actions 9 sys)
      (main_lines true)
      (lines_tokens (literals lines) ++ mark close_sect_sym ∷ [])
      child
    ≡ (do
      p ←
          run_lines []
            (known 9 sys child.client_pool)
            methods
            (own (codes "c") (with_forks sys.fork_at 0 lines))
            child.process
      ok (record child { process = p; executed = 2 }))
unfolding str_eq lookup
run-own_example = run-own 9 sys lines child refl (refl, (refl, tt))
