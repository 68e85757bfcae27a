-- ===== src/Main.antt =====
-- The main section of a script, src/parse.h and src/parse.cc, and what `main` of
-- src/super-smack.cc does behind it.
mod Tests
pub mod Run
use super_smack.Prelude.{
  ℕ, suc, ◌/◌, Bool, true, false, not, ◌&&◌, Option, none, some, List, [], ◌∷◌, ◌++◌, if◌then◌else◌,
  ◌==◌, Bytes, codes, c_str, str_eq, length, ◌*◌, get_elem?,
}
use super_smack.Prelude.Int.{ℤ, pos, negsuc, sub_ℕ}
use super_smack.Prelude.Atoi.{atoi}
use super_smack.Result.{
  Result, ok, died, crashed, out_of_bounds, fork_failed, wrong_params, undefined_client,
  undefined_query, unknown_method, ◌>>=◌,
}
use super_smack.StringMap.{lookup}
use super_smack.Query.{Query}
use super_smack.Barrel.{QueryPool}

-- `Main_line`, with what its `param_list` holds.
pub record MainLine : Type 0 where
  pub client : Bytes
  pub method : Bytes
  pub param_list : List Bytes

-- `Param_list::pchar_val`, `Param_list::int_val`
unfoldable pub pchar_val : List Bytes → ℕ → Result Bytes
pchar_val params n = elim (get_elem? params n) [
  | some s ↦ ok (c_str s)
  | none ↦ crashed out_of_bounds
]

unfoldable pub int_val : List Bytes → ℕ → Result ℤ
int_val params n = do s ← pchar_val params n; ok (atoi s)

-- What a line calls: the methods of the client that it names, and the system. `World` is the state
-- of the clients, of their connections and of the terminal.
pub record Methods {ℓ} (World : Type ℓ) : Type ℓ where
  pub connect : Bytes → World → Result World
  pub init : Bytes → World → Result World
  pub safe_query : Bytes → Bytes → World → Result World
  -- with `max_query`
  pub safe_parsed_query : Bytes → Bytes → ℕ → World → Result World
  -- `none` for standard output
  pub dump_result : Bytes → Option Bytes → World → Result World
  pub set_num_rounds : Bytes → ℤ → World → Result World
  pub disconnect : Bytes → World → Result World
  pub start_clock : Bytes → World → Result World
  pub stop_clock : Bytes → World → Result World
  pub create_threads : Bytes → ℤ → World → Result World
  pub thread_sync : Bytes → World → Result World
  pub print_connect_times : Bytes → World → Result World
  pub print_barrel_report : Bytes → World → Result World
  pub unload_query_barrel : Bytes → World → Result World
  -- `sleep` and `usleep`
  pub pause : ℤ → ℤ → World → World
  pub print : Bytes → World → World
  pub waitpid : ℕ → World → World

-- What `fork()` gives: zero in the child, -1, or the child's number in the parent.
pub data Fork : Type 0 where
  in_child fork_error : Fork
  in_parent : ℕ → Fork

-- The variables of the process that a line reads or sets.
pub record Process {ℓ} (World : Type ℓ) : Type ℓ where
  pub current_client : Bytes
  pub client_pids : List ℕ
  pub world : World

abbrev pub main_client : Bytes
main_client = codes "main"

-- `usleep(atoi(…)/1000)`
abbrev pub thousandth_of : ℤ → ℤ
thousandth_of (pos n) = pos (n / 1000)
thousandth_of (negsuc n) = sub_ℕ 0 (suc n / 1000)

-- `if(fname[0] == '-' && !fname[1]) fname = NULL;`
abbrev pub dump_target : Bytes → Option Bytes
dump_target fname = if str_eq fname (codes "-") then none else some fname

abbrev pub is_init : MainLine → Bool
is_init l = str_eq l.method (codes "init")

-- `if(param_list->size() != n) die(…)`
abbrev pub takes {ℓ} : {A : Type ℓ} → ℕ → List Bytes → Result A → Result A
takes n params result = if length params == n then result else died wrong_params

module _ {ℓ} {World : Type ℓ} (pool : QueryPool) (known : Bytes → Bool)
    (calls : Methods World) where
  -- `Client::safe_query(Query&)`
  unfoldable pub safe_query_of : Bytes → Query → World → Result World
  safe_query_of client q w =
      if q.parsed
      then calls.safe_parsed_query client (c_str q.query) (length q.query * 2) w
      else calls.safe_query client (c_str q.query) w

  -- The branch of `run_save_result`, behind its test of the number of parameters.
  unfoldable pub run_save_result : Bytes → List Bytes → World → Result World
  run_save_result client params w = do
    q_name ← pchar_val params 0
    fname ← pchar_val params 1
    elim (lookup q_name pool) [
      | some (some q) ↦ (do
        w' ← safe_query_of client q w
        if q.has_result_set then calls.dump_result client (dump_target fname) w' else ok w')
      | _ ↦ died (undefined_query q_name)
    ]

  -- The branch of `collect_threads`.
  unfoldable pub collect_threads : Bytes → World → Result World
  collect_threads client w = do
    w1 ← calls.thread_sync client w
    w2 ← calls.stop_clock client w1
    let w3 = calls.print (codes "Query Barrel Report for client " ++ client ++ b'\n' ∷ []) w2
    w4 ← calls.print_connect_times client w3
    calls.print_barrel_report client w4

  -- The branch of `create_threads`: the clock starts before the parameters are counted.
  unfoldable pub create_threads : Bytes → List Bytes → World → Result World
  create_threads client params w = do
    w1 ← calls.start_clock client w
    takes 1 params (do n ← int_val params 0; calls.create_threads client n w1)

  -- The branches on `method` but those of `init`.
  unfoldable pub dispatch : MainLine → World → Result World
  dispatch l w =
      if str_eq l.method (codes "connect")
      then calls.connect l.client w
      else if str_eq l.method (codes "sleep")
      then takes 2 l.param_list (do
        sec ← int_val l.param_list 0
        ms ← int_val l.param_list 1
        ok (calls.pause sec (thousandth_of ms) w))
      else if str_eq l.method (codes "print")
      then takes 1 l.param_list
          (do s ← pchar_val l.param_list 0; ok (calls.print (s ++ b'\n' ∷ []) w))
      else if str_eq l.method (codes "query")
      then takes 1 l.param_list (do q ← pchar_val l.param_list 0; calls.safe_query l.client q w)
      else if str_eq l.method (codes "run_save_result")
      then takes 2 l.param_list (run_save_result l.client l.param_list w)
      else if str_eq l.method (codes "run_check_result")
      then ok w
      else if str_eq l.method (codes "set_num_rounds")
      then takes 1 l.param_list (do n ← int_val l.param_list 0; calls.set_num_rounds l.client n w)
      else if str_eq l.method (codes "disconnect")
      then calls.disconnect l.client w
      else if str_eq l.method (codes "create_threads")
      then create_threads l.client l.param_list w
      else if str_eq l.method (codes "collect_threads")
      then collect_threads l.client w
      else if str_eq l.method (codes "unload_query_barrel")
      then calls.unload_query_barrel l.client w
      else died (unknown_method l.method)

  -- The switch on `fork()`.
  unfoldable pub forked : Fork → Bytes → Process World → Result (Process World)
  forked in_child client p = do
    w ← calls.init client p.world
    ok (record p { world = w; current_client = client })
  forked fork_error client p = died fork_failed
  forked (in_parent pid) client p = ok (record p { client_pids = p.client_pids ++ pid ∷ [] })

  -- The branch of `init`, and the others.
  unfoldable pub perform : Fork → MainLine → Process World → Result (Process World)
  perform fork l p =
      if is_init l
      then (if str_eq p.current_client main_client then forked fork l.client p else ok p)
      else (do w ← dispatch l p.world; ok (record p { world = w }))

  -- `Main_line::execute`, where `fork()` gives `fork` if it is called.
  unfoldable pub execute : Fork → MainLine → Process World → Result (Process World)
  execute fork l p =
      if not (str_eq l.client p.current_client) && not (is_init l)
      then ok p
      else if not (known l.client)
      then died (undefined_client l.client)
      else perform fork l p

  -- The lines of the section, in order, each with what `fork()` gives at it.
  unfoldable pub run_lines : List (MainLine × Fork) → Process World → Result (Process World)
  run_lines [] p = ok p
  run_lines ((l, fork) ∷ lines) p = do p' ← execute fork l p; run_lines lines p'

  -- `wait_for_client_threads`
  unfoldable pub wait_for_client_threads : List ℕ → World → World
  wait_for_client_threads [] w = w
  wait_for_client_threads (pid ∷ client_pids) w =
      wait_for_client_threads client_pids (calls.waitpid pid w)

  -- `main`, from the main section on.
  unfoldable pub run_main : List (MainLine × Fork) → World → Result World
  run_main lines w = do
    p ← run_lines lines (record { current_client = main_client; client_pids = []; world = w })
    ok (
        if str_eq p.current_client main_client
        then wait_for_client_threads p.client_pids p.world
        else p.world)
