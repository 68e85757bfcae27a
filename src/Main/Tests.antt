-- ===== src/Main/Tests.antt =====
-- Runs of the main section.
use super_smack.Prelude.{ℕ, ◌≡◌, refl, Bool, true, List, [], ◌∷◌, ◌++◌, Bytes, codes, str_eq}
use super_smack.Result.{Result, ok}
use super_smack.Main.{MainLine, Methods, Fork, in_parent, Process, main_client, run_lines}
use super_smack.Main.Run.{started, run_lines-started}

-- Methods that write down what was called.
abbrev call : List ℕ → Bytes → List Bytes → Result (List Bytes)
call method client w = ok (w ++ (client ++ method) ∷ [])

abbrev logging : Methods (List Bytes)
logging = record {
  connect = call (codes ".connect");
  init = call (codes ".init");
  safe_query = λ client query w. call (codes ".query") client w;
  safe_parsed_query = λ client query max_query w. call (codes ".query") client w;
  dump_result = λ client file w. call (codes ".dump") client w;
  set_num_rounds = λ client n w. call (codes ".rounds") client w;
  disconnect = call (codes ".disconnect");
  start_clock = call (codes ".start");
  stop_clock = call (codes ".stop");
  create_threads = λ client n w. call (codes ".threads") client w;
  thread_sync = call (codes ".sync");
  print_connect_times = call (codes ".times");
  print_barrel_report = call (codes ".report");
  unload_query_barrel = call (codes ".unload");
  pause = λ sec usec w. w;
  print = λ s w. w;
  waitpid = λ pid w. w;
}

abbrev all_known : Bytes → Bool
all_known client = true

abbrev line : Bytes → Bytes → List Bytes → MainLine
line client method params = record { client = client; method = method; param_list = params }

-- Two clients, as the first one's child sees the section, and as the main process does.
abbrev section : List (MainLine × Fork)
section =
    (line (codes "a") (codes "init") [], in_parent 11)
    ∷ (line (codes "a") (codes "create_threads") (codes "3" ∷ []), in_parent 0)
    ∷ (line (codes "b") (codes "init") [], in_parent 12)
    ∷ (line (codes "b") (codes "connect") [], in_parent 0)
    ∷ (line (codes "a") (codes "collect_threads") [], in_parent 0)
    ∷ []

abbrev in_main : Process (List Bytes)
in_main = record { current_client = main_client; client_pids = []; world = [] }

abbrev in_a : Process (List Bytes)
in_a = record { current_client = codes "a"; client_pids = []; world = [] }

run_lines-started_example :
    run_lines [] all_known logging section in_main
    ≡ ok (record in_main { client_pids = [] ++ started section })
unfolding str_eq
run_lines-started_example =
    run_lines-started [] all_known logging section in_main refl
      ((refl, refl), ((refl, refl), ((refl, refl), ((refl, refl), ((refl, refl), tt)))))

started-section : started section ≡ 11 ∷ 12 ∷ []
unfolding started str_eq
started-section = refl
