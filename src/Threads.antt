-- ===== src/Threads.antt =====
-- The processes that fire a client's barrel, src/client.cc and src/client.h: `create_threads`
-- forks them, and `thread_sync` sends their reports to the one that forked them.
mod Tests
pub mod Forks
pub mod Semaphore
pub mod Dying
pub mod System
pub mod Queue
pub mod Collect
pub mod Progress
pub mod Totals
pub mod Benchmark
use super_smack.Prelude.{
  ℕ, zero, suc, ◌-◌, Bool, true, false, ◌||◌, Option, none, some, List, [], ◌∷◌, if◌then◌else◌, ltb,
  Bytes, length, codes, str_eq,
}
use super_smack.Prelude.Int.{ℤ, pos, negsuc, ltb_ℤ, ◌+ᵢ◌, pos_part, eq_ℤ, quot_ℤ, wrap}
use super_smack.Result.{
  Result, ok, died, crashed, out_of_bounds, read_error, unknown_client_param, ◌>>=◌,
}
use super_smack.Report.{TypeReports}
use super_smack.Report.Codec.{
  Pipe, read, int_bytes, bytes_int, write_or_die, fd_send, update_from_fd,
}
use super_smack.Main.{Fork, in_child, fork_error, in_parent}
use super_smack.Barrel.Fire.{Timeval, elapsed}

-- The fields of a `Client` that gathers the reports, with those of its barrel. A client with no
-- barrel does not come here: `start_clock` goes through its null pointer first.
pub record Collector : Type 0 where
  pub total_connect_time : ℤ
  pub num_reported_clients : ℤ
  pub max_connect_time : ℤ
  pub min_connect_time : ℤ
  pub type_reports : TypeReports

-- Those fields in `Client()`, with the reports of its barrel.
abbrev pub new_collector : TypeReports → Collector
new_collector type_reports = record {
  total_connect_time = pos 0;
  num_reported_clients = pos 0;
  max_connect_time = pos 0;
  min_connect_time = negsuc 0;
  type_reports = type_reports;
}

-- `Client::connect` behind its call of `do_connect`: the time that it keeps, and what it adds.
unfoldable pub connect_time : Timeval → Timeval → ℤ
connect_time start end = wrap (elapsed start end)

unfoldable pub count_connect : Bool → ℤ → Collector → Collector
count_connect parent_thread time c =
    if parent_thread
    then record c {
      num_reported_clients = c.num_reported_clients +ᵢ pos 1;
      total_connect_time = c.total_connect_time +ᵢ time;
    }
    else c

-- `Client::get_param_val(string&)`, and the average that `print_connect_times` computes too.
unfoldable pub avg_connect_time : Collector → ℤ
avg_connect_time c =
    if eq_ℤ c.num_reported_clients (pos 0)
    then pos 0
    else quot_ℤ c.total_connect_time c.num_reported_clients

unfoldable pub get_param_val : Bytes → Collector → Result ℤ
get_param_val s c =
    if str_eq s (codes "max_connect_time")
    then ok c.max_connect_time
    else if str_eq s (codes "min_connect_time")
    then ok c.min_connect_time
    else if str_eq s (codes "avg_connect_time")
    then ok (avg_connect_time c)
    else died (unknown_client_param s)

-- The lines of `transfer_report_data` about the time of a child that has been read.
unfoldable pub add_time : ℤ → Collector → Collector
add_time time c = record c {
  total_connect_time = c.total_connect_time +ᵢ time;
  num_reported_clients = c.num_reported_clients +ᵢ pos 1;
  max_connect_time = if ltb_ℤ c.max_connect_time time then time else c.max_connect_time;
  min_connect_time =
      if ltb_ℤ time c.min_connect_time || eq_ℤ c.min_connect_time (negsuc 0)
      then time
      else c.min_connect_time;
}

-- Up to those lines; `none` is the return at the end of the data. Of a time that is cut short the
-- other bytes are unset.
unfoldable pub take_time : Pipe → Collector → Result (Option (Collector × Pipe))
take_time fd c = elim (read fd 4) [
  | none ↦ died read_error
  | some ([], fd') ↦ ok none
  | some (buf, fd') ↦
      if ltb (length buf) 4
      then crashed out_of_bounds
      else ok (some (add_time (bytes_int buf) c, fd'))
]

-- `qb->fd_update_report(report_pipe[0])`
unfoldable pub take_report : Pipe → Collector → Result (Collector × Pipe)
take_report fd c = do
  (m, fd') ← update_from_fd fd c.type_reports
  ok (record c { type_reports = m }, fd')

-- `transfer_report_data` in the parent, from its `read` on.
unfoldable pub collect : Pipe → Collector → Result (Collector × Pipe)
collect fd c = do
  timed ← take_time fd c
  elim timed [ none ↦ ok (c, fd) | some (c', fd') ↦ take_report fd' c' ]

-- `transfer_report_data` in a child, between its two semaphore calls.
unfoldable pub send_time : ℤ → Pipe → Result Pipe
send_time time fd = write_or_die fd (int_bytes time)

unfoldable pub send : ℤ → TypeReports → Pipe → Result Pipe
send time m fd = do fd' ← send_time time fd; fd_send m fd'

-- What `create_threads` sets.
pub record Threads : Type 0 where
  pub parent_thread : Bool
  pub running_threads : ℤ

abbrev pub alone : Threads
alone = record { parent_thread = true; running_threads = pos 1 }

-- The loop of `create_threads`, with what each `fork()` gives; it ends in a child.
unfoldable pub fork_loop : ℕ → (ℕ → Fork) → Threads → Threads
fork_loop zero forks t = t
fork_loop (suc n) forks t =
    let on_error = fork_loop n (λ i. forks (suc i)) t in
    let on_child =
      fork_loop n (λ i. forks (suc i))
        (record { parent_thread = true; running_threads = t.running_threads +ᵢ pos 1 }) in
    elim (forks 0) [
      | in_child ↦ record { parent_thread = false; running_threads = pos 0 }
      | fork_error ↦ on_error
      | in_parent pid ↦ on_child
    ]

-- `Client::create_threads`
unfoldable pub create_threads : ℤ → (ℕ → Fork) → Threads → Threads
create_threads num_threads forks t =
    if t.parent_thread then fork_loop (pos_part num_threads - 1) forks t else t
