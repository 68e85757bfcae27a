-- ===== src/Client/Delegates.antt =====
-- What a client passes on to its barrel, src/client.h; `none` is a client with no barrel.
use super_smack.Prelude.{ℕ, Option, none, some, [], Bytes}
use super_smack.Prelude.Int.{ℤ}
use super_smack.Result.{Result, ok, crashed, null_pointer}
use super_smack.Barrel.{Barrel}
use super_smack.Barrel.Fire.{set_num_rounds}
use super_smack.Report.{TypeReports}
use super_smack.Report.Print.{Clock, RunTime, start_clock, stop_clock, run_time_of, print_report}

-- `Client::set_num_rounds`
unfoldable pub set_barrel_rounds : ℤ → Option Barrel → Option Barrel
set_barrel_rounds n none = none
set_barrel_rounds n (some qb) = some (set_num_rounds n qb)

-- `Client::start_clock` and `Client::stop_clock`, which do not test the pointer.
unfoldable pub start_barrel_clock : ℕ → ℕ → Option Clock → Result Clock
start_barrel_clock tv_sec tv_usec none = crashed null_pointer
start_barrel_clock tv_sec tv_usec (some qr) = ok (start_clock tv_sec tv_usec qr)

unfoldable pub stop_barrel_clock : ℕ → ℕ → Option Clock → Result Clock
stop_barrel_clock tv_sec tv_usec none = crashed null_pointer
stop_barrel_clock tv_sec tv_usec (some qr) = ok (stop_clock tv_sec tv_usec qr)

-- `Client::print_barrel_report`
unfoldable pub print_barrel_report :
    (ℤ → RunTime → Bytes) → Option (TypeReports × Clock) → Result Bytes
print_barrel_report q_per_s none = ok []
print_barrel_report q_per_s (some (type_reports, qr)) =
    print_report q_per_s type_reports (run_time_of qr)
