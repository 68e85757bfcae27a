-- ===== src/Threads/Tests.antt =====
-- A run of a client with one child.
use mathlib.Core.List.{Perm}
use super_smack.Prelude.{
  ℕ, ◌+◌, ◌<◌, ◌≡◌, ◌⊎◌, refl, ◌≢◌, str_eq, List, [], ◌∷◌, some, arith, codes, All, sum_by, length,
}
use super_smack.Prelude.Int.{pos}
use super_smack.StringMap.{lookup}
use super_smack.Report.{TypeReport, new_type_report}
use super_smack.Threads.{Collector, new_collector}
use super_smack.Threads.System.{
  Message, finished, unlocked, locked, System, Step, lock_pipe_sem, child, Reach, here, then, start,
}
use super_smack.Threads.Collect.{gather, IsFit}
use super_smack.Threads.Collect.Gathered.{collected}
use super_smack.Threads.Totals.{counted, owing, HasCount, collected_totals}
use super_smack.Threads.Totals
use super_smack.Threads.Progress.{measure, all_to_go, thread_sync_ends, reach_finished}

-- Five queries of the type `s`, of 2 to 9 ms.
abbrev five : TypeReport
five = record { num_queries = pos 5; min_time = pos 2; max_time = pos 9 }

abbrev told : Message
told = record { connect_time = pos 7; type_reports = (codes "s", some five) ∷ [] }

abbrev parent : Collector
parent = new_collector ((codes "s", some new_type_report) ∷ [])

s_no_nul : ◌≢◌ {A = ℕ} b's' 0
s_no_nul e = absurd (ground arith)

known_s : lookup (codes "s") parent.type_reports ≡ some (some new_type_report)
unfolding lookup str_eq
known_s = refl

told-IsFit : IsFit parent told
told-IsFit = (
  record {
    time = (omega arith, omega arith);
    sorted = (tt, tt);
    sendable = (
      (s_no_nul, tt),
      omega arith,
      record {
        num_queries = (omega arith, omega arith);
        min_time = (omega arith, omega arith);
        max_time = (omega arith, omega arith);
      },
      tt,
    );
    fits = omega arith;
  },
  ((new_type_report, known_s), tt),
)

abbrev two_children : List Message
two_children = told ∷ told ∷ []

both-IsFit : All (IsFit parent) two_children
both-IsFit = (told-IsFit, (told-IsFit, tt))

to_end : (t : System) × Reach (start two_children parent) t × (t.phase ≡ finished)
unfolding all_to_go
to_end =
    reach_finished 20 two_children parent (start two_children parent) both-IsFit (omega arith) here

collected_example :
    (order : List Message) × Perm two_children order × (to_end.0.collector ≡ gather parent order)
collected_example = collected two_children parent to_end.0 both-IsFit to_end.1 to_end.2

abbrev first_locked : System
first_locked = record (start two_children parent) {
  children =
      record { phase = locked; message = told } ∷ record { phase = unlocked; message = told } ∷ [];
  sem = 0;
}

to_first_locked : Reach (start two_children parent) first_locked
to_first_locked = then here (
    child [] (record { phase = unlocked; message = told } ∷ [])
      (record { phase = unlocked; message = told }) refl lock_pipe_sem)

thread_sync_ends_example :
    ((first_locked.phase ≡ finished) ⊎ ((t : System) × Step first_locked t))
    × ((t : System) → Step first_locked t → measure t < measure first_locked)
thread_sync_ends_example =
    thread_sync_ends two_children parent first_locked both-IsFit to_first_locked

parent-HasCount : HasCount (codes "s") 0 parent.type_reports
parent-HasCount = (new_type_report, known_s, refl)

none_owing : All (λ (m : Message). owing (codes "s") m ≡ 0) two_children
unfolding counted str_eq
none_owing = (omega arith, (omega arith, tt))

told_s : Totals.told (codes "s") told ≡ 5
unfolding counted str_eq
told_s = omega arith

collected_totals_example :
    HasCount
      (codes "s")
      (0 + sum_by (Totals.told (codes "s")) two_children)
      to_end.0.collector.type_reports
    × (to_end.0.collector.num_reported_clients ≡ pos (0 + length two_children))
collected_totals_example =
    collected_totals (codes "s") two_children parent to_end.0 0 0 both-IsFit none_owing
      parent-HasCount refl (omega (arith, told_s)) (omega arith) to_end.1 to_end.2
