-- ===== src/Report/Tests.antt =====
-- Runs of the report code, and the theorems at concrete reports.
use super_smack.Prelude.{◌≡◌, refl, some, [], ◌∷◌, ◌++◌, arith, false, Bytes, codes, str_lt, str_eq}
use super_smack.Prelude.Int.{pos, negsuc}
use super_smack.Result.{ok}
use super_smack.StringMap.{lookup}
use super_smack.Report.Types.{TypeReport, TypeReports, new_type_report}
use super_smack.Report.Codec.{Pipe, fd_send, record_bytes}
use super_smack.Report.Send.{IsMessage, fd_send-IsMessage}
use super_smack.Report.Merge.{IsMerged, update_from_fd-fd_send}
use super_smack.Report.Stats.{IsLast, update_each, update_each-IsLast}

abbrev select_report : TypeReport
select_report = record { num_queries = pos 20; min_time = pos 3; max_time = pos 300 }

abbrev update_report : TypeReport
update_report = record { num_queries = pos 5; min_time = negsuc 0; max_time = pos 7 }

-- A child that selected and updated.
abbrev child : TypeReports
child = (codes "sel", some select_report) ∷ (codes "upd", some update_report) ∷ []

abbrev parent : TypeReports
parent = (codes "sel", some new_type_report) ∷ (codes "upd", some new_type_report) ∷ []

abbrev empty_pipe : Pipe
empty_pipe = record { pending = []; broken = false }

abbrev message : Bytes
message = 2 ∷ (record_bytes (codes "sel") select_report ++ record_bytes (codes "upd") update_report)

abbrev sent : Pipe
sent = record { pending = message; broken = false }

fd_send-child : fd_send child empty_pipe ≡ ok sent
unfolding fd_send record_bytes
fd_send-child = refl

fd_send-IsMessage_example : IsMessage child [] message
fd_send-IsMessage_example = fd_send-IsMessage child empty_pipe sent fd_send-child

update_from_fd-fd_send_example :
    IsMerged child parent (record sent { pending = message ++ (7 ∷ []) }) (7 ∷ [])
unfolding lookup str_lt str_eq
update_from_fd-fd_send_example =
    update_from_fd-fd_send child parent sent (7 ∷ []) fd_send-child ((refl, tt), (tt, tt))
      (omega arith, omega arith, omega arith, (omega arith, omega arith, omega arith, tt))
      ((new_type_report, refl), ((new_type_report, refl), tt))

update_each-IsLast_example :
    IsLast 2 (pos 9) (update_each new_type_report (pos 4 ∷ pos 70 ∷ pos 9 ∷ []))
update_each-IsLast_example = update_each-IsLast (pos 4) (pos 70 ∷ []) (pos 9) (omega arith)
