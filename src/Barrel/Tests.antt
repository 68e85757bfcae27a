-- ===== src/Barrel/Tests.antt =====
-- A line of shots and pauses, and the theorems at it.
use super_smack.Prelude.{
  ℕ, ◌≡◌, refl, ◌≢◌, some, List, [], ◌∷◌, ◌++◌, arith, Bytes, codes, str_eq, c_str, IsText, All,
}
use super_smack.Prelude.Int.{ℤ, pos}
use super_smack.Prelude.Atoi.{atoi}
use super_smack.Result.{ok, died, undefined_query}
use super_smack.StringMap.{lookup}
use super_smack.Query.{Query, new_query}
use super_smack.Report.Types.{add_type}
use super_smack.Barrel.{
  Barrel, query_charge, sleep_action, add_query_charge, add_sleep_action, QueryPool,
  update_client_def, charge, word_end, step, run, last_word, finish,
}
use super_smack.Barrel.Words.{IsWord}
use super_smack.Barrel.Shots.{IsShot, Shot, shot, pause, terminated, update_client_def-undefined}
use super_smack.Barrel.Reports.{IsReady, update_client_def-IsReady}

abbrev select : Query
select = record new_query { name = codes "sel"; type_name = codes "s"; query = codes "select 1" }

abbrev pool : QueryPool
pool = (codes "sel", some select) ∷ []

abbrev half_second : Bytes → ℤ × ℤ
half_second time = (pos 0, pos 500000)

abbrev shots : List Shot
shots = shot (codes "12") (codes "sel") select ∷ pause (codes ".5") ∷ []

abbrev filled : Barrel
filled = record {
  actions = query_charge select (pos 12) ∷ sleep_action (pos 0) (pos 500000) ∷ [];
  num_rounds = pos 0;
  type_reports = add_type (codes "s") [];
}

reads : update_client_def half_second pool (codes "12 sel -.5") ≡ ok filled
unfolding update_client_def run step word_end charge last_word finish lookup str_eq add_query_charge
    add_sleep_action atoi c_str
reads = refl

-- Several spaces, and one in front.
reads_spaces : update_client_def half_second pool (codes "  12   sel  -.5 ") ≡ ok filled
unfolding update_client_def run step word_end charge last_word finish lookup str_eq add_query_charge
    add_sleep_action atoi c_str
reads_spaces = refl

word : (c : ℕ) (w : Bytes) → All (λ c. c ≢ b' ') (c ∷ w) → IsText (c ∷ w) → IsWord (c ∷ w)
word c w h k = record { nonempty = λ e. cc; no_space = h; text = k }

shots-IsShot : All (IsShot half_second pool) shots
unfolding lookup str_eq
shots-IsShot = (
  (
    word b'1' (codes "2") (omega arith) (omega arith),
    refl,
    word b's' (codes "el") (omega arith) (omega arith),
    refl,
    refl,
  ),
  (word b'-' (codes ".5") (omega arith) (omega arith), tt),
)

update_client_def-undefined_example :
    (update_client_def half_second pool
        (terminated shots (codes "3" ++ (codes " " ++ (codes "upd" ++ codes " 4 sel"))))
      ≡ died (undefined_query (codes "upd")))
    × (update_client_def half_second pool (terminated shots (codes "upd"))
        ≡ died (undefined_query (codes "upd")))
unfolding lookup str_eq
update_client_def-undefined_example =
    update_client_def-undefined half_second pool shots (codes "3") (codes "upd") (codes "4 sel")
      shots-IsShot (word b'3' [] (omega arith) (omega arith)) refl
      (word b'u' (codes "pd") (omega arith) (omega arith)) refl refl

update_client_def-IsReady_example : IsReady filled
update_client_def-IsReady_example =
    update_client_def-IsReady half_second pool (codes "12 sel -.5") filled reads
