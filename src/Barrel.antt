-- ===== src/Barrel.antt =====
-- `Query_barrel` of src/query.h, the actions that it holds, and how a `query_barrel` line of a
-- client section fills it (`Client_query_barrel_def_line` of src/parse.cc).
mod Tests
pub mod Reports
pub mod Words
pub mod Shots
pub mod Fire
use super_smack.Prelude.{
  ℕ, zero, suc, ◌+◌, Bool, true, false, not, Option, none, some, List, [], ◌∷◌, ◌++◌, if◌then◌else◌,
  ◌==◌, Bytes, c_str,
}
use super_smack.Prelude.Int.{ℤ, pos}
use super_smack.Prelude.Atoi.{atoi}
use super_smack.Result.{Result, ok, died, undefined_query, ◌>>=◌}
use super_smack.StringMap.{StringMap, lookup}
use super_smack.Query.{Query}
use super_smack.Report.{TypeReports, add_type}

-- `Query_charge` and `Sleep_action`.
pub data Action : Type 0 where
  -- query, num_shots
  query_charge : Query → ℤ → Action
  -- sec, usec
  sleep_action : ℤ → ℤ → Action

pub record Barrel : Type 0 where
  pub actions : List Action
  pub num_rounds : ℤ
  pub type_reports : TypeReports

-- `Query_barrel()`
abbrev pub new_barrel : Barrel
new_barrel = record { actions = []; num_rounds = pos 0; type_reports = [] }

-- `Query_barrel::add_query_charge`
unfoldable pub add_query_charge : Query → ℤ → Barrel → Barrel
add_query_charge q num_shots b = record b {
  actions = b.actions ++ query_charge q num_shots ∷ [];
  type_reports = add_type q.type_name b.type_reports;
}

-- `Query_barrel::add_sleep_action`
unfoldable pub add_sleep_action : ℤ × ℤ → Barrel → Barrel
add_sleep_action (sec, usec) b = record b { actions = b.actions ++ sleep_action sec usec ∷ [] }

-- `parse_state`
pub data ParseState : Type 0 where
  at_num_shots at_query_name : ParseState

pub record Parser : Type 0 where
  -- the `j` bytes of `buf` that are set
  pub buf : Bytes
  pub last_was_space : Bool
  pub num_shots : ℤ
  pub parse_state : ParseState
  pub qb : Barrel

-- `map<string, Query*> query_pool`; `none` is a null pointer.
abbrev pub QueryPool : Type 0
QueryPool = StringMap (Option Query)

-- `buf[0] == '-'`, and `buf + 1`.
abbrev pub dash : Bytes → Option Bytes
dash [] = none
dash (c ∷ s) = if c == b'-' then some s else none

-- The variables before the loop.
abbrev pub initial : Parser
initial = record {
  buf = [];
  last_was_space = true;
  num_shots = pos 0;
  parse_state = at_num_shots;
  qb = new_barrel;
}

-- The C library's floats are outside the model: `sleep_time w` stands for the seconds and
-- microseconds that the code computes from `atof(w)` by `floor`.
module _ (sleep_time : Bytes → ℤ × ℤ) (pool : QueryPool) where
  -- `query_pool[buf]`, `die` if it is null, `add_query_charge`.
  unfoldable pub charge : Bytes → ℤ → Barrel → Result Barrel
  charge name num_shots qb = elim (lookup name pool) [
    | some (some q) ↦ ok (add_query_charge q num_shots qb)
    | _ ↦ died (undefined_query name)
  ]

  -- The switch at the end of a word, by `parse_state`.
  unfoldable pub word_end : ParseState → Bytes → Parser → Result Parser
  word_end at_num_shots word p = elim (dash word) [
    | some time ↦ ok (record p { qb = add_sleep_action (sleep_time time) p.qb })
    | none ↦ ok (record p { num_shots = atoi word; parse_state = at_query_name })
  ]
  word_end at_query_name word p = do
    qb ← charge word p.num_shots p.qb
    ok (record p { qb = qb; parse_state = at_num_shots })

  -- The body of the loop.
  unfoldable pub step : ℕ → Parser → Result Parser
  step c p =
      if c == b' '
      then (if p.last_was_space
          then ok p
          else word_end p.parse_state (c_str p.buf) (record p { last_was_space = true; buf = [] }))
      else ok (record p { last_was_space = false; buf = p.buf ++ c ∷ [] })

  unfoldable pub run : Bytes → Parser → Result Parser
  run [] p = ok p
  run (c ∷ str) p = do p' ← step c p; run str p'

  -- What follows the loop: a last word with no space behind it.
  unfoldable pub last_word : Bytes → Parser → Result Barrel
  last_word word p = elim (dash word) [
    | some time ↦ ok (add_sleep_action (sleep_time time) p.qb)
    | none ↦ charge word p.num_shots p.qb
  ]

  unfoldable pub finish : Parser → Result Barrel
  finish p = if not p.last_was_space then last_word (c_str p.buf) p else ok p.qb

  -- `Client_query_barrel_def_line::update_client_def`: the barrel that the client gets.
  unfoldable pub update_client_def : Bytes → Result Barrel
  update_client_def str = do p ← run str initial; finish p
