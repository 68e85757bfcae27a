-- ===== src/Query.antt =====
-- `Query` of src/query.h, and the lines of a query section (`Query_def_line` of src/parse.cc).
use super_smack.Prelude.{◌+◌, Bool, false, ◌&&◌, [], ◌∷◌, if◌then◌else◌, ◌==◌, leb, Bytes}

pub record Query : Type 0 where
  pub query : Bytes
  pub name : Bytes
  pub type_name : Bytes
  pub has_result_set : Bool
  pub parsed : Bool

-- `Query()`
abbrev pub new_query : Query
new_query = record { query = []; name = []; type_name = []; has_result_set = false; parsed = false }

-- The subclasses of `Query_def_line`, each with its `str`.
pub data QueryDefLine : Type 0 where
  name_line query_line parsed_line type_line has_result_set_line : Bytes → QueryDefLine

-- `tolower(str[0]) == 'y'`; the first byte of an empty string is its NUL.
unfoldable pub is_yes : Bytes → Bool
is_yes [] = false
is_yes (c ∷ str) = (if leb b'A' c && leb c b'Z' then c + 32 else c) == b'y'

-- `set_q_param`, which each subclass overrides.
unfoldable pub set_q_param : QueryDefLine → Query → Query
unfolding is_yes
set_q_param (name_line str) q = record q { name = str }
set_q_param (query_line str) q = record q { query = str }
set_q_param (type_line str) q = record q { type_name = str }
set_q_param (has_result_set_line str) q = record q { has_result_set = is_yes str }
set_q_param (parsed_line str) q = record q { parsed = is_yes str }
