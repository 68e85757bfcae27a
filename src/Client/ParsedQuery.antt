-- ===== src/Client/ParsedQuery.antt =====
-- `Client::safe_parsed_query` of src/client.cc: the names of dictionaries in a query are replaced
-- by their next words. The result here is the text that is handed on to `safe_query`.
pub mod Bounds
pub mod Expand
pub mod Queries
use super_smack.Prelude.{
  ℕ, zero, suc, ◌+◌, ◌-◌, ◌*◌, Bool, true, false, ◌||◌, not, Option, none, some, List, [], ◌∷◌,
  ◌++◌, if◌then◌else◌, ◌==◌, ltb, Bytes, length, is_alnum,
}
use super_smack.Prelude.Int.{ℤ}
use super_smack.Result.{Result, ok, died, crashed, out_of_bounds, no_such_dictionary, ◌>>=◌}
use super_smack.StringMap.{StringMap, lookup, insert}
use super_smack.Dictionary.{Dictionary, next_word}

-- `map<string, Dictionary*>`; `none` is a null pointer.
abbrev pub Dictionaries : Type 0
Dictionaries = StringMap (Option Dictionary)

pub record Expansion : Type 0 where
  -- the `offset` bytes of `parsed_query` that are set
  pub parsed_query : Bytes
  -- the `var_buf_offset` bytes of `var_buf` that are set
  pub var_buf : Bytes
  pub in_var : Bool
  pub escaped : Bool
  pub dictionaries : Dictionaries
  -- calls of `rand()` made so far
  pub calls : ℕ

abbrev pub max_var_buf : ℕ
max_var_buf = 512

-- `if(offset < max_query - 1) parsed_query[offset++] = c;`
unfoldable pub put : ℕ → ℕ → Expansion → Expansion
put max_query c s =
    if ltb (length s.parsed_query) (max_query - 1)
    then record s { parsed_query = s.parsed_query ++ c ∷ [] }
    else s

abbrev pub is_name : ℕ → Bool
is_name c = is_alnum c || c == b'_'

-- `if(var_buf_offset < sizeof(var_buf) - 1) var_buf[var_buf_offset++] = c;`
unfoldable pub put_var : ℕ → Expansion → Expansion
put_var c s =
    if ltb (length s.var_buf) (max_var_buf - 1)
    then record s { var_buf = s.var_buf ++ c ∷ [] }
    else s

-- The switch on a character outside a name, with no backslash before it.
unfoldable pub plain_step : ℕ → ℕ → Expansion → Expansion
unfolding put
plain_step max_query c s =
    if c == b'\\'
    then record s { escaped = true }
    else if c == b'$'
    then record s { in_var = true; var_buf = [] }
    else put max_query c s

-- `if(2*word_len + offset + 2 < max_query) offset += escape_string(…);`, where the subclass of the
-- client has the virtual `escape_string`.
unfoldable pub put_word : (Bytes → Bytes) → ℕ → Bytes → Expansion → Expansion
put_word escape max_query word s =
    if ltb (2 * length word + length s.parsed_query + 2) max_query
    then record s { parsed_query = s.parsed_query ++ escape word }
    else s

-- The variables before the loop.
abbrev pub start : Dictionaries → ℕ → Expansion
start pool calls = record {
  parsed_query = [];
  var_buf = [];
  in_var = false;
  escaped = false;
  dictionaries = pool;
  calls = calls;
}

module _ (sprintf : Bytes → ℤ → Bytes) (rands : ℕ → ℕ) where
  -- `(*dictionaries)[var_buf]` and its `next_word()`, which changes the dictionary in the pool.
  unfoldable pub word_of : Bytes → Dictionaries → ℕ → Result (Bytes × Dictionaries × ℕ)
  word_of name pool calls = elim (lookup name pool) [
    | some (some d) ↦ (do
      (word, d', calls') ← next_word sprintf rands d calls
      ok (word, insert name (some d') pool, calls'))
    | _ ↦ died (no_such_dictionary name)
  ]

module _ (sprintf : Bytes → ℤ → Bytes) (rands : ℕ → ℕ) (escape : Bytes → Bytes) where
  -- The character behind a name.
  unfoldable pub end_var : ℕ → ℕ → Expansion → Result Expansion
  unfolding put put_word
  end_var max_query c s = do
    (word, pool, calls) ← word_of sprintf rands s.var_buf s.dictionaries s.calls
    let s' =
        put max_query c
          (put_word escape max_query word (record s { dictionaries = pool; calls = calls }))
    ok (record s' { var_buf = []; in_var = false })

  -- The body of the loop.
  unfoldable pub step : ℕ → ℕ → Expansion → Result Expansion
  step max_query c s =
      if not s.in_var
      then ok (if not s.escaped then plain_step max_query c s else put max_query c s)
      else if is_name c
      then ok (put_var c s)
      else end_var max_query c s

  -- The loop, up to the NUL of the query.
  unfoldable pub run : ℕ → Bytes → Expansion → Result Expansion
  run max_query [] s = ok s
  run max_query (c ∷ query) s = do s' ← step max_query c s; run max_query query s'

  -- `Client::safe_parsed_query`, up to its call of `safe_query`. The NUL behind the query is
  -- outside an empty buffer.
  unfoldable pub safe_parsed_query : Bytes → ℕ → Dictionaries → ℕ → Result Expansion
  safe_parsed_query query max_query pool calls = do
    s ← run max_query query (start pool calls)
    if ltb (length s.parsed_query) max_query then ok s else crashed out_of_bounds
