-- ===== src/Client/ParsedQuery/Queries.antt =====
-- `safe_parsed_query` on whole queries: pieces alone, and the two endings that it treats otherwise.
use super_smack.Prelude.{
  ℕ, ◌+◌, ◌*◌, ◌≤◌, ◌<◌, ◌≡◌, refl, sym, ◌∙◌, true, List, [], ◌∷◌, ◌++◌, append-nil, arith, Bytes,
  length,
}
use super_smack.Prelude.Int.{ℤ}
use super_smack.Result.{ok}
use super_smack.Client.ParsedQuery.{Dictionaries, Expansion, run, start, safe_parsed_query}
use super_smack.Client.ParsedQuery.Bounds.{safe_parsed_query-IsBounded}
use super_smack.Client.ParsedQuery.Expand.{
  expand_room, Piece, render, IsPieces, IsName, outside, inside, Expanded, expand, run-render,
  run_dollar, run_name, run_slash, run_literal,
}

module _ (sprintf : Bytes → ℤ → Bytes) (rands : ℕ → ℕ) (escape : Bytes → Bytes)
    (escape_le : (w : Bytes) → length (escape w) ≤ 2 * length w) where
  -- What a query whose pieces expand to `r` becomes, with a given ending.
  pub record IsExpanded (query ending : Bytes) (max_query : ℕ) (pool : Dictionaries) (calls : ℕ)
      (r : Expanded) : Type 0 where
    pub state : Expansion
    pub returned : safe_parsed_query sprintf rands escape query max_query pool calls ≡ ok state
    pub parsed_query : state.parsed_query ≡ r.query ++ ending
    pub dictionaries : state.dictionaries ≡ r.dictionaries
    pub calls_after : state.calls ≡ r.calls

  module _ (ps : List Piece) (max_query : ℕ) (pool : Dictionaries) (calls : ℕ) (r : Expanded)
      (pieces : IsPieces ps) (expands : expand sprintf rands escape ps pool calls ≡ ok r)
      (room : r.room < max_query) where
    at_ending :
        (ending : Bytes)
        → run sprintf rands escape max_query (render ps ++ ending) (start pool calls)
          ≡ run sprintf rands escape max_query ending (outside r.query r.dictionaries r.calls)
    at_ending ending =
        run-render sprintf rands escape max_query escape_le ps ending [] pool calls r pieces expands
          (omega arith)

    ends :
        (query : Bytes) (s : Expansion)
        → run sprintf rands escape max_query query (start pool calls) ≡ ok s
        → safe_parsed_query sprintf rands escape query max_query pool calls ≡ ok s
    ends query s e =
        (safe_parsed_query-IsBounded sprintf rands escape escape_le query max_query pool calls s e
          (omega arith)).1

    run_nil : (s : Expansion) → run sprintf rands escape max_query [] s ≡ ok s
    run_nil s = unfold run in refl

    -- A name at the very end of the query is dropped, and no word of its dictionary is taken.
    pub safe_parsed_query-name_last :
        (name : Bytes)
        → IsName name
        → IsExpanded (render ps ++ (b'$' ∷ name)) [] max_query pool calls r
    safe_parsed_query-name_last name h = record {
      state = inside r.query name r.dictionaries r.calls;
      returned = ends (render ps ++ (b'$' ∷ name)) _ (
          at_ending (b'$' ∷ name)
          ∙ run_dollar sprintf rands escape max_query escape_le r.query name r.dictionaries r.calls
          ∙ (rw append-nil at (
              run_name sprintf rands escape max_query escape_le name [] r.query [] r.dictionaries
                r.calls h.0 (omega arith)))
          ∙ run_nil (inside r.query name r.dictionaries r.calls));
      parsed_query = sym (append-nil r.query);
      dictionaries = refl;
      calls_after = refl;
    }

    -- Behind a backslash all of the rest is copied as it stands, names, dollar signs and further
    -- backslashes included.
    pub safe_parsed_query-slash :
        (rest : Bytes)
        → r.room + length rest < max_query
        → IsExpanded (render ps ++ (b'\\' ∷ rest)) rest max_query pool calls r
    safe_parsed_query-slash rest h = record {
      state = record (outside (r.query ++ rest) r.dictionaries r.calls) { escaped = true };
      returned = ends (render ps ++ (b'\\' ∷ rest)) _ (
          at_ending (b'\\' ∷ rest)
          ∙ run_slash sprintf rands escape max_query escape_le r.query rest r.dictionaries r.calls
          ∙ run_literal sprintf rands escape max_query escape_le rest r.query r.dictionaries r.calls
              (omega (
                arith,
                expand_room sprintf rands escape max_query escape_le ps pool calls r expands,
              )));
      parsed_query = refl;
      dictionaries = refl;
      calls_after = refl;
    }
