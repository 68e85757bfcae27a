-- ===== src/Client/ParsedQuery/Bounds.antt =====
-- No write of `safe_parsed_query` is outside its two buffers.
use super_smack.Prelude.{
  ℕ, ◌*◌, ◌≤◌, ◌<◌, ◌≡◌, refl, inl, inr, true, [], ◌∷◌, arith, ltb, Bytes, length, length-append,
  Bool-cases,
}
use super_smack.Prelude.Int.{ℤ}
use super_smack.Result.{ok, >>=-eq-ok, ok_injective}
use mathlib.Core.Path.{subst}
use super_smack.Client.ParsedQuery.{
  is_name, Dictionaries, Expansion, max_var_buf, put, put_var, plain_step, word_of, put_word,
  end_var, step, run, start, safe_parsed_query,
}

-- `parsed_query` has room for its NUL, and so has `var_buf`.
pub record IsBounded (max_query : ℕ) (s : Expansion) : Type 0 where
  pub parsed_query : length s.parsed_query < max_query
  pub var_buf : length s.var_buf < max_var_buf

put-IsBounded :
    (max_query c : ℕ) (s : Expansion)
    → IsBounded max_query s
    → IsBounded max_query (put max_query c s)
unfolding put
put-IsBounded max_query c s h = ground (arith, length-append s.parsed_query (c ∷ []))

put_var-IsBounded :
    (max_query c : ℕ) (s : Expansion) → IsBounded max_query s → IsBounded max_query (put_var c s)
unfolding put_var
put_var-IsBounded max_query c s h = ground (arith, length-append s.var_buf (c ∷ []))

plain_step-IsBounded :
    (max_query c : ℕ) (s : Expansion)
    → IsBounded max_query s
    → IsBounded max_query (plain_step max_query c s)
unfolding plain_step
plain_step-IsBounded max_query c s h = ground (arith, length-append s.parsed_query (c ∷ []))

module _ (sprintf : Bytes → ℤ → Bytes) (rands : ℕ → ℕ) (escape : Bytes → Bytes)
    (escape_le : (w : Bytes) → length (escape w) ≤ 2 * length w) where
  put_word-IsBounded :
      (max_query : ℕ) (word : Bytes) (s : Expansion)
      → IsBounded max_query s
      → IsBounded max_query (put_word escape max_query word s)
  unfolding put_word
  put_word-IsBounded max_query word s h =
      ground (arith, length-append s.parsed_query (escape word), escape_le word)

  end_var-IsBounded :
      (max_query c : ℕ) (s s' : Expansion)
      → IsBounded max_query s
      → end_var sprintf rands escape max_query c s ≡ ok s'
      → IsBounded max_query s'
  unfolding end_var
  end_var-IsBounded max_query c s s' h e =
      let ((word, pool, calls), found, e') =
        >>=-eq-ok (word_of sprintf rands s.var_buf s.dictionaries s.calls) _ e in
      let t = record s { dictionaries = pool; calls = calls } in
      let kept = put-IsBounded max_query c (put_word escape max_query word t) (
        put_word-IsBounded max_query word t
          (record { parsed_query = h.parsed_query; var_buf = h.var_buf })) in
      subst (IsBounded max_query) (ok_injective e')
        (record { parsed_query = kept.parsed_query; var_buf = omega arith })

  step-IsBounded :
      (max_query c : ℕ) (s s' : Expansion)
      → IsBounded max_query s
      → step sprintf rands escape max_query c s ≡ ok s'
      → IsBounded max_query s'
  unfolding step
  step-IsBounded max_query c s s' h e = elim (Bool-cases s.in_var) [
    | inl inside ↦ elim (Bool-cases (is_name c)) [
      | inl more ↦
          let same : put_var c s ≡ s' = ground arith in
          subst (IsBounded max_query) same (put_var-IsBounded max_query c s h)
      | inr over ↦
          let same : end_var sprintf rands escape max_query c s ≡ ok s' = ground arith in
          end_var-IsBounded max_query c s s' h same
    ]
    | inr outside ↦ elim (Bool-cases s.escaped) [
      | inl literal ↦
          let same : put max_query c s ≡ s' = ground arith in
          subst (IsBounded max_query) same (put-IsBounded max_query c s h)
      | inr plain ↦
          let same : plain_step max_query c s ≡ s' = ground arith in
          subst (IsBounded max_query) same (plain_step-IsBounded max_query c s h)
    ]
  ]

  run-IsBounded :
      (max_query : ℕ) (query : Bytes) (s s' : Expansion)
      → IsBounded max_query s
      → run sprintf rands escape max_query query s ≡ ok s'
      → IsBounded max_query s'
  unfolding run
  run-IsBounded max_query [] s s' h e = ground arith
  run-IsBounded max_query (c ∷ query) s s' h e =
      let (t, first, rest) = >>=-eq-ok (step sprintf rands escape max_query c s) _ e in
      run-IsBounded max_query query t s' (step-IsBounded max_query c s t h first) rest

  -- Of a buffer of `max_query` bytes the query uses at most `max_query - 1`, and a name at most 511
  -- of the 512 of `var_buf`, whatever the query, the dictionaries and their words are.
  pub safe_parsed_query-IsBounded :
      (query : Bytes) (max_query : ℕ) (pool : Dictionaries) (calls : ℕ) (s : Expansion)
      → run sprintf rands escape max_query query (start pool calls) ≡ ok s
      → 0 < max_query
      → IsBounded max_query s
        × (safe_parsed_query sprintf rands escape query max_query pool calls ≡ ok s)
  unfolding safe_parsed_query
  safe_parsed_query-IsBounded query max_query pool calls s e h =
      let bounds =
        run-IsBounded max_query query (start pool calls) s
          (record { parsed_query = h; var_buf = omega arith }) e in
      let room : ltb (length s.parsed_query) max_query ≡ true =
        ground (arith, bounds.parsed_query) in
      (bounds, rw (e, room) refl)
