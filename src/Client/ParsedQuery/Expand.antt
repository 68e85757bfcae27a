-- ===== src/Client/ParsedQuery/Expand.antt =====
-- What `safe_parsed_query` makes of a query, given by its pieces.
use super_smack.Prelude.{
  ℕ, ◌+◌, ◌*◌, ◌≤◌, ◌<◌, ◌≡◌, ◌≢◌, refl, ap, ◌∙◌, true, false, List, [], ◌∷◌, ◌++◌, append_assoc,
  append-nil, arith, Bytes, length, length-append, All,
}
use mathlib.Core.Path.{subst}
use super_smack.Prelude.Int.{ℤ}
use super_smack.Result.{Result, ok, ◌>>=◌, >>=-eq-ok, ok_injective}
use super_smack.Client.ParsedQuery.{
  is_name, Dictionaries, Expansion, max_var_buf, put, put_var, plain_step, word_of, put_word,
  end_var, step, run, start,
}

-- A character of the query's text, or a name with the character behind it.
pub data Piece : Type 0 where
  text : ℕ → Piece
  var : Bytes → ℕ → Piece

abbrev pub render : List Piece → Bytes
render [] = []
render (text c ∷ ps) = c ∷ render ps
render (var name sep ∷ ps) = b'$' ∷ (name ++ (sep ∷ render ps))

abbrev pub IsName : Bytes → Type 0
IsName name = All (λ c. is_name c ≡ true) name × (length name < max_var_buf)

-- The text has no backslash and no dollar sign, and a name ends where its characters do.
abbrev pub IsPieces : List Piece → Type 0
IsPieces [] = Unit
IsPieces (text c ∷ ps) = (c ≢ b'\\') × (c ≢ b'$') × IsPieces ps
IsPieces (var name sep ∷ ps) = IsName name × (is_name sep ≡ false) × IsPieces ps

-- Outside a name, with no backslash so far.
abbrev pub outside : Bytes → Dictionaries → ℕ → Expansion
outside parsed pool calls = record (start pool calls) { parsed_query = parsed }

abbrev pub inside : Bytes → Bytes → Dictionaries → ℕ → Expansion
inside parsed name pool calls = record (outside parsed pool calls) { var_buf = name; in_var = true }

regroup : (p w : Bytes) (c : ℕ) (q : Bytes) → ((p ++ w) ++ c ∷ []) ++ q ≡ p ++ (w ++ (c ∷ q))
regroup p w c q = simp append_assoc

-- The query with its words in place, and a bound of the room that it takes.
pub record Expanded : Type 0 where
  pub query : Bytes
  pub room : ℕ
  pub dictionaries : Dictionaries
  pub calls : ℕ

module _ (sprintf : Bytes → ℤ → Bytes) (rands : ℕ → ℕ) (escape : Bytes → Bytes) where
  unfoldable pub expand : List Piece → Dictionaries → ℕ → Result Expanded
  expand [] pool calls = ok (record { query = []; room = 0; dictionaries = pool; calls = calls })
  expand (text c ∷ ps) pool calls = do
    r ← expand ps pool calls
    ok (record r { query = c ∷ r.query; room = r.room + 1 })
  expand (var name sep ∷ ps) pool calls = do
    (word, pool', calls') ← word_of sprintf rands name pool calls
    r ← expand ps pool' calls'
    ok (record r { query = escape word ++ (sep ∷ r.query); room = 2 * length word + 3 + r.room })

  module _ (max_query : ℕ) (escape_le : (w : Bytes) → length (escape w) ≤ 2 * length w) where
    step_text :
        (c : ℕ) (p : Bytes) (pool : Dictionaries) (calls : ℕ)
        → c ≢ b'\\'
        → c ≢ b'$'
        → length p + 1 < max_query
        → step sprintf rands escape max_query c (outside p pool calls)
          ≡ ok (outside (p ++ c ∷ []) pool calls)
    unfolding step plain_step put
    step_text c p pool calls h k room = ground arith

    pub run_name :
        (name done p rest : Bytes) (pool : Dictionaries) (calls : ℕ)
        → All (λ c. is_name c ≡ true) name
        → length done + length name < max_var_buf
        → run sprintf rands escape max_query (name ++ rest) (inside p done pool calls)
          ≡ run sprintf rands escape max_query rest (inside p (done ++ name) pool calls)
    unfolding run
    run_name [] done p rest pool calls h room = rw append-nil
    run_name (c ∷ name) done p rest pool calls h room = rw (first c h.0 (omega arith)) (
        run_name name (done ++ c ∷ []) p rest pool calls h.1
          (omega (arith, length-append done (c ∷ [])))
        ∙ rw append_assoc)
      where
        first :
            (c : ℕ)
            → is_name c ≡ true
            → length done + 1 < max_var_buf
            → step sprintf rands escape max_query c (inside p done pool calls)
              ≡ ok (inside p (done ++ c ∷ []) pool calls)
        first c e room' = unfold step put_var in ground arith

    put_room :
        (c : ℕ) (s : Expansion)
        → length s.parsed_query + 1 < max_query
        → put max_query c s ≡ record s { parsed_query = s.parsed_query ++ c ∷ [] }
    unfolding put
    put_room c s h = ground arith

    put_word_room :
        (word : Bytes) (s : Expansion)
        → 2 * length word + length s.parsed_query + 2 < max_query
        → put_word escape max_query word s
          ≡ record s { parsed_query = s.parsed_query ++ escape word }
    unfolding put_word
    put_word_room word s h = ground arith

    step_end :
        (name p word : Bytes) (sep : ℕ) (pool pool' : Dictionaries) (calls calls' : ℕ)
        → is_name sep ≡ false
        → word_of sprintf rands name pool calls ≡ ok (word, pool', calls')
        → length p + 2 * length word + 3 ≤ max_query
        → step sprintf rands escape max_query sep (inside p name pool calls)
          ≡ ok (outside ((p ++ escape word) ++ sep ∷ []) pool' calls')
    unfolding step end_var
    step_end name p word sep pool pool' calls calls' e found room =
        let s = record (inside p name pool calls) { dictionaries = pool'; calls = calls' } in
        let fits : length (p ++ escape word) + 1 < max_query =
          omega (arith, length-append p (escape word), escape_le word) in
        rw
          (
            e,
            found,
            put_word_room word s (omega arith),
            put_room sep (record s { parsed_query = p ++ escape word }) fits,
          )
          refl

    pub run_dollar :
        (p rest : Bytes) (pool : Dictionaries) (calls : ℕ)
        → run sprintf rands escape max_query (b'$' ∷ rest) (outside p pool calls)
          ≡ run sprintf rands escape max_query rest (inside p [] pool calls)
    unfolding run step plain_step
    run_dollar p rest pool calls = refl

    run_end :
        (c : ℕ) (rest : Bytes) (s s' : Expansion)
        → step sprintf rands escape max_query c s ≡ ok s'
        → run sprintf rands escape max_query (c ∷ rest) s
          ≡ run sprintf rands escape max_query rest s'
    unfolding run
    run_end c rest s s' e = rw e refl

    -- The loop over pieces that fit, from any point outside a name.
    abbrev pub Runs : List Piece → Bytes → Bytes → Dictionaries → ℕ → Expanded → Type 0
    Runs ps tail p pool calls r =
        length p + r.room < max_query
        → run sprintf rands escape max_query (render ps ++ tail) (outside p pool calls)
          ≡ run sprintf rands escape max_query tail (outside (p ++ r.query) r.dictionaries r.calls)

    run-render_text :
        (c : ℕ) (ps : List Piece) (tail p : Bytes) (pool : Dictionaries) (calls : ℕ) (r : Expanded)
        → c ≢ b'\\'
        → c ≢ b'$'
        → ((p' : Bytes) → Runs ps tail p' pool calls r)
        → Runs (text c ∷ ps) tail p pool calls (record r { query = c ∷ r.query; room = r.room + 1 })
    unfolding run
    run-render_text c ps tail p pool calls r h k later room =
        rw (step_text c p pool calls h k (omega arith))
          (later (p ++ c ∷ []) (omega (arith, length-append p (c ∷ []))) ∙ rw append_assoc)

    run-render_var :
        (name : Bytes) (sep : ℕ) (ps : List Piece) (tail p word : Bytes) (pool pool' : Dictionaries)
        (calls calls' : ℕ) (r : Expanded)
        → IsName name
        → is_name sep ≡ false
        → word_of sprintf rands name pool calls ≡ ok (word, pool', calls')
        → ((p' : Bytes) → Runs ps tail p' pool' calls' r)
        → Runs (var name sep ∷ ps) tail p pool calls (record r {
          query = escape word ++ (sep ∷ r.query);
          room = 2 * length word + 3 + r.room;
        })
    run-render_var name sep ps tail p word pool pool' calls calls' r h e found later room =
        run_dollar p _ pool calls
        ∙ ap (λ q. run sprintf rands escape max_query q (inside p [] pool calls))
            (append_assoc name (sep ∷ render ps) tail)
        ∙ run_name name [] p (sep ∷ (render ps ++ tail)) pool calls h.0 (omega arith)
        ∙ run_end sep (render ps ++ tail) (inside p name pool calls) _
            (step_end name p word sep pool pool' calls calls' e found (omega arith))
        ∙ later ((p ++ escape word) ++ sep ∷ []) (
            omega (
              arith,
              length-append (p ++ escape word) (sep ∷ []),
              length-append p (escape word),
              escape_le word,
            ))
        ∙ ap (λ q. run sprintf rands escape max_query tail (outside q r.dictionaries r.calls))
            (regroup p (escape word) sep r.query)

    pub run-render :
        (ps : List Piece) (tail p : Bytes) (pool : Dictionaries) (calls : ℕ) (r : Expanded)
        → IsPieces ps
        → expand ps pool calls ≡ ok r
        → Runs ps tail p pool calls r
    unfolding expand
    run-render [] tail p pool calls r h e =
        subst (Runs [] tail p pool calls) (ok_injective e) (λ room. rw append-nil)
    run-render (text c ∷ ps) tail p pool calls r h e =
        let (r', first, q) = >>=-eq-ok (expand ps pool calls) _ e in
        subst (Runs (text c ∷ ps) tail p pool calls) (ok_injective q) (
          run-render_text c ps tail p pool calls r' h.0 h.1
            (λ p'. run-render ps tail p' pool calls r' h.2 first))
    run-render (var name sep ∷ ps) tail p pool calls r h e =
        let ((word, pool', calls'), found, e') =
          >>=-eq-ok (word_of sprintf rands name pool calls) _ e in
        let (r', first, q) = >>=-eq-ok (expand ps pool' calls') _ e' in
        subst (Runs (var name sep ∷ ps) tail p pool calls) (ok_injective q) (
          run-render_var name sep ps tail p word pool pool' calls calls' r' h.0 h.1 found
            (λ p'. run-render ps tail p' pool' calls' r' h.2 first))

    pub run_literal :
        (rest p : Bytes) (pool : Dictionaries) (calls : ℕ)
        → length p + length rest < max_query
        → run sprintf rands escape max_query rest (record (outside p pool calls) { escaped = true })
          ≡ ok (record (outside (p ++ rest) pool calls) { escaped = true })
    unfolding run
    run_literal [] p pool calls room = rw append-nil
    run_literal (c ∷ rest) p pool calls room = rw (copied c (omega arith)) (
        run_literal rest (p ++ c ∷ []) pool calls (omega (arith, length-append p (c ∷ [])))
        ∙ rw append_assoc)
      where
        copied :
            (c : ℕ)
            → length p + 1 < max_query
            → step sprintf rands escape max_query c
                (record (outside p pool calls) { escaped = true })
              ≡ ok (record (outside (p ++ c ∷ []) pool calls) { escaped = true })
        copied c h = unfold step put in ground arith

    pub run_slash :
        (p rest : Bytes) (pool : Dictionaries) (calls : ℕ)
        → run sprintf rands escape max_query (b'\\' ∷ rest) (outside p pool calls)
          ≡ run sprintf rands escape max_query rest
              (record (outside p pool calls) { escaped = true })
    unfolding run step plain_step
    run_slash p rest pool calls = refl

    pub expand_room :
        (ps : List Piece) (pool : Dictionaries) (calls : ℕ) (r : Expanded)
        → expand ps pool calls ≡ ok r
        → length r.query ≤ r.room
    unfolding expand
    expand_room [] pool calls r e =
        subst (λ r. length r.query ≤ r.room) (ok_injective e) (omega arith)
    expand_room (text c ∷ ps) pool calls r e =
        let (r', first, q) = >>=-eq-ok (expand ps pool calls) _ e in
        subst (λ r. length r.query ≤ r.room) (ok_injective q)
          (omega (arith, expand_room ps pool calls r' first))
    expand_room (var name sep ∷ ps) pool calls r e =
        let ((word, pool', calls'), found, e') =
          >>=-eq-ok (word_of sprintf rands name pool calls) _ e in
        let (r', first, q) = >>=-eq-ok (expand ps pool' calls') _ e' in
        subst (λ r. length r.query ≤ r.room) (ok_injective q)
          (omega (
            arith,
            expand_room ps pool' calls' r' first,
            escape_le word,
            length-append (escape word) (sep ∷ r'.query),
          ))
