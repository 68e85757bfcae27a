-- ===== src/Section/Tables/Statements.antt =====
-- The calls of its client that `validate_table` makes, with what they tell the database.
use super_smack.Prelude.{
  ◌≡◌, refl, sym, ap, ◌∙◌, true, Option, none, some, List, [], ◌∷◌, ◌++◌, append-nil, append_assoc,
  if◌then◌else◌, Bytes, codes, c_str, Bool-cases, inl, inr,
}
use super_smack.Prelude.Int.{ℤ, ltb_ℤ}
use super_smack.Prelude.Atoi.{atoi}
use super_smack.Result.{Result, ok, ◌>>=◌, >>=-eq-ok, ok_injective}
use super_smack.Path.{mk_data_path, path_text, populate_data_file}
use super_smack.Section.{TableDef}
use super_smack.Section.Tables.{
  Calls, checks_of, ensure_file, drop_table, create_table, renew, validate_table,
}

-- A call of the client, `do_connect`, `get_table_info`, `safe_query`, `load_table_data` or
-- `disconnect`.
pub data ClientCall : Type 0 where
  connect_call disconnect_call : ClientCall
  info_call query_call : Bytes → ClientCall
  load_call : Bytes → Bytes → ClientCall

-- A world with a log, which any step of the world leaves as it is.
unfoldable pub beside {ℓ} :
    {World : Type ℓ} → List ClientCall → Result World → Result (World × List ClientCall)
beside log r = do w ← r; ok (w, log)

-- The same calls, with each of the client that comes back in a log.
unfoldable pub logged {ℓ} : {World : Type ℓ} → Calls World → Calls (World × List ClientCall)
unfolding beside
logged calls = record {
  connect = λ (w, log). beside (log ++ connect_call ∷ []) (calls.connect w);
  get_table_info = λ name (w, log). (do
    (info, w') ← calls.get_table_info name w
    ok (info, (w', log ++ info_call name ∷ [])));
  safe_query = λ query (w, log). beside (log ++ query_call query ∷ []) (calls.safe_query query w);
  load_table_data = λ name file (w, log).
      beside (log ++ load_call name file ∷ []) (calls.load_table_data name file w);
  disconnect = λ (w, log). beside (log ++ disconnect_call ∷ []) (calls.disconnect w);
  has_file = λ file (w, log). calls.has_file file w;
  system = λ cmd (w, log). ((calls.system cmd w).0, ((calls.system cmd w).1, log));
}

module _ (datadir : Option Bytes) where
  -- The table is created, and loaded from the file of its data.
  unfoldable pub creation : TableDef → Bytes → Result (List ClientCall)
  creation def name = do
    path ← mk_data_path datadir (c_str def.data_file)
    file ← path_text path
    ok (query_call (c_str def.create_st) ∷ load_call name file ∷ [])

  -- What should be asked of a database with this table or none: nothing if the table has enough
  -- rows, else its creation, behind its removal if it is there.
  unfoldable pub statements : Option ℤ → TableDef → Bytes → Result (List ClientCall)
  statements none def name = creation def name
  statements (some num_rows) def name =
      if ltb_ℤ num_rows (atoi (c_str def.min_rows))
      then (do
        calls ← creation def name
        ok (query_call (c_str (codes "drop table " ++ name)) ∷ calls))
      else ok []

  -- That, between the connection with the question of the rows, and the end of the connection.
  unfoldable pub validation : Option ℤ → TableDef → Bytes → Result (List ClientCall)
  validation info def name = do
    calls ← statements info def name
    ok (connect_call ∷ info_call name ∷ (calls ++ disconnect_call ∷ []))

abbrev log_of {ℓ} : {World : Type ℓ} → World × List ClientCall → List ClientCall
log_of s = s.1

module _ {ℓ} {World : Type ℓ} (datadir : Option Bytes) (calls : Calls World) where
  beside-log :
      (log : List ClientCall) (r : Result World) {s : World × List ClientCall}
      → beside log r ≡ ok s
      → s.1 ≡ log
  unfolding beside
  beside-log log r e = let (w, _, q) = >>=-eq-ok r _ e in ap log_of (sym (ok_injective q))

  ensure_file-log :
      (file cmd : Bytes) (s : World × List ClientCall) {t : World × List ClientCall}
      → ensure_file datadir (logged calls) file cmd s ≡ ok t
      → t.1 ≡ s.1
  unfolding ensure_file logged
  ensure_file-log file cmd (w, log) e = elim (Bool-cases (calls.has_file file w)) [
    | inl there ↦ ap log_of (sym (ok_injective (rw (there, ensure_file) at e)))
    | inr missing ↦ elim (Bool-cases (calls.system (c_str (populate_data_file file cmd)) w).0) [
      | inl fine ↦ ap log_of (sym (ok_injective (rw (missing, fine, ensure_file) at e)))
      | inr bad ↦ cc (rw (missing, bad, ensure_file) at e)
    ]
  ]

  -- The calls that a step has made, and that they are the ones that it should make.
  abbrev Makes : Result (List ClientCall) → List ClientCall → List ClientCall → Type 0
  Makes expected before after = (m : List ClientCall) × (expected ≡ ok m) × (after ≡ before ++ m)

  create_table-log :
      (def : TableDef) (name : Bytes) (s : World × List ClientCall) {t : World × List ClientCall}
      → create_table datadir (logged calls) def name s ≡ ok t
      → Makes (creation datadir def name) s.1 t.1
  unfolding create_table logged creation
  create_table-log def name (w, log) e =
      let (path, p, e1) = >>=-eq-ok (mk_data_path datadir (c_str def.data_file)) _ e in
      let (s1, queried, e2) =
        >>=-eq-ok
          (beside (log ++ query_call (c_str def.create_st) ∷ [])
            (calls.safe_query (c_str def.create_st) w))
          _ e1 in
      let (file, f, e3) = >>=-eq-ok (path_text path) _ e2 in
      let (s2, made, e4) =
        >>=-eq-ok (ensure_file datadir (logged calls) file (c_str def.gen_data_file) s1) _ e3 in
      (
        query_call (c_str def.create_st) ∷ load_call name file ∷ [],
        rw (p, creation) (rw f refl),
        beside-log (s2.1 ++ load_call name file ∷ []) _ e4
            ∙ ap (λ l. l ++ load_call name file ∷ [])
                (ensure_file-log file (c_str def.gen_data_file) s1 made
                  ∙ beside-log (log ++ query_call (c_str def.create_st) ∷ []) _ queried)
            ∙ append_assoc log _ _,
      )

  drop_table-log :
      (name : Bytes) (s : World × List ClientCall) {t : World × List ClientCall}
      → drop_table datadir (logged calls) name s ≡ ok t
      → t.1 ≡ s.1 ++ query_call (c_str (codes "drop table " ++ name)) ∷ []
  unfolding drop_table logged
  drop_table-log name (w, log) e = beside-log _ _ e

  renew-log :
      (info : Option ℤ) (def : TableDef) (name : Bytes) (s : World × List ClientCall)
      {t : World × List ClientCall}
      → renew datadir (logged calls) def name (checks_of info (atoi (c_str def.min_rows))) s ≡ ok t
      → Makes (statements datadir info def name) s.1 t.1
  unfolding renew checks_of statements
  renew-log none def name s e = create_table-log def name s e
  renew-log (some rows) def name s e = elim (Bool-cases (ltb_ℤ rows (atoi (c_str def.min_rows)))) [
    | inl small ↦
        let (s1, dropped, e1) =
          >>=-eq-ok (drop_table datadir (logged calls) name s) _
            (rw (small, renew, checks_of) at e) in
        let (m, expected, made) = create_table-log def name s1 e1 in
        (
          query_call (c_str (codes "drop table " ++ name)) ∷ m,
          rw (small, statements) (rw expected refl),
          made ∙ ap (λ l. l ++ m) (drop_table-log name s dropped) ∙ append_assoc s.1 _ _,
        )
    | inr large ↦ (
      [],
      rw (large, statements) refl,
      ap log_of (sym (ok_injective (rw (large, renew, checks_of) at e))) ∙ sym (append-nil s.1),
    )
  ]

  -- Where `validate_table` succeeds on a database that has the table with some number of rows, or
  -- does not have it, the calls of the client that it has made are exactly these, in order: the
  -- connection, the question of the rows, then nothing if there are enough rows, the creation and
  -- the loading of the data if there is no table, the removal and then these two if there are too
  -- few rows, and the end of the connection.
  pub validate_table-statements :
      (info : Option ℤ) (def : TableDef) (name : Bytes) (w w1 w2 : World) (log : List ClientCall)
      {t : World × List ClientCall}
      → calls.connect w ≡ ok w1
      → calls.get_table_info name w1 ≡ ok (info, w2)
      → validate_table datadir (logged calls) true def name (w, log) ≡ ok t
      → (m : List ClientCall) × (validation datadir info def name ≡ ok m) × (t.1 ≡ log ++ m)
  unfolding validate_table logged beside validation
  validate_table-statements info def name w w1 w2 log c i e =
      let asked : List ClientCall = log ++ connect_call ∷ [] ++ info_call name ∷ [] in
      let (s3, renewed, e3) =
        >>=-eq-ok
          (renew datadir (logged calls) def name (checks_of info (atoi (c_str def.min_rows)))
            (w2, asked))
          _ (rw (c, i, validate_table) at e) in
      let (m, expected, made) = renew-log info def name (w2, asked) renewed in
      (
        connect_call ∷ info_call name ∷ (m ++ disconnect_call ∷ []),
        rw expected refl,
        beside-log (s3.1 ++ disconnect_call ∷ []) _ e3
            ∙ ap (λ l. l ++ disconnect_call ∷ []) made
            ∙ around log m,
      )
    where
      around :
          (log m : List ClientCall)
          → log ++ connect_call ∷ [] ++ info_call name ∷ [] ++ m ++ disconnect_call ∷ []
            ≡ log ++ connect_call ∷ info_call name ∷ (m ++ disconnect_call ∷ [])
      around [] m = refl
      around (x ∷ log) m = ap (λ l. x ∷ l) (around log m)
