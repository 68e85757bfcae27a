-- ===== src/Database/PgRuns.antt =====
-- What a `Pg_client` is asked for, and what becomes of its results.
use super_smack.Prelude.{
  ℕ, ◌≡◌, ◌≢◌, refl, sym, ap, Bool, true, false, some, List, [], ◌∷◌, ◌++◌, if◌then◌else◌, Bytes,
  Bool-cases, inl, inr,
}
use super_smack.Result.{
  >>=-Keeps, Result, ok, died, crashed, double_free, no_dump_file, ◌>>=◌, ok_injective,
}
use super_smack.Section.Created.{Login}
use super_smack.Database.{ResultSet, dump_text}
use super_smack.Database.Pg.{
  Libpq, PgClient, find, clear, result_at, lose_result, disconnect, do_connect, compare_result,
  safe_query, get_table_info, load_table_data, dump_result,
}
use super_smack.Database.PgOwned.{
  IsTidy, and_client, itself, IsSafe, clear_tidy, lose_result_tidy, disconnect-IsTidy,
  safe_query-IsSafe, CountsRows, not_good, find_first, table_info-IsSafe,
}

-- What a client of Postgres is asked to do: its methods other than `dump_result`; `check_error` has
-- no body in the program.
pub data Call : Type 0 where
  query : Bytes → Bool → Call
  lose : Call
  table_info : Bytes → Call
  load_data : Bytes → Bytes → Call
  leave : Call
  connect : Login → Call
  compare : Bytes → Call

module _ {ℓ} {Server : Type ℓ} (pq : Libpq Server) where
  load_data-IsSafe :
      (table_name data_file_name : Bytes) (w : PgClient Server)
      → IsTidy w
      → IsSafe itself (load_table_data pq table_name data_file_name w)
  unfolding load_table_data
  load_data-IsSafe table_name data_file_name w h =
      >>=-Keeps IsTidy (λ why. ⊥) and_client itself (safe_query pq _ true w) _
        (safe_query-IsSafe pq _ true w h)
        (λ (good, w1) e t.
          >>=-Keeps IsTidy (λ why. ⊥) and_client itself (safe_query pq _ true w1) _
            (safe_query-IsSafe pq _ true w1 t) (λ (granted, w2) e' t'. t'))

  do_connect-IsSafe :
      (login : Login) (w : PgClient Server) → IsTidy w → IsSafe itself (do_connect pq login w)
  unfolding do_connect
  do_connect-IsSafe login w h = elim (Bool-cases (pq.login login w.server).0) [
    | inl good ↦ rw good h
    | inr bad ↦ rw bad tt
  ]

  -- One call of a `Pg_client`.
  unfoldable pub perform : Call → PgClient Server → Result (PgClient Server)
  perform (query q abort_on_error) w = do (good, w1) ← safe_query pq q abort_on_error w; ok w1
  perform lose w = lose_result w
  perform (table_info name) w = do (num_rows, w1) ← get_table_info pq name w; ok w1
  perform (load_data table_name data_file_name) w = load_table_data pq table_name data_file_name w
  perform leave w = ok (disconnect w)
  perform (connect login) w = do_connect pq login w
  perform (compare cmp_file) w = compare_result cmp_file w

  unfoldable pub run : List Call → PgClient Server → Result (PgClient Server)
  run [] w = ok w
  run (call ∷ calls) w = do w1 ← perform call w; run calls w1

  perform-IsSafe :
      CountsRows pq
      → (call : Call) (w : PgClient Server) → IsTidy w
      → IsSafe itself (perform call w)
  unfolding perform compare_result
  perform-IsSafe counts (query q abort_on_error) w h =
      >>=-Keeps IsTidy (λ why. ⊥) and_client itself (safe_query pq q abort_on_error w) _
        (safe_query-IsSafe pq q abort_on_error w h) (λ (good, w1) e t. t)
  perform-IsSafe counts lose w h = rw (lose_result_tidy w h) tt
  perform-IsSafe counts (table_info name) w h =
      >>=-Keeps IsTidy (λ why. ⊥) and_client itself (get_table_info pq name w) _
        (table_info-IsSafe pq counts name w h) (λ (num_rows, w1) e t. t)
  perform-IsSafe counts (load_data table_name data_file_name) w h =
      load_data-IsSafe table_name data_file_name w h
  perform-IsSafe counts leave w h = disconnect-IsTidy w h
  perform-IsSafe counts (connect login) w h = do_connect-IsSafe login w h
  perform-IsSafe counts (compare cmp_file) w h = tt

  -- The calls of a `Pg_client` other than `dump_result` never clear a result twice, read one that
  -- is cleared or leave one behind that nothing leads to, whatever the server answers: from a
  -- client that is tidy, a run of them ends the process or comes back with a tidy client, if a
  -- query of the number of rows that succeeds has one row at least.
  pub run-IsSafe :
      CountsRows pq
      → (calls : List Call) (w : PgClient Server) → IsTidy w
      → IsSafe itself (run calls w)
  unfolding run
  run-IsSafe counts [] w h = h
  run-IsSafe counts (call ∷ calls) w h =
      >>=-Keeps IsTidy (λ why. ⊥) itself itself (perform call w) _ (perform-IsSafe counts call w h)
        (λ w1 e t. run-IsSafe counts calls w1 t)

  -- `dump_result` leaves `res` at the result it cleared: after a dump that came back with 0, of a
  -- client that was tidy and held a result, the next query clears it again.
  pub dump_then_query :
      (can_open : Bytes → Bool) (file : Bytes) (abort abort' : Bool) (q : Bytes)
      (w w1 : PgClient Server) (p : ℕ) (r : ResultSet)
      → w.res ≡ some p
      → w.live ≡ (p, r) ∷ []
      → dump_result can_open (some file) abort w ≡ ok (true, w1)
      → safe_query pq q abort' w1 ≡ crashed double_free
  unfolding dump_result safe_query clear find result_at
  dump_then_query can_open file abort abort' q w w1 p r e l d = elim (Bool-cases (can_open file)) [
    | inl opened ↦
        let same : ◌≡◌ {A = Result (Bool × PgClient Server)}
            (ok (true, record w { live = []; files = w.files ++ (some file, dump_text r) ∷ [] }))
            (ok (true, w1)) =
          rw (opened, result_at_held, clear_tidy w tidy) at d in
        rw (sym (ap and_client (ok_injective same)), e) refl
    | inr closed ↦ absurd (not_dumped abort (rw closed at d))
  ]
    where
      tidy : IsTidy w
      tidy = rw (e, l) refl

      result_at_held : result_at w ≡ ok r
      result_at_held = rw (e, l, find_first pq p r [], result_at) refl

      not_dumped :
          (abort : Bool)
          → ◌≢◌ {A = Result (Bool × PgClient Server)}
              (if abort then died no_dump_file else ok (false, w))
              (ok (true, w1))
      not_dumped true same = cc same
      not_dumped false same = not_good pq w w1 same
