-- ===== src/Database/MysqlFreed.antt =====
-- The results that a `Mysql_client` stores are freed by the call that stored them.
use super_smack.Prelude.{
  suc, ◌-◌, ◌≡◌, refl, Bool, true, false, not, Option, none, some, List, [], ◌∷◌, ◌++◌,
  if◌then◌else◌, Bytes, c_str, arith,
}
use super_smack.Prelude.Int.{ℤ, pos, eq_ℤ}
use super_smack.Result.{query_failed, no_dump_file, no_result, Result, ok, died, crashed, ◌>>=◌}
use super_smack.Database.{ResultSet, count_query}
use super_smack.Database.Mysql.{
  Libmysql, MysqlClient, count_of, count_rows, check_error, safe_query, store, lose_result,
  get_table_info, write_result, is_open, compare_result, dump_result,
}

module _ {ℓ} {Server : Type ℓ} where
  -- After a call that comes back as many results are live as before it.
  abbrev pub IsFreed {κ} :
      {A : Type κ} → MysqlClient Server → Result (A × MysqlClient Server) → Type 0
  IsFreed w (ok (a, w1)) = w1.live ≡ w.live
  IsFreed w (died why) = Unit
  IsFreed w (crashed why) = Unit

  if-IsFreed {κ} :
      {A : Type κ} (w : MysqlClient Server) (b : Bool) (x y : Result (A × MysqlClient Server))
      → IsFreed w x
      → IsFreed w y
      → IsFreed w (if b then x else y)
  if-IsFreed w true x y hx hy = hx
  if-IsFreed w false x y hx hy = hy

  count_rows-IsFreed :
      (r : ResultSet) (w w' : MysqlClient Server)
      → w.live ≡ suc w'.live
      → IsFreed w' (count_rows r w)
  unfolding count_rows
  count_rows-IsFreed r w w' h = rows_freed r.rows
    where
      count_freed :
          (c : Result ℤ) → IsFreed w' (c >>= (λ n. ok (some n, record w { live = w.live - 1 })))
      count_freed (ok n) = omega arith
      count_freed (died why) = tt
      count_freed (crashed why) = tt

      rows_freed :
          (rows : List (List (Option Bytes))) → IsFreed w' (count_rows (record r { rows = rows }) w)
      rows_freed [] = tt
      rows_freed (row ∷ rows) = count_freed (count_of row)

module _ {ℓ} {Server : Type ℓ} (my : Libmysql Server) where
  check_error-IsFreed :
      (fatal : Bool) (w w' : MysqlClient Server)
      → w.live ≡ w'.live
      → IsFreed w' (check_error my fatal w)
  unfolding check_error
  check_error-IsFreed fatal w w' h =
      if-IsFreed w' (eq_ℤ (my.errno w.server) (pos 0)) _ _ h
        (if-IsFreed w' fatal (died query_failed) _ tt h)

  safe_query-IsFreed :
      (q : Bytes) (abort_on_error : Bool) (w : MysqlClient Server)
      → IsFreed w (safe_query my q abort_on_error w)
  unfolding safe_query
  safe_query-IsFreed q abort_on_error w =
      if-IsFreed w (my.send q w.server).0 _ _ refl
        (if-IsFreed w abort_on_error (died query_failed) _ tt refl)

  -- `lose_result` frees what it stores.
  pub lose_result-live : (w : MysqlClient Server) → (lose_result my w).live ≡ w.live
  unfolding lose_result store
  lose_result-live w = lost (my.store_result w.server).0 (my.store_result w.server).1
    where
      lost :
          (result : Option ResultSet) (server : Server)
          → (lose_result (record my { store_result = λ s. (result, server) }) w).live ≡ w.live
      lost none server = refl
      lost (some r) server = omega arith

  write_result-IsFreed :
      (target : Option Bytes) (abort_on_error : Bool) (w : MysqlClient Server)
      → IsFreed w (write_result my target abort_on_error w)
  unfolding write_result store check_error
  write_result-IsFreed target abort_on_error w =
      written (my.store_result w.server).0 (my.store_result w.server).1
    where
      written :
          (result : Option ResultSet) (server : Server)
          → IsFreed w (
              write_result
                (record my { store_result = λ s. (result, server) })
                target
                abort_on_error
                w)
      written none server =
          check_error-IsFreed abort_on_error
            (record w { server = server; files = w.files ++ (target, []) ∷ [] }) w refl
      written (some r) server = omega arith

  -- So does `compare_result`.
  pub compare_result-IsFreed :
      (can_open : Bytes → Bool) (cmp_file : Bytes) (abort_on_error : Bool) (w : MysqlClient Server)
      → IsFreed w (compare_result my can_open cmp_file abort_on_error w)
  unfolding compare_result
  compare_result-IsFreed can_open cmp_file abort_on_error w =
      if-IsFreed w (can_open cmp_file) _ _ (write_result-IsFreed (some cmp_file) abort_on_error w)
        (if-IsFreed w abort_on_error (died no_dump_file) _ tt refl)

  -- So does `dump_result`.
  pub dump_result-IsFreed :
      (can_open : Bytes → Bool) (dump_file : Option Bytes) (abort_on_error : Bool)
      (w : MysqlClient Server)
      → IsFreed w (dump_result my can_open dump_file abort_on_error w)
  unfolding dump_result store is_open check_error
  dump_result-IsFreed can_open none abort_on_error w =
      dumped (my.store_result w.server).0 (my.store_result w.server).1
    where
      dumped :
          (result : Option ResultSet) (server : Server)
          → IsFreed w (
              dump_result
                (record my { store_result = λ s. (result, server) })
                can_open
                none
                abort_on_error
                w)
      dumped none server =
          check_error-IsFreed abort_on_error
            (record w { server = server; files = w.files ++ (none, []) ∷ [] }) w refl
      dumped (some r) server = omega arith
  dump_result-IsFreed can_open (some file) abort_on_error w =
      dumped (my.store_result w.server).0 (my.store_result w.server).1
    where
      dumped :
          (result : Option ResultSet) (server : Server)
          → IsFreed w (
              dump_result
                (record my { store_result = λ s. (result, server) })
                can_open
                (some file)
                abort_on_error
                w)
      dumped none server =
          if-IsFreed w (can_open file) _ _
            (check_error-IsFreed abort_on_error
              (record w {
                server = server;
                streams = suc w.streams;
                files = w.files ++ (some file, []) ∷ [];
              })
              w refl)
            (if-IsFreed w abort_on_error (died no_dump_file) _ tt refl)
      dumped (some r) server =
          if-IsFreed w (can_open file) _ _ (omega arith)
            (if-IsFreed w abort_on_error (died no_dump_file) _ tt refl)

  -- So does `get_table_info`, where it comes back.
  pub get_table_info-IsFreed :
      (name : Bytes) (w : MysqlClient Server) → IsFreed w (get_table_info my name w)
  unfolding get_table_info store
  get_table_info-IsFreed name w =
      asked (safe_query my (c_str (count_query name)) false w)
        (safe_query-IsFreed (c_str (count_query name)) false w)
    where
      stored :
          (w1 : MysqlClient Server) (o : Option ResultSet)
          → w1.live ≡ w.live
          → (my.store_result w1.server).0 ≡ o
          → IsFreed w (elim (store my w1).0 [
            | none ↦ died no_result
            | some r ↦ count_rows r (store my w1).1
          ])
      stored w1 none h e = rw (e, IsFreed) tt
      stored w1 (some r) h e = rw (e, IsFreed) (count_rows-IsFreed r _ w (rw (e, h) refl))

      asked :
          (c : Result (Bool × MysqlClient Server))
          → IsFreed w c
          → IsFreed w (
              c >>= (λ (good, w1). if not good then ok (none, w1) else elim (store my w1).0 [
                | none ↦ died no_result
                | some r ↦ count_rows r (store my w1).1
              ]))
      asked (ok (good, w1)) h =
          if-IsFreed w (not good) _ _ h (stored w1 (my.store_result w1.server).0 h refl)
      asked (died why) h = tt
      asked (crashed why) h = tt
