-- ===== src/Database/PgOwned.antt =====
-- The results that a `Pg_client` holds: the one at `res`, or none, as long as nothing is dumped.
use super_smack.Prelude.{
  ℕ, ◌≡◌, ◌≢◌, refl, sym, ap, ◌∙◌, Bool, true, false, not, Option, none, some, List, [], ◌∷◌,
  if◌then◌else◌, Bytes, c_str, arith, Bool-cases, inl, inr,
}
use super_smack.Prelude.Int.{ℤ}
use super_smack.Result.{Keeps, >>=-Keeps, Result, ok, >>=-eq-ok, ok_injective}
use super_smack.Database.{ResultSet, count_query}
use super_smack.Database.Pg.{
  Answer, no_result, failed, succeeded, Libpq, PgClient, find, remove, clear, result_at,
  lose_result, store, disconnect, on_error, answered, counted, first_value, exec_on, safe_query,
  get_table_info,
}

-- `res` leads to the one result that is live, or is null and none is.
abbrev pub IsOwned : Option ℕ → List (ℕ × ResultSet) → Type 0
IsOwned none [] = Unit
IsOwned (some p) ((q, r) ∷ []) = p ≡ q
IsOwned _ _ = ⊥

module _ {ℓ} {Server : Type ℓ} where
  abbrev pub IsTidy : PgClient Server → Type 0
  IsTidy w = IsOwned w.res w.live

  abbrev pub and_client {κ} : {A : Type κ} → A × PgClient Server → PgClient Server
  and_client (a, w) = w

  abbrev pub itself : PgClient Server → PgClient Server
  itself w = w

  -- A call that does not fault, and after which the client is tidy again if it comes back.
  abbrev pub IsSafe {κ} : {A : Type κ} → (A → PgClient Server) → Result A → Type 0
  IsSafe client call = Keeps IsTidy (λ why. ⊥) client call

  -- `PQclear(res)` takes back the one result.
  pub clear_tidy : (w : PgClient Server) → IsTidy w → clear w ≡ ok (record w { live = [] })
  unfolding clear find remove
  clear_tidy w h = clear_at w w.res w.live h
    where
      clear_at :
          (w : PgClient Server) (res : Option ℕ) (live : List (ℕ × ResultSet))
          → IsOwned res live
          → clear (record w { res = res; live = live }) ≡ ok (record w { res = res; live = [] })
      clear_at w none [] h = refl
      clear_at w none (r ∷ live) h = absurd h
      clear_at w (some p) [] h = absurd h
      clear_at w (some p) (r ∷ s ∷ live) h = absurd h
      clear_at w (some p) ((q, r) ∷ []) h = ground (arith, h)

  pub lose_result_tidy :
      (w : PgClient Server) → IsTidy w → lose_result w ≡ ok (record w { live = []; res = none })
  unfolding lose_result
  lose_result_tidy w h = rw (clear_tidy w h) refl

  on_error-IsSafe :
      (abort_on_error : Bool) (w : PgClient Server)
      → IsTidy w
      → IsSafe and_client (on_error abort_on_error w)
  unfolding on_error
  on_error-IsSafe true w h = rw (lose_result_tidy w h) tt
  on_error-IsSafe false w h = rw (lose_result_tidy w h) tt

  answered-IsSafe :
      (abort_on_error : Bool) (a : Answer) (w : PgClient Server)
      → w.live ≡ []
      → IsSafe and_client (answered abort_on_error a w)
  unfolding answered
  answered-IsSafe abort_on_error no_result w e =
      on_error-IsSafe abort_on_error (record w { res = none }) (rw e tt)
  answered-IsSafe abort_on_error (failed r) w e =
      on_error-IsSafe abort_on_error (store r w) (rw e refl)
  answered-IsSafe abort_on_error (succeeded r) w e = rw e refl

  pub disconnect-IsTidy : (w : PgClient Server) → IsTidy w → IsTidy (disconnect w)
  unfolding disconnect
  disconnect-IsTidy w h = elim (Bool-cases w.con) [ inl c ↦ rw c h | inr c ↦ rw c h ]

  counted-IsSafe :
      (w : PgClient Server) (r : ResultSet) (n : ℤ)
      → IsTidy w
      → result_at w ≡ ok r
      → first_value r ≡ ok n
      → IsSafe and_client (counted w)
  unfolding counted
  counted-IsSafe w r n h e f = rw (e, f, lose_result_tidy w h) tt

module _ {ℓ} {Server : Type ℓ} (pq : Libpq Server) where
  exec_on-live : (q : Bytes) (w : PgClient Server) → (exec_on pq q w).1.live ≡ w.live
  unfolding exec_on
  exec_on-live q w = elim (Bool-cases w.con) [ inl c ↦ rw c refl | inr c ↦ rw c refl ]

  safe_query-eq :
      (q : Bytes) (abort_on_error : Bool) (w : PgClient Server)
      → IsTidy w
      → safe_query pq q abort_on_error w
        ≡ answered abort_on_error
            (exec_on pq q (record w { live = [] })).0
            (exec_on pq q (record w { live = [] })).1
  unfolding safe_query
  safe_query-eq q abort_on_error w h = rw (clear_tidy w h) refl

  pub safe_query-IsSafe :
      (q : Bytes) (abort_on_error : Bool) (w : PgClient Server)
      → IsTidy w
      → IsSafe and_client (safe_query pq q abort_on_error w)
  safe_query-IsSafe q abort_on_error w h = rw (safe_query-eq q abort_on_error w h) (
      answered-IsSafe abort_on_error (exec_on pq q (record w { live = [] })).0 _
        (exec_on-live q (record w { live = [] })))

  -- A query of the rows of a table that succeeds gives one row at least.
  abbrev pub CountsRows : Type ℓ
  CountsRows =
      (name : Bytes) (server : Server) (r : ResultSet)
      → (pq.exec (c_str (count_query name)) server).0 ≡ succeeded r
      → (n : ℤ) × (first_value r ≡ ok n)

  pub not_good :
      (w w1 : PgClient Server)
      → ◌≢◌ {A = Result (Bool × PgClient Server)} (ok (false, w)) (ok (true, w1))
  not_good w w1 e = cc (ap (λ (x : Bool × PgClient Server). x.0) (ok_injective e))

  pub find_first :
      (p : ℕ) (r : ResultSet) (live : List (ℕ × ResultSet)) → find p ((p, r) ∷ live) ≡ some r
  unfolding find
  find_first p r live = ground (arith)

  -- The one that succeeded is at `res`.
  answered_result :
      (a : Answer) (w w1 : PgClient Server)
      → answered false a w ≡ ok (true, w1)
      → (r : ResultSet) × (a ≡ succeeded r) × (result_at w1 ≡ ok r)
  unfolding answered result_at find on_error
  answered_result no_result w w1 e =
      let (w2, f, g) = >>=-eq-ok (lose_result (record w { res = none })) _ e in
      absurd (not_good w2 w1 g)
  answered_result (failed r) w w1 e =
      let (w2, f, g) = >>=-eq-ok (lose_result (store r w)) _ e in absurd (not_good w2 w1 g)
  answered_result (succeeded r) w w1 e =
      rw (sym (ap (λ (x : Bool × PgClient Server). x.1) (ok_injective e)))
        (r, refl, rw (find_first w.fresh r w.live, result_at) refl)

  exec_on_succeeded :
      (q : Bytes) (w : PgClient Server) (r : ResultSet)
      → (exec_on pq q w).0 ≡ succeeded r
      → (pq.exec q w.server).0 ≡ succeeded r
  unfolding exec_on
  exec_on_succeeded q w r e = elim (Bool-cases w.con) [ inl c ↦ rw c at e | inr c ↦ cc (rw c at e) ]

  pub table_info-IsSafe :
      CountsRows
      → (name : Bytes) (w : PgClient Server) → IsTidy w
      → IsSafe and_client (get_table_info pq name w)
  unfolding get_table_info
  table_info-IsSafe counts name w h =
      >>=-Keeps IsTidy (λ why. ⊥) and_client and_client
        (safe_query pq (c_str (count_query name)) false w) _
        (safe_query-IsSafe (c_str (count_query name)) false w h)
        (λ (good, w1) e t. behind good w1 e t)
    where
      behind :
          (good : Bool) (w1 : PgClient Server)
          → safe_query pq (c_str (count_query name)) false w ≡ ok (good, w1)
          → IsTidy w1
          → IsSafe and_client (if not good then ok (none, w1) else counted w1)
      behind false w1 e t = t
      behind true w1 e t =
          let (r, a, at) =
            answered_result _ _ w1 (sym (safe_query-eq (c_str (count_query name)) false w h) ∙ e) in
          let (n, v) = counts name w.server r (exec_on_succeeded _ _ r a) in
          counted-IsSafe w1 r n t at v
