-- ===== src/Database/Pg.antt =====
-- `Pg_client` of src/pg-client.h and src/pg-client.cc. A `PGresult` is a block of memory that the
-- library gives and `PQclear` takes back, so the model keeps the blocks that are live.
use super_smack.Prelude.{
  ℕ, suc, Bool, true, false, not, Option, none, some, List, [], ◌∷◌, ◌++◌, if◌then◌else◌, ◌==◌,
  Bytes, codes, c_str,
}
use super_smack.Prelude.Int.{ℤ, pos}
use super_smack.Prelude.Atoi.{atoi}
use super_smack.Result.{
  Result, ok, died, crashed, null_pointer, double_free, use_after_free, query_failed, no_dump_file,
  connect_failed, unsupported, ◌>>=◌,
}
use super_smack.Section.Created.{Login}
use super_smack.Database.{ResultSet, dump_text, Written, count_query}

-- What `PQexec` gives: a null pointer, or a result whose status is an error, or a good one.
pub data Answer : Type 0 where
  no_result : Answer
  failed succeeded : ResultSet → Answer

-- libpq, with the state of the server.
pub record Libpq {ℓ} (Server : Type ℓ) : Type ℓ where
  -- `PQsetdbLogin`, and whether `PQstatus` is good
  pub login : Login → Server → Bool × Server
  pub exec : Bytes → Server → Answer × Server

pub record PgClient {ℓ} (Server : Type ℓ) : Type ℓ where
  -- whether `con` is not null
  pub con : Bool
  pub res : Option ℕ
  -- the results that are not cleared, by their addresses
  pub live : List (ℕ × ResultSet)
  -- an address that was never used
  pub fresh : ℕ
  pub server : Server
  pub files : List Written

-- `Pg_client()`
abbrev pub new_pg {ℓ} : {Server : Type ℓ} → Server → PgClient Server
new_pg server = record {
  con = false;
  res = none;
  live = [];
  fresh = 0;
  server = server;
  files = [];
}

unfoldable pub find : ℕ → List (ℕ × ResultSet) → Option ResultSet
find p [] = none
find p ((q, r) ∷ live) = if q == p then some r else find p live

unfoldable pub remove : ℕ → List (ℕ × ResultSet) → List (ℕ × ResultSet)
remove p [] = []
remove p ((q, r) ∷ live) = if q == p then live else (q, r) ∷ remove p live

-- `PQgetvalue(res, 0, 0)`, and `atoi` of it.
unfoldable pub first_value : ResultSet → Result ℤ
first_value r = elim r.rows [
  | (some value ∷ row) ∷ rows ↦ ok (atoi (c_str value))
  -- the value of a NULL is an empty text
  | (none ∷ row) ∷ rows ↦ ok (pos 0)
  | _ ↦ crashed null_pointer
]

module _ {ℓ} {Server : Type ℓ} where
  -- `PQclear(res)`, which takes a null pointer too.
  unfoldable pub clear : PgClient Server → Result (PgClient Server)
  clear w = elim w.res [
    | none ↦ ok w
    | some p ↦ elim (find p w.live) [
      | none ↦ crashed double_free
      | some r ↦ ok (record w { live = remove p w.live })
    ]
  ]

  -- The result at `res`: libpq reads a null pointer as an empty one.
  unfoldable pub result_at : PgClient Server → Result ResultSet
  result_at w = elim w.res [
    | none ↦ ok (record { fields = []; rows = [] })
    | some p ↦ elim (find p w.live) [ none ↦ crashed use_after_free | some r ↦ ok r ]
  ]

  -- `Pg_client::lose_result`
  unfoldable pub lose_result : PgClient Server → Result (PgClient Server)
  lose_result w = do w' ← clear w; ok (record w' { res = none })

  -- A result that `PQexec` gave, at a fresh address.
  abbrev pub store : ResultSet → PgClient Server → PgClient Server
  store r w = record w { res = some w.fresh; live = (w.fresh, r) ∷ w.live; fresh = suc w.fresh }

  -- `Pg_client::disconnect`
  unfoldable pub disconnect : PgClient Server → PgClient Server
  disconnect w = if w.con then record w { con = false } else w

  -- The branch of `safe_query` for an error, with whether it returns 0.
  unfoldable pub on_error : Bool → PgClient Server → Result (Bool × PgClient Server)
  on_error abort_on_error w = do
    w' ← lose_result w
    if abort_on_error then died query_failed else ok (false, w')

  -- What `safe_query` does with the answer.
  unfoldable pub answered : Bool → Answer → PgClient Server → Result (Bool × PgClient Server)
  answered abort_on_error no_result w = on_error abort_on_error (record w { res = none })
  answered abort_on_error (failed r) w = on_error abort_on_error (store r w)
  answered abort_on_error (succeeded r) w = ok (true, store r w)

  -- The lines of `get_table_info` behind its query.
  unfoldable pub counted : PgClient Server → Result (Option ℤ × PgClient Server)
  counted w = do
    r ← result_at w
    num_rows ← first_value r
    w' ← lose_result w
    ok (some num_rows, w')

module _ {ℓ} {Server : Type ℓ} (pq : Libpq Server) where
  -- `PQexec(con, query)`; without a connection it gives a null pointer.
  unfoldable pub exec_on : Bytes → PgClient Server → Answer × PgClient Server
  exec_on query w =
      if w.con
      then (let (answer, server) = pq.exec query w.server in (answer, record w { server = server }))
      else (no_result, w)

  -- `Pg_client::safe_query`, with whether it returns 0.
  unfoldable pub safe_query : Bytes → Bool → PgClient Server → Result (Bool × PgClient Server)
  safe_query query abort_on_error w = do
    w1 ← clear w
    let (answer, w2) = exec_on query w1
    answered abort_on_error answer w2

  -- `Pg_client::do_connect`, which leaves by `exit(1)` where it fails: an end like that of `die`.
  unfoldable pub do_connect : Login → PgClient Server → Result (PgClient Server)
  do_connect login w =
      let (good, server) = pq.login login w.server in
      if good then ok (record w { con = true; server = server }) else died connect_failed

  -- `Pg_client::get_table_info`: `none` for its result 1, else `num_rows`.
  unfoldable pub get_table_info : Bytes → PgClient Server → Result (Option ℤ × PgClient Server)
  get_table_info name w = do
    (good, w1) ← safe_query (c_str (count_query name)) false w
    if not good then ok (none, w1) else counted w1

  -- `Pg_client::load_table_data`
  unfoldable pub load_table_data : Bytes → Bytes → PgClient Server → Result (PgClient Server)
  load_table_data table_name data_file_name w = do
    (good, w1) ←
        safe_query
          (c_str (
            codes "copy "
            ++ table_name
            ++ codes " from '"
            ++ data_file_name
            ++ codes "' delimiters ',' "))
          true w
    (granted, w2) ←
        safe_query (c_str (codes "grant all on " ++ table_name ++ codes " to public")) true w1
    ok w2

-- `Pg_client::compare_result`
unfoldable pub compare_result {ℓ} :
    {Server : Type ℓ} → Bytes → PgClient Server → Result (PgClient Server)
compare_result cmp_file w = died unsupported

module _ {ℓ} {Server : Type ℓ} (can_open : Bytes → Bool) where
  -- `Pg_client::dump_result`, with whether it returns 0. With no file the stream is never opened,
  -- and what is put into it is lost. `res` is left as it was.
  unfoldable pub dump_result :
      Option Bytes → Bool → PgClient Server → Result (Bool × PgClient Server)
  dump_result none abort_on_error w = do r ← result_at w; w' ← clear w; ok (true, w')
  dump_result (some dump_file) abort_on_error w =
      if not (can_open dump_file)
      then (if abort_on_error then died no_dump_file else ok (false, w))
      else (do
        r ← result_at w
        w' ← clear w
        ok (true, record w' { files = w'.files ++ (some dump_file, dump_text r) ∷ [] }))
