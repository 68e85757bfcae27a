-- ===== src/Database/Mysql.antt =====
-- `Mysql_client` of src/mysql-client.h and src/mysql-client.cc. Its results are local to a call, so
-- the model counts the ones that are not freed, and the streams that are not deleted.
use super_smack.Prelude.{
  ℕ, suc, ◌-◌, Bool, true, false, not, Option, none, some, List, [], ◌∷◌, ◌++◌, if◌then◌else◌,
  Bytes, codes, c_str,
}
use super_smack.Prelude.Int.{ℤ, pos, negsuc, eq_ℤ}
use super_smack.Prelude.Atoi.{atoi}
use super_smack.Result.{
  Result, ok, died, crashed, null_pointer, query_failed, no_dump_file, no_result, ◌>>=◌,
}
use super_smack.Section.Created.{Login}
use super_smack.Database.{ResultSet, dump_text, Written, count_query}

-- libmysqlclient, with the state of the connection and the server.
pub record Libmysql {ℓ} (Server : Type ℓ) : Type ℓ where
  -- `mysql_real_connect`, with the port as a number; the socket is `none` for a null pointer
  pub login : Login → ℤ → Option Bytes → Server → Server
  pub errno : Server → ℤ
  -- `mysql_query`, and whether it returns 0
  pub send : Bytes → Server → Bool × Server
  -- `mysql_store_result`, with all its rows, or a null pointer
  pub store_result : Server → Option ResultSet × Server
  pub close : Server → Server

pub record MysqlClient {ℓ} (Server : Type ℓ) : Type ℓ where
  pub connected : Bool
  -- how many results are not freed, and how many streams of `new` are not deleted
  pub live : ℕ
  pub streams : ℕ
  pub server : Server
  -- what was opened for writing, with what was written
  pub files : List Written

-- `row[0]` of the first row, and `atoi` of it.
unfoldable pub count_of : List (Option Bytes) → Result ℤ
count_of (some value ∷ row) = ok (atoi (c_str value))
count_of _ = crashed null_pointer

-- `socket.length() ? socket.c_str() : 0`
abbrev pub socket_of : Bytes → Option Bytes
socket_of [] = none
socket_of (c ∷ socket) = some (c ∷ socket)

module _ {ℓ} {Server : Type ℓ} where
  -- `mysql_free_result`
  abbrev pub free : MysqlClient Server → MysqlClient Server
  free w = record w { live = w.live - 1 }

  abbrev pub delete_stream : Option Bytes → MysqlClient Server → MysqlClient Server
  delete_stream none w = w
  delete_stream (some dump_file) w = record w { streams = w.streams - 1 }

  abbrev pub new_stream : Option Bytes → MysqlClient Server → MysqlClient Server
  new_stream none w = w
  new_stream (some dump_file) w = record w { streams = suc w.streams }

  abbrev pub write : Option Bytes → Bytes → MysqlClient Server → MysqlClient Server
  write target text w = record w { files = w.files ++ (target, text) ∷ [] }

  -- The lines of `get_table_info` behind `mysql_store_result`.
  unfoldable pub count_rows :
      ResultSet → MysqlClient Server → Result (Option ℤ × MysqlClient Server)
  count_rows r w = elim r.rows [
    | [] ↦ died no_result
    | row ∷ rows ↦ do num_rows ← count_of row; ok (some num_rows, free w)
  ]

module _ {ℓ} {Server : Type ℓ} (my : Libmysql Server) where
  -- `Mysql_client::check_error`, with its result
  unfoldable pub check_error : Bool → MysqlClient Server → Result (ℤ × MysqlClient Server)
  check_error fatal w =
      let error = my.errno w.server in
      if eq_ℤ error (pos 0)
      then ok (error, w)
      else (if fatal then died query_failed else ok (error, w))

  -- `Mysql_client::do_connect`
  unfoldable pub do_connect : Login → MysqlClient Server → Result (MysqlClient Server)
  do_connect login w = do
    let server = my.login login (atoi (c_str login.port)) (socket_of (c_str login.socket)) w.server
    (error, w1) ← check_error true (record w { server = server })
    ok w1

  -- `Mysql_client::safe_query`, with whether it returns 0
  unfoldable pub safe_query : Bytes → Bool → MysqlClient Server → Result (Bool × MysqlClient Server)
  safe_query query abort_on_error w =
      let (good, server) = my.send query w.server in
      let w1 = record w { server = server } in
      if good then ok (true, w1) else (if abort_on_error then died query_failed else ok (false, w1))

  -- `mysql_store_result(&con)`
  unfoldable pub store : MysqlClient Server → Option ResultSet × MysqlClient Server
  store w =
      let (result, server) = my.store_result w.server in
      (
        result,
        record w { live = elim result [ none ↦ w.live | some r ↦ suc w.live ]; server = server },
      )

  -- `Mysql_client::lose_result`
  unfoldable pub lose_result : MysqlClient Server → MysqlClient Server
  lose_result w = let (result, w1) = store w in elim result [ none ↦ w1 | some r ↦ free w1 ]

  -- `Mysql_client::get_table_info`: `none` for its result 1, else `num_rows`.
  unfoldable pub get_table_info :
      Bytes → MysqlClient Server → Result (Option ℤ × MysqlClient Server)
  get_table_info name w = do
    (good, w1) ← safe_query (c_str (count_query name)) false w
    let (result, w2) = store w1
    if not good
        then ok (none, w1)
        else elim result [ none ↦ died no_result | some r ↦ count_rows r w2 ]

  -- `Mysql_client::load_table_data`
  unfoldable pub load_table_data : Bytes → Bytes → MysqlClient Server → Result (MysqlClient Server)
  load_table_data table_name data_file_name w = do
    let query = codes "load data infile '" ++ data_file_name ++ codes "' into table " ++ table_name
    (good, w1) ← safe_query (c_str (query ++ codes " fields terminated by ','")) true w
    ok w1

  -- What `compare_result` and `dump_result` do with a stream that is open.
  unfoldable pub write_result :
      Option Bytes → Bool → MysqlClient Server → Result (ℤ × MysqlClient Server)
  write_result target abort_on_error w =
      let (result, w1) = store w in
      elim result [
        | none ↦ check_error abort_on_error (write target [] w1)
        | some r ↦ ok (pos 0, free (write target (dump_text r) w1))
      ]

  -- `Mysql_client::disconnect`
  unfoldable pub disconnect : MysqlClient Server → MysqlClient Server
  disconnect w =
      if w.connected then record w { connected = false; server = my.close w.server } else w

  -- `can_open`: whether a file can be opened for writing.
  module _ (can_open : Bytes → Bool) where
    unfoldable pub is_open : Option Bytes → Bool
    is_open none = true
    is_open (some dump_file) = can_open dump_file

    -- `Mysql_client::compare_result`, which empties the file and writes the result to it.
    unfoldable pub compare_result :
        Bytes → Bool → MysqlClient Server → Result (ℤ × MysqlClient Server)
    compare_result cmp_file abort_on_error w =
        if can_open cmp_file
        then write_result (some cmp_file) abort_on_error w
        else (if abort_on_error then died no_dump_file else ok (negsuc 0, w))

    -- `Mysql_client::dump_result`, with its result. Where there is no result to store, the stream
    -- is not deleted.
    unfoldable pub dump_result :
        Option Bytes → Bool → MysqlClient Server → Result (ℤ × MysqlClient Server)
    dump_result dump_file abort_on_error w =
        let w1 = new_stream dump_file w in
        let (result, w2) = store w1 in
        if is_open dump_file
        then elim result [
          | none ↦ check_error abort_on_error (write dump_file [] w2)
          | some r ↦ ok (pos 0, delete_stream dump_file (free (write dump_file (dump_text r) w2)))
        ]
        else (if abort_on_error
            then died no_dump_file
            else ok (negsuc 0, delete_stream dump_file w1))
