-- ===== src/Section/Created.antt =====
-- `Client_def` of src/parse.h and `Client_def::make_client` of src/parse.cc, at the end of a client
-- section, with the fields of `Client` (src/client.h) that its constructor and a section set.
use super_smack.Prelude.{Bool, true, false, Option, none, some, List, [], ◌∷◌, Bytes, codes}
use super_smack.Prelude.Int.{ℤ, pos, negsuc}
use super_smack.Result.{Result, ok, crashed, null_pointer, ◌>>=◌}
use super_smack.StringMap.{StringMap, insert}
use super_smack.Barrel.{Barrel, QueryPool, update_client_def}

-- Where a client logs in.
pub record Login : Type 0 where
  pub user : Bytes
  pub host : Bytes
  pub db : Bytes
  pub pass : Bytes
  pub socket : Bytes
  pub port : Bytes

-- `none` is a null pointer.
pub record ClientDef : Type 0 where
  pub login : Login
  pub qb : Option Barrel

-- `Client_def()`: the strings are empty.
abbrev pub new_client_def : ClientDef
new_client_def = record {
  login = record { user = []; host = []; db = []; pass = []; socket = []; port = [] };
  qb = none;
}

-- The subclasses of `Client_def_line`.
pub data ClientDefLine : Type 0 where
  query_barrel_line user_line pass_line host_line db_line port_line socket_line :
      Bytes → ClientDefLine

-- The fields of a client. The pipe and its semaphore are the system's.
pub record Client : Type 0 where
  pub connected : Bool
  pub parent_thread : Bool
  pub running_threads : ℤ
  pub connect_time : ℤ
  pub min_connect_time : ℤ
  pub max_connect_time : ℤ
  pub total_connect_time : ℤ
  pub num_reported_clients : ℤ
  pub name : Bytes
  pub login : Login
  pub qb : Option Barrel
  -- whether `dictionaries` is the pool, which is null otherwise
  pub has_dictionaries : Bool

-- `Client()`
abbrev pub new_client : Client
new_client = record {
  connected = false;
  parent_thread = true;
  running_threads = pos 1;
  connect_time = negsuc 0;
  min_connect_time = negsuc 0;
  max_connect_time = pos 0;
  total_connect_time = pos 0;
  num_reported_clients = pos 0;
  name = [];
  login = record {
    user = codes "test";
    host = codes "localhost";
    db = codes "test";
    pass = [];
    socket = [];
    port = [];
  };
  qb = none;
  has_dictionaries = false;
}

module _ (sleep_time : Bytes → ℤ × ℤ) (pool : QueryPool) where
  -- `update_client_def`, which each subclass overrides.
  unfoldable pub update_def : ClientDefLine → ClientDef → Result ClientDef
  update_def (query_barrel_line str) cd = do
    qb ← update_client_def sleep_time pool str
    ok (record cd { qb = some qb })
  update_def (user_line str) cd = ok (record cd { login = record cd.login { user = str } })
  update_def (pass_line str) cd = ok (record cd { login = record cd.login { pass = str } })
  update_def (host_line str) cd = ok (record cd { login = record cd.login { host = str } })
  update_def (socket_line str) cd = ok (record cd { login = record cd.login { socket = str } })
  update_def (port_line str) cd = ok (record cd { login = record cd.login { port = str } })
  update_def (db_line str) cd = ok (record cd { login = record cd.login { db = str } })

  -- The lines of a section, in order.
  unfoldable pub update_all : List ClientDefLine → ClientDef → Result ClientDef
  update_all [] cd = ok cd
  update_all (line ∷ lines) cd = do cd' ← update_def line cd; update_all lines cd'

-- `if(qb) c->set_query_barrel(qb);`
unfoldable pub set_query_barrel : Option Barrel → Client → Client
set_query_barrel none c = c
set_query_barrel (some qb) c = record c { qb = some qb }

-- `Client_def::make_client`, with what the engine of the chosen database creates; the code does not
-- test for a null pointer.
unfoldable pub make_client : Option Client → ClientDef → Result Client
make_client none cd = crashed null_pointer
make_client (some c) cd =
    ok (record (set_query_barrel cd.qb (record c { login = cd.login })) { has_dictionaries = true })

-- `Client::connect(host, db, user, pass)` before its call of `connect()`
unfoldable pub set_login : Bytes → Bytes → Bytes → Bytes → Client → Client
set_login host db user pass c = record c {
  login = record c.login { host = host; db = db; user = user; pass = pass };
}

-- `Client::set_dictionary`; `none` is a null pointer.
unfoldable pub set_dictionary {ℓ} :
    {Dictionary : Type ℓ}
    → Bytes
    → Dictionary
    → Option (StringMap Dictionary)
    → Option (StringMap Dictionary)
set_dictionary name dict none = some (insert name dict [])
set_dictionary name dict (some dictionaries) = some (insert name dict dictionaries)
