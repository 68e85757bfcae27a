-- ===== src/Database.antt =====
-- The clients of two databases, src/mysql-client.cc and src/pg-client.cc, and the result sets that
-- both of them write to a file. The libraries of the databases are parameters.
mod Tests
pub mod Pg
pub mod Mysql
pub mod PgOwned
pub mod PgRuns
pub mod PgBarrel
pub mod PgTaken
pub mod MysqlFreed
use super_smack.Prelude.{ℕ, Option, none, some, List, [], ◌∷◌, ◌++◌, Bytes, codes}

-- A result set: the names of its fields, and its rows, with `none` for a NULL.
pub record ResultSet : Type 0 where
  pub fields : List Bytes
  pub rows : List (List (Option Bytes))

-- `os << fields[i].name << "\t"`
unfoldable pub names_text : List Bytes → Bytes
names_text [] = []
names_text (name ∷ fields) = name ++ b'\t' ∷ names_text fields

-- `os.write(row[i], lengths[i])`, or `NULL`
abbrev pub cell_text : Option Bytes → Bytes
cell_text none = codes "NULL"
cell_text (some value) = value

unfoldable pub cells_text : List (Option Bytes) → Bytes
cells_text [] = []
cells_text (cell ∷ cells) = cell_text cell ++ b'\t' ∷ cells_text cells

unfoldable pub rows_text : List (List (Option Bytes)) → Bytes
rows_text [] = []
rows_text (row ∷ rows) = cells_text row ++ b'\n' ∷ rows_text rows

-- What the loops of `dump_result` write.
unfoldable pub dump_text : ResultSet → Bytes
dump_text r = names_text r.fields ++ b'\n' ∷ rows_text r.rows

-- A file that a client wrote, with its text; `none` is standard output.
abbrev pub Written : Type 0
Written = Option Bytes × Bytes

-- `query = "select count(*) from "; query += t.name`
abbrev pub count_query : Bytes → Bytes
count_query name = codes "select count(*) from " ++ name
