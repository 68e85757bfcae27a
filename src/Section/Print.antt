-- ===== src/Section/Print.antt =====
-- What the `print` methods write: of queries (src/query.cc), dictionaries (src/dictionary.cc),
-- clients (src/client.cc) and the lines of the main section (src/parse.cc).
use super_smack.Prelude.{Bool, true, false, List, [], ◌∷◌, ◌++◌, Bytes, codes, length}
use super_smack.Prelude.Int.{pos}
use super_smack.Prelude.Decimal.{int_text}
use super_smack.Query.{Query}
use super_smack.Dictionary.{Dictionary, rand, seq, unique}
use super_smack.Section.Created.{Client}
use super_smack.Main.{MainLine}

abbrev pub flag_text : Bool → Bytes
flag_text true = codes "1"
flag_text false = codes "0"

-- `Query::print`
unfoldable pub print_query : Query → Bytes
print_query q =
    codes "Query:query="
    ++ q.query
    ++ codes ",name="
    ++ q.name
    ++ codes ",has_result_set="
    ++ flag_text q.has_result_set
    ++ codes ",type_name="
    ++ q.type_name
    ++ codes ",parsed="
    ++ flag_text q.parsed
    ++ codes "\n"

-- `Seq_dictionary::print`, `Unique_dictionary::print` and `Rand_dictionary::print`
unfoldable pub print_dictionary : Dictionary → Bytes
print_dictionary d = elim d.kind [
  | rand ↦
      codes "rand_dictionary "
      ++ d.name
      ++ codes " "
      ++ int_text (pos (length d.words))
      ++ codes " words\n"
  | seq i ↦
      codes "seq_dictionary "
      ++ d.name
      ++ codes " "
      ++ int_text (pos (length d.words))
      ++ codes " words\n"
  | unique id templ size ↦
      codes "unique_dictionary " ++ d.name ++ codes " " ++ templ ++ codes " template\n"
]

-- `Client::print`
unfoldable pub print_client : Client → Bytes
print_client c =
    codes "client: "
    ++ c.name
    ++ codes ":\nuser="
    ++ c.login.user
    ++ codes "\npass="
    ++ c.login.pass
    ++ codes "\nhost="
    ++ c.login.host
    ++ codes "\ndb="
    ++ c.login.db
    ++ codes "\n"

-- The loop of `Param_list::print`, from the second parameter on.
unfoldable pub print_others : List Bytes → Bytes
print_others [] = []
print_others (p ∷ params) = b',' ∷ (p ++ print_others params)

-- `Param_list::print`
unfoldable pub print_params : List Bytes → Bytes
print_params [] = []
print_params (p ∷ params) = p ++ print_others params

-- `Main_line::print`, with a list of parameters
unfoldable pub print_main_line : MainLine → Bytes
print_main_line l =
    codes "main_line: client: "
    ++ l.client
    ++ codes ",method="
    ++ l.method
    ++ codes ",param_list: "
    ++ print_params l.param_list
    ++ codes "\n"
