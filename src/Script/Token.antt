-- ===== src/Script/Token.antt =====
-- The tokens of a script: those that src/super-smack-lex.ll returns, as src/super-smack-yacc.yy
-- declares them.
use super_smack.Prelude.{Option, none, some, List, [], ◌∷◌, Bytes, codes, str_eq, if◌then◌else◌}

-- The words that are no identifiers.
pub data Word : Type 0 where
  query_sym type_sym has_result_set_sym client_sym dict_sym table_sym delim_sym : Word
  file_size_equiv_sym create_sym min_rows_sym data_file_sym gen_data_file_sym parsed_sym : Word
  query_barrel_sym source_sym source_type_sym main_sym db_sym host_sym user_sym pass_sym : Word
  port_sym socket_sym : Word

pub data Mark : Type 0 where
  open_sect_sym close_sect_sym open_paren_sym close_paren_sym semi_sym dot_sym comma_sym : Mark
  dollar_sym col_col_sym eq_sym : Mark

-- `IDENT_SYM`, `NUMBER_SYM` and `STRING_SYM` come with `yylval.str`.
pub data Token : Type 0 where
  word : Word → Token
  mark : Mark → Token
  ident_sym number_sym string_sym : Bytes → Token

abbrev pub word_text : Word → Bytes
word_text query_sym = codes "query"
word_text type_sym = codes "type"
word_text has_result_set_sym = codes "has_result_set"
word_text client_sym = codes "client"
word_text dict_sym = codes "dictionary"
word_text table_sym = codes "table"
word_text delim_sym = codes "delim"
word_text file_size_equiv_sym = codes "file_size_equiv"
word_text create_sym = codes "create"
word_text min_rows_sym = codes "min_rows"
word_text data_file_sym = codes "data_file"
word_text gen_data_file_sym = codes "gen_data_file"
word_text parsed_sym = codes "parsed"
word_text query_barrel_sym = codes "query_barrel"
word_text source_sym = codes "source"
word_text source_type_sym = codes "source_type"
word_text main_sym = codes "main"
word_text db_sym = codes "db"
word_text host_sym = codes "host"
word_text user_sym = codes "user"
word_text pass_sym = codes "pass"
word_text port_sym = codes "port"
word_text socket_sym = codes "socket"

-- The rules for the words, in the order of the file.
abbrev pub words : List Word
words =
    query_sym ∷ type_sym ∷ has_result_set_sym ∷ client_sym ∷ dict_sym ∷ table_sym ∷ delim_sym
    ∷ file_size_equiv_sym ∷ create_sym ∷ min_rows_sym ∷ data_file_sym ∷ gen_data_file_sym
    ∷ parsed_sym ∷ query_barrel_sym ∷ source_sym ∷ source_type_sym ∷ main_sym ∷ db_sym ∷ host_sym
    ∷ user_sym ∷ pass_sym ∷ port_sym ∷ socket_sym ∷ []

abbrev pub mark_text : Mark → Bytes
mark_text open_sect_sym = codes "{"
mark_text close_sect_sym = codes "}"
mark_text open_paren_sym = codes "("
mark_text close_paren_sym = codes ")"
mark_text semi_sym = codes ";"
mark_text dot_sym = codes "."
mark_text comma_sym = codes ","
mark_text dollar_sym = codes "$"
mark_text col_col_sym = codes "::"
mark_text eq_sym = codes "="

unfoldable pub find_word : Bytes → List Word → Option Word
find_word yytext [] = none
find_word yytext (w ∷ ws) = if str_eq (word_text w) yytext then some w else find_word yytext ws
