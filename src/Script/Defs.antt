-- ===== src/Script/Defs.antt =====
-- The definitions that the sections of a script fill, as src/super-smack-yacc.yy makes them.
use super_smack.Prelude.{[], Bytes}
use super_smack.Query.{
  Query, new_query, query_line, parsed_line, type_line, has_result_set_line, set_q_param,
}
use super_smack.Section.{
  DictDef, TableDef, source_line, source_type_line, delim_line, file_size_equiv_line,
  dict_type_line, client_line, create_line, min_rows_line, data_file_line, gen_data_file_line,
  update_dict_def, update_table_def,
}
use super_smack.Section.Created.{ClientDef, new_client_def}
use super_smack.Script.Token.{
  Word, query_sym, type_sym, has_result_set_sym, parsed_sym, source_type_sym, source_sym, delim_sym,
  file_size_equiv_sym, client_sym, create_sym, min_rows_sym, data_file_sym, gen_data_file_sym,
}
use super_smack.Script.Grammar.{Kind, query_kind, dict_kind, client_kind, table_kind}

-- The definition that a section fills; the parser gives it only lines that its kind allows.
pub data Def : Type 0 where
  query_def : Query → Def
  dict_def : DictDef → Def
  client_def : ClientDef → Def
  table_def : TableDef → Def

abbrev pub new_def : Kind → Def
new_def query_kind = query_def new_query
new_def dict_kind = dict_def (record {
  source = [];
  source_type = [];
  dict_type = [];
  name = [];
  file_size_equiv = [];
  delim = [];
})
new_def client_kind = client_def new_client_def
new_def table_kind =
    table_def
      (record { create_st = []; min_rows = []; client = []; data_file = []; gen_data_file = [] })

abbrev pub query_part : Word → Bytes → Query → Query
query_part query_sym str q = set_q_param (query_line str) q
query_part type_sym str q = set_q_param (type_line str) q
query_part has_result_set_sym str q = set_q_param (has_result_set_line str) q
query_part parsed_sym str q = set_q_param (parsed_line str) q
query_part _ str q = q

abbrev pub dict_part : Word → Bytes → DictDef → DictDef
dict_part type_sym str d = update_dict_def (dict_type_line str) d
dict_part source_type_sym str d = update_dict_def (source_type_line str) d
dict_part source_sym str d = update_dict_def (source_line str) d
dict_part delim_sym str d = update_dict_def (delim_line str) d
dict_part file_size_equiv_sym str d = update_dict_def (file_size_equiv_line str) d
dict_part _ str d = d

abbrev pub table_part : Word → Bytes → TableDef → TableDef
table_part client_sym str t = update_table_def (client_line str) t
table_part create_sym str t = update_table_def (create_line str) t
table_part min_rows_sym str t = update_table_def (min_rows_line str) t
table_part data_file_sym str t = update_table_def (data_file_line str) t
table_part gen_data_file_sym str t = update_table_def (gen_data_file_line str) t
table_part _ str t = t
