-- ===== src/Section.antt =====
-- The sections of a script that describe an object, src/parse.h and src/parse.cc: the definitions
-- that their lines fill, and what is made of a definition at the end of its section.
mod Tests
pub mod Dicts
pub mod Tables
pub mod Created
pub mod Print
use super_smack.Prelude.{ℕ, Option, none, Bytes, []}

-- `Dict_def`, and the subclasses of `Dict_def_line`, each with its `str`.
pub record DictDef : Type 0 where
  pub source : Bytes
  pub source_type : Bytes
  pub dict_type : Bytes
  pub name : Bytes
  pub file_size_equiv : Bytes
  pub delim : Bytes

pub data DictDefLine : Type 0 where
  source_line source_type_line delim_line file_size_equiv_line dict_type_line : Bytes → DictDefLine

-- `update_dict_def`, which each subclass overrides.
unfoldable pub update_dict_def : DictDefLine → DictDef → DictDef
update_dict_def (dict_type_line str) d = record d { dict_type = str }
update_dict_def (source_type_line str) d = record d { source_type = str }
update_dict_def (source_line str) d = record d { source = str }
update_dict_def (delim_line str) d = record d { delim = str }
update_dict_def (file_size_equiv_line str) d = record d { file_size_equiv = str }

-- `Table_def`, and the subclasses of `Table_def_line`.
pub record TableDef : Type 0 where
  pub create_st : Bytes
  pub min_rows : Bytes
  pub client : Bytes
  pub data_file : Bytes
  pub gen_data_file : Bytes

pub data TableDefLine : Type 0 where
  client_line create_line min_rows_line data_file_line gen_data_file_line : Bytes → TableDefLine

-- `update_table_def`, which each subclass overrides.
unfoldable pub update_table_def : TableDefLine → TableDef → TableDef
update_table_def (client_line str) t = record t { client = str }
update_table_def (create_line str) t = record t { create_st = str }
update_table_def (min_rows_line str) t = record t { min_rows = str }
update_table_def (data_file_line str) t = record t { data_file = str }
update_table_def (gen_data_file_line str) t = record t { gen_data_file = str }
