-- ===== src/Section/Dicts.antt =====
-- `Dict_def::make_dict` of src/parse.cc, at the end of a dictionary section.
pub mod FromList
use super_smack.Prelude.{
  ℕ, Option, none, some, if◌then◌else◌, ◌==◌, Bytes, codes, str_eq, length, c_str,
}
use super_smack.Prelude.Atoi.{atoi}
use super_smack.Result.{
  Result, ok, died, crashed, unknown_dict_type, unknown_source_type, template_not_unique, ◌>>=◌,
}
use super_smack.Path.{mk_data_path, path_text, first}
use super_smack.Dictionary.{Dictionary, unique, new_rand, new_seq, new_unique, set_template}
use super_smack.Dictionary.LoadList.{load_list}
use super_smack.Dictionary.LoadFile.{load_file}
use super_smack.Section.{DictDef}

-- The subclass that the section names.
unfoldable pub new_of_type : Bytes → Result Dictionary
new_of_type dict_type =
    if str_eq dict_type (codes "rand")
    then ok new_rand
    else if str_eq dict_type (codes "seq")
    then ok new_seq
    else if str_eq dict_type (codes "unique")
    then ok new_unique
    else died (unknown_dict_type dict_type)

-- `if(file_size_equiv.length()) …` and `if(delim.length()) …`
unfoldable pub set_options : DictDef → Dictionary → Dictionary
set_options def d = record d {
  file_size_equiv =
      if length def.file_size_equiv == 0
      then d.file_size_equiv
      else atoi (c_str def.file_size_equiv);
  delim = if length def.delim == 0 then d.delim else first def.delim;
}

-- `((Unique_dictionary*)dict)->set_template(…)`
unfoldable pub use_template : Bytes → Dictionary → Result Dictionary
use_template source d = elim d.kind [
  | unique id templ size ↦ ok (record d { kind = set_template id source })
  | _ ↦ died template_not_unique
]

-- The files of the system, by path; none where `stat` or `ifstream` fails.
module _ (datadir : Option Bytes) (files : Bytes → Option Bytes) where
  -- `dict->load_file(…)`, with the path that it makes; `none` where the fuel did not suffice.
  unfoldable pub load_source : ℕ → Bytes → Dictionary → Option (Result Dictionary)
  load_source fuel source d = elim (do path ← mk_data_path datadir source; path_text path) [
    | ok path ↦ elim (load_file fuel (files path) d) [
      | none ↦ none
      | some (status, d') ↦ some (ok d')
    ]
    | died why ↦ some (died why)
    | crashed why ↦ some (crashed why)
  ]

  -- The branches on `source_type`.
  unfoldable pub load : ℕ → DictDef → Dictionary → Option (Result Dictionary)
  load fuel def d =
      if str_eq def.source_type (codes "file")
      then load_source fuel (c_str def.source) d
      else if str_eq def.source_type (codes "list")
      then some (ok (load_list (c_str def.source) d))
      else if str_eq def.source_type (codes "template")
      then some (use_template (c_str def.source) d)
      else some (died (unknown_source_type def.source_type))

  -- `dict->name = name`
  abbrev pub set_name : Bytes → Result Dictionary → Result Dictionary
  set_name name made = do d ← made; ok (record d { name = name })

  -- `Dict_def::make_dict`
  unfoldable pub make_dict : ℕ → DictDef → Option (Result Dictionary)
  make_dict fuel def = elim (new_of_type def.dict_type) [
    | ok d ↦ elim (load fuel def (set_options def d)) [
      | none ↦ none
      | some made ↦ some (set_name def.name made)
    ]
    | died why ↦ some (died why)
    | crashed why ↦ some (crashed why)
  ]
