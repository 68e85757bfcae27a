-- ===== src/Engines.antt =====
-- The table of database engines, src/engines.h and src/engines.cc: `Engine` objects put copies of
-- themselves into 64 slots, and clients are made through them.
mod Tests
pub mod Ids
use super_smack.Prelude.{
  ℕ, zero, suc, ◌+◌, Bool, true, false, not, ◌&&◌, Option, none, some, List, [], ◌∷◌, if◌then◌else◌,
  ◌==◌, ltb, Bytes, str_eq, replicate,
}

-- What `create` points to is a parameter: the constructor of a client class, by `create`.
module _ {ℓ} where
  -- The texts are C strings.
  pub record Engine (Creator : Type ℓ) : Type ℓ where
    pub id : ℕ
    pub name : Bytes
    pub handle : Bytes
    pub create : Option Creator
    pub version : Bytes
    pub author : Bytes

abbrev pub max_engines : ℕ
max_engines = 64

module _ {ℓ} {Creator : Type ℓ} where
  -- A slot after `bzero`. Its null pointers are not read, as its id is zero.
  abbrev pub free_slot : Engine Creator
  free_slot = record { id = 0; name = []; handle = []; create = none; version = []; author = [] }

  -- `bzero(engines, sizeof(engines))`
  abbrev pub new_engines : List (Engine Creator)
  new_engines = replicate max_engines free_slot

  -- The loop of the constructor: the first slot with no id takes the engine; `i` is the index of
  -- the first slot of the list.
  unfoldable pub register : ℕ → Engine Creator → List (Engine Creator) → List (Engine Creator)
  register i e [] = []
  register i e (slot ∷ engines) =
      if slot.id == 0 then record e { id = i + 1 } ∷ engines else slot ∷ register (i + 1) e engines

  -- `Engine::Engine`, once the table is initialized.
  unfoldable pub add_engine :
      Bytes → Bytes → Creator → Bytes → Bytes → List (Engine Creator) → List (Engine Creator)
  add_engine name handle create version author engines =
      register 0
        (record {
          id = 0;
          name = name;
          handle = handle;
          create = some create;
          version = version;
          author = author;
        })
        engines

  -- The test of both loops over handles.
  abbrev pub has_handle : Bytes → Engine Creator → Bool
  has_handle handle e = not (e.id == 0) && str_eq e.handle handle

  -- `engine_id`; `none` is a null pointer.
  unfoldable pub id_in : Bytes → List (Engine Creator) → ℕ
  id_in handle [] = 0
  id_in handle (e ∷ engines) = if has_handle handle e then e.id else id_in handle engines

  unfoldable pub engine_id : Option Bytes → List (Engine Creator) → ℕ
  engine_id none engines = 0
  engine_id (some handle) engines = id_in handle engines

  -- `new_client(const char*)`: the creator that it calls, `none` where it returns NULL.
  unfoldable pub creator_of : Bytes → List (Engine Creator) → Option Creator
  creator_of handle [] = none
  creator_of handle (e ∷ engines) =
      if has_handle handle e then e.create else creator_of handle engines

  unfoldable pub new_client : Option Bytes → List (Engine Creator) → Option Creator
  new_client none engines = none
  new_client (some handle) engines = creator_of handle engines

  -- `new_client(int)` on an id that is not negative: ids below 1 find nothing.
  unfoldable pub creator_at : ℕ → List (Engine Creator) → Option Creator
  creator_at id [] = none
  creator_at id (e ∷ engines) = if e.id == id then e.create else creator_at id engines

  unfoldable pub new_client_by_id : ℕ → List (Engine Creator) → Option Creator
  new_client_by_id id engines =
      if ltb 0 id && ltb id max_engines then creator_at id engines else none

  -- `Engine::~Engine`, which frees the other texts, but not the handle. They are not read again, as
  -- the id is zero.
  unfoldable pub destroy : Engine Creator → Engine Creator
  destroy e = if e.id == 0 then e else record e { id = 0; name = []; version = []; author = [] }
