-- ===== src/Script/Values.antt =====
-- `Val` of src/val.h: the value of an expression, a string with the number that it reads as.
use super_smack.Prelude.{Bool, false, Option, none, some, [], ◌++◌, Bytes, c_str}
use super_smack.Prelude.Int.{ℤ}

-- `none` is a flag that no constructor has set.
pub record Val {ℓ} (Double : Type ℓ) : Type ℓ where
  pub strval : Bytes
  pub dval : Double
  pub delete_me_not : Option Bool

-- `Val()`
abbrev pub new_val {ℓ} : {Double : Type ℓ} → Double → Val Double
new_val zero = record { strval = []; dval = zero; delete_me_not = some false }

-- `set(Val&)`; that a value is set to itself changes nothing either way.
unfoldable pub set_val {ℓ} : {Double : Type ℓ} → Val Double → Val Double → Val Double
set_val other v = record v { strval = other.strval; dval = other.dval }

module _ {ℓ} {Double : Type ℓ} (atof : Bytes → Double) where
  -- `set(string&)`
  unfoldable pub set_string : Bytes → Val Double → Val Double
  set_string s v = record v { strval = s; dval = atof (c_str s) }

  -- `Val(string&)`
  unfoldable pub val_of_string : Bytes → Val Double
  val_of_string s = record { strval = s; dval = atof (c_str s); delete_me_not = none }

  -- `Val(const char*)`
  unfoldable pub val_of_chars : Bytes → Val Double
  val_of_chars s = record { strval = c_str s; dval = atof (c_str s); delete_me_not = none }

  -- `concat`
  unfoldable pub concat : Val Double → Val Double → Val Double
  concat other v = set_string (v.strval ++ other.strval) v

-- With what `snprintf` writes of a number for `%f` into 32 bytes, and the double that an `int` is.
module _ {ℓ} {Double : Type ℓ} (format : Double → Bytes) (of_int : ℤ → Double) where
  -- `Val(double)`
  unfoldable pub val_of_double : Double → Val Double
  val_of_double d = record { strval = format d; dval = d; delete_me_not = none }

  -- `Val(int)`
  unfoldable pub val_of_int : ℤ → Val Double
  val_of_int n = val_of_double (of_int n)
