-- ===== src/Result.antt =====
-- How a call ends: src/die.cc prints a message and exits, so `die` ends the whole process, and
-- undefined behaviour (a null pointer, a read outside an object) ends the model of it.
use super_smack.Prelude.{◌≡◌, refl, Bytes}
use super_smack.Prelude.Int.{ℤ}

-- The messages of `die`, one constructor for each call that the models reach.
pub data Reason : Type 0 where
  read_error incomplete_read write_error report_overflow null_report : Reason
  invalid_query_type no_such_dictionary undefined_query : Bytes → Reason
  unknown_dict_type unknown_source_type : Bytes → Reason
  template_not_unique missing_client datadir_too_long : Reason
  invalid_format_specifier : Bytes → Reason
  unknown_client_param no_such_query_type unknown_query_param : Bytes → Reason
  query_failed no_data_file fork_failed wrong_params : Reason
  undefined_client unknown_method : Bytes → Reason
  unsupported connect_failed no_result no_dump_file : Reason
  unknown_db_type no_input_file : Bytes → Reason
  no_rows_or_fmt parse_error : Reason
  no_pipe no_semaphore semop_failed : Reason
  missing_argument : ℤ → Reason
  unset_variable : Bytes → Reason

-- What C++ leaves undefined.
pub data Crash : Type 0 where
  null_pointer out_of_bounds division_by_zero int_overflow double_free use_after_free : Crash
  -- a field that nothing has set
  unset_value : Crash
  -- a format that asks for other arguments than it gets
  bad_format : Crash
  -- of the model: the fuel of a loop did not suffice
  out_of_fuel : Crash

pub data Result {ℓ} (R : Type ℓ) : Type ℓ where
  ok : R → Result R
  died : Reason → Result R
  crashed : Crash → Result R

infixl 5 ◌>>=◌
-- What follows a call that ended the process does not run.
abbrev pub ◌>>=◌ {ℓ κ} : {R : Type ℓ} {S : Type κ} → Result R → (R → Result S) → Result S
died why >>= rest = died why
crashed why >>= rest = crashed why
ok r >>= rest = rest r

module _ {ℓ κ} {R : Type ℓ} {S : Type κ} where
  -- The two calls of a chain that went well.
  pub >>=-eq-ok :
      (call : Result R) (rest : R → Result S) {s : S}
      → (call >>= rest) ≡ ok s
      → (r : R) × (call ≡ ok r) × (rest r ≡ ok s)
  >>=-eq-ok (died why) rest ended = cc
  >>=-eq-ok (crashed why) rest ended = cc
  >>=-eq-ok (ok r) rest ended = (r, refl, ended)

  -- Chains of equal calls, of which the second is equal where it runs.
  pub >>=_congr :
      (call : Result R) (rest other : R → Result S)
      → ((r : R) → call ≡ ok r → rest r ≡ other r)
      → (call >>= rest) ≡ (call >>= other)
  >>=_congr (died why) rest other same = refl
  >>=_congr (crashed why) rest other same = refl
  >>=_congr (ok r) rest other same = same r refl

  pub >>=_assoc {μ} :
      {T : Type μ} (call : Result R) (rest : R → Result S) (last : S → Result T)
      → (call >>= (λ r. rest r >>= last)) ≡ (call >>= rest >>= last)
  >>=_assoc (died why) rest last = refl
  >>=_assoc (crashed why) rest last = refl
  >>=_assoc (ok r) rest last = refl

pub ok_injective {ℓ} : {R : Type ℓ} {r s : R} → ok r ≡ ok s → r ≡ s
ok_injective same = cc

module _ {κ} {W : Type κ} (I : W → Type 0) (Fault : Crash → Type 0) where
  -- A call that keeps an invariant if it comes back, and whose faults are of a kind.
  abbrev pub Keeps {ℓ} : {R : Type ℓ} → (R → W) → Result R → Type 0
  Keeps world (ok r) = I (world r)
  Keeps world (died why) = Unit
  Keeps world (crashed why) = Fault why

  pub >>=-Keeps {ℓ μ} :
      {R : Type ℓ} {S : Type μ} (f : R → W) (g : S → W) (call : Result R) (rest : R → Result S)
      → Keeps f call
      → ((r : R) → call ≡ ok r → I (f r) → Keeps g (rest r))
      → Keeps g (call >>= rest)
  >>=-Keeps f g (ok r) rest h k = k r refl h
  >>=-Keeps f g (died why) rest h k = tt
  >>=-Keeps f g (crashed why) rest h k = h
