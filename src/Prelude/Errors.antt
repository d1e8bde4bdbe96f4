-- ===== src/Prelude/Errors.antt =====
-- Python exceptions as values. The text of a message is kept only where the program reads it.
use mathlib.Core.Path.{◌≡◌, refl}
use mathlib.Core.Bool.{Bool, true, false}

-- The classes of exceptions that the modelled code raises or catches.
pub data Exception : Type 0 where
  value_error type_error key_error attribute_error recursion_error : Exception
  sunbeam_exception click_exception bad_parameter feature_gate_error : Exception
  watcher_action_failed feature_error invalid_requirement incompatible_version has_requirers
        missing_feature :
      Exception
  unavailable not_found unknown_config_key snap_ctl_error not_a_snap yaml_error io_error
        other_error :
      Exception

pub data Outcome {ℓ} (A : Type ℓ) : Type ℓ where
  return : A → Outcome A
  raise : Exception → Outcome A

infixl 5 ◌>>=◌ ◌>>◌
abbrev pub ◌>>=◌ {ℓ κ} : {A : Type ℓ} {B : Type κ} → Outcome A → (A → Outcome B) → Outcome B
return a >>= f = f a
raise e >>= f = raise e

abbrev pub ◌>>◌ {ℓ} : {B : Type ℓ} → Outcome (Unit {0}) → Outcome B → Outcome B
m >> k = m >>= λ _. k

-- `if not b: raise e`
abbrev pub guard : Bool → Exception → Outcome (Unit {0})
guard true e = return tt
guard false e = raise e

pub >>=-eq-return {ℓ κ} :
    {A : Type ℓ} {B : Type κ} (m : Outcome A) (f : A → Outcome B) {b : B}
    → (m >>= f) ≡ return b
    → (a : A) × (m ≡ return a) × (f a ≡ return b)
>>=-eq-return (return a) f h = (a, refl, h)
>>=-eq-return (raise e) f h = cc

pub guard-eq-return : (b : Bool) (e : Exception) → guard b e ≡ return tt → b ≡ true
guard-eq-return true e h = refl
guard-eq-return false e h = cc
