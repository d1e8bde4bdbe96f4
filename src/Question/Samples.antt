-- ===== src/Question/Samples.antt =====
-- A question whose validation refuses one answer, a user who types what a list holds, and the theorems
-- about them.
use snap_openstack.Prelude.{
  String, ◌≡◌, refl, true, false, Option, none, some, List, [], ◌∷◌, Outcome, return, raise,
  value_error, recursion_error, ◌==◌, string_eq, if◌then◌else◌, guard, not, arith,
}
use snap_openstack.Dict
use snap_openstack.Question.{
  Question, validate, is_preseeded, one_answer, calculate_default, choices_or, ask, judge,
}
use snap_openstack.Question.Asking.{ask-valid, accepted, refused, ask-Asks, ask-accept_defaults}

-- An empty line stands for the default.
abbrev typed :
    Option String → Option (List String) → List String → Outcome (Option String) × List String
typed default choices [] = (return default, [])
typed default choices (line ∷ lines) = (return (if line == "" then default else some line), lines)

abbrev region : Question String (List String)
region = record {
  preseed = none;
  previous_answer = none;
  default_value = some "RegionOne";
  default_function = none;
  choices = none;
  accept_defaults = false;
  show_hint = false;
  validation_function = some (λ a. guard (not (a == "bad")) value_error);
}

program : Unit {0}
unfolding validate is_preseeded one_answer calculate_default choices_or ask judge Dict.get
program = tt

ask-valid_example : validate region "RegionOne" ≡ return tt
unfolding program
ask-valid_example = ask-valid typed region 2 none none ("bad" ∷ "" ∷ []) [] "RegionOne" refl

ask-Asks_example :
    ask typed 2 region none (some ("bad" ∷ [])) ("bad" ∷ "" ∷ []) ≡ (return (some "RegionOne"), [])
unfolding program
ask-Asks_example = ask-Asks typed region 2 {new_default = none} {n = 1} refl (omega arith) (
    refused 0 (some ("bad" ∷ [])) ("bad" ∷ "" ∷ []) ("" ∷ []) [] "bad" "RegionOne" refl refl
      (accepted none ("" ∷ []) [] "RegionOne" refl refl))

abbrev accepting : Question String (List String)
accepting = record region { accept_defaults = true; default_value = some "bad" }

ask-accept_defaults_example : ask typed 1000 accepting none none [] ≡ (raise recursion_error, [])
unfolding program
ask-accept_defaults_example =
    ask-accept_defaults typed accepting 1000 none none [] "bad" refl refl refl refl
