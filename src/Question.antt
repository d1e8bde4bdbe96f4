-- ===== src/Question.antt =====
-- sunbeam-python/sunbeam/core/questions.py: a question and the bank of questions. `T` is the type of
-- the answers, with `none` for None, and `W` the state of the terminal and of what the default function
-- uses. Python's bound on nested calls is the fuel of `ask`, and the exception that it raises there is
-- what `ask` returns when the fuel is used up.
mod Asking
mod Bank
mod Samples
use snap_openstack.Prelude.{
  ℕ, zero, suc, String, Bool, true, false, Option, none, some, List, [], ◌∷◌, Outcome, Exception,
  return, raise, value_error, recursion_error, ◌==◌, string_eq, if◌then◌else◌,
}
use snap_openstack.Dict
use snap_openstack.Dict.{Dict}

pub record Question {ℓ} (T W : Type ℓ) : Type ℓ where
  pub preseed : Option T
  pub previous_answer : Option T
  pub default_value : Option T
  pub default_function : Option (W → Outcome (Option T) × W)
  pub choices : Option (List T)
  pub accept_defaults : Bool
  pub show_hint : Bool
  pub validation_function : Option (T → Outcome (Unit {0}))

-- `new_choices or self.choices`
unfoldable pub choices_or {ℓ} : {T : Type ℓ} → Option (List T) → Option (List T) → Option (List T)
choices_or (some (c ∷ cs)) choices = some (c ∷ cs)
choices_or _ choices = choices

module _ {ℓ} {T W : Type ℓ} where
  -- `Question.calculate_default`
  unfoldable pub calculate_default : Question T W → Option T → W → Outcome (Option T) × W
  calculate_default q new_default w = elim q.previous_answer [
    | some a ↦ (return (some a), w)
    | none ↦ elim new_default [
      | some d ↦ (return (some d), w)
      | none ↦ elim q.default_function [ some f ↦ f w | none ↦ (return q.default_value, w) ]
    ]
  ]

  unfoldable pub validate : Question T W → T → Outcome (Unit {0})
  validate q a = elim q.validation_function [ none ↦ return tt | some f ↦ f a ]

  unfoldable pub is_preseeded : Question T W → Bool
  is_preseeded q = elim q.preseed [ none ↦ false | some a ↦ true ]

  -- The answer of `Question.ask` to a default that was calculated, before it is validated.
  -- `prompt` is `question_function`: what the user enters when asked with this default and these choices.
  unfoldable pub answer_with :
      (prompt : Option T → Option (List T) → W → Outcome (Option T) × W)
      → Question T W
      → Option (List T)
      → Outcome (Option T) × W
      → Outcome (Option T) × W
  answer_with prompt q new_choices (raise e, w) = (raise e, w)
  answer_with prompt q new_choices (return default, w) =
      if q.accept_defaults
      then (return default, w)
      else prompt default (choices_or new_choices q.choices) w

  -- The validation of `Question.ask`, with what asks again.
  unfoldable pub check_answer :
      Question T W
      → (again : W → Outcome (Option T) × W) → T
      → W
      → Outcome (Unit {0})
      → Outcome (Option T) × W
  check_answer q again a w (return _) = (return (some a), w)
  check_answer q again a w (raise value_error) = elim (is_preseeded q) [
    | true ↦ (raise value_error, w)
    | false ↦ again w
  ]
  check_answer q again a w (raise e) = (raise e, w)

  unfoldable pub judge :
      Question T W
      → (again : W → Outcome (Option T) × W) → Outcome (Option T) × W
      → Outcome (Option T) × W
  unfolding validate check_answer
  judge q again (raise e, w) = (raise e, w)
  judge q again (return none, w) = (return none, w)
  judge q again (return (some a), w) = check_answer q again a w (validate q a)

  module _ (prompt : Option T → Option (List T) → W → Outcome (Option T) × W) where
    unfoldable pub one_answer :
        Question T W → Option T → Option (List T) → W → Outcome (Option T) × W
    unfolding calculate_default answer_with
    one_answer q new_default new_choices w = elim q.preseed [
      | some p ↦ (return (some p), w)
      | none ↦ answer_with prompt q new_choices (calculate_default q new_default w)
    ]

    -- `Question.ask`. It asks again without the new choices.
    unfoldable pub ask :
        (fuel : ℕ) → Question T W → Option T → Option (List T) → W → Outcome (Option T) × W
    unfolding one_answer judge
    ask zero q new_default new_choices w = (raise recursion_error, w)
    ask (suc fuel) q new_default new_choices w =
        judge q (ask fuel q new_default none) (one_answer q new_default new_choices w)

  unfoldable pub change_at :
      String → (Question T W → Question T W) → Dict (Question T W) → Dict (Question T W)
  change_at key f [] = []
  change_at key f ((k, q) ∷ qs) = if k == key then (k, f q) ∷ qs else (k, q) ∷ change_at key f qs

  unfoldable pub set_defaults :
      (accept_defaults show_hint : Bool) → Dict (Question T W) → Dict (Question T W)
  set_defaults accept hint [] = []
  set_defaults accept hint ((k, q) ∷ qs) =
      (k, record q { accept_defaults = accept; show_hint = hint }) ∷ set_defaults accept hint qs

  unfoldable pub set_preseeds : Dict (Option T) → Dict (Question T W) → Dict (Question T W)
  unfolding change_at
  set_preseeds [] qs = qs
  set_preseeds ((k, a) ∷ preseed) qs =
      set_preseeds preseed (change_at k (λ q. record q { preseed = a }) qs)

  unfoldable pub set_previous : Dict (Option T) → Dict (Question T W) → Dict (Question T W)
  unfolding change_at
  set_previous [] qs = qs
  set_previous ((k, none) ∷ answers) qs = set_previous answers qs
  set_previous ((k, some a) ∷ answers) qs =
      set_previous answers (change_at k (λ q. record q { previous_answer = some a }) qs)

  -- `QuestionBank.__init__`, for a bank in which each key has a question of its own.
  unfoldable pub question_bank :
      Dict (Question T W)
      → (preseed previous_answers : Dict (Option T)) → (accept_defaults show_hint : Bool)
      → Dict (Question T W)
  unfolding set_defaults set_preseeds set_previous
  question_bank questions preseed previous_answers accept_defaults show_hint =
      set_previous previous_answers
        (set_preseeds preseed (set_defaults accept_defaults show_hint questions))
