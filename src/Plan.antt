-- ===== src/Plan.antt =====
-- sunbeam-python/sunbeam/core/common.py: steps, their results, and `run_plan`, which runs the steps
-- of a plan one after the other. `W` is what the steps act on (machines, controllers, databases),
-- and `M` is the type of the messages that a result carries.
pub mod Stops
pub mod Results
mod Samples
use snap_openstack.Prelude.{
  String, Bool, true, false, Option, none, some, List, [], ◌∷◌, Exception, key_error, Outcome,
  return, raise, if◌then◌else◌,
}
use snap_openstack.Dict.{Dict, get, set}

pub data ResultType : Type 0 where
  completed failed skipped : ResultType

pub record Result (M : Type 0) : Type 0 where
  pub result_type : ResultType
  pub message : M

-- A step of some class. Its methods may change the world and may raise.
pub record Step (W M : Type 0) : Type 0 where
  pub class_name : String
  pub has_prompts : W → Bool
  pub prompt : (show_hint : Bool) → W → Outcome (Unit {0}) × W
  pub is_skip : W → Outcome (Result M) × W
  pub run : W → Outcome (Result M) × W

-- How `run_plan` ends: with the dictionary of results, with a `ClickException` that carries the
-- message of a failed result, or with an exception that a step has raised.
pub data Ended (M : Type 0) : Type 0 where
  finished : Dict (Result M) → Ended M
  click_exception : M → Ended M
  escaped : Exception → Ended M

-- What one step leaves to the loop: the result to record, and whether the loop goes on.
pub data Visit (M : Type 0) : Type 0 where
  go_on : Result M → Visit M
  stop : Result M → Visit M
  throw : Exception → Visit M

-- A failed result ends the loop: it is recorded and returned, or its message is raised.
settle : {M : Type 0} → Bool → String → Dict (Result M) → Result M → Ended M
settle no_raise name results r =
    if no_raise then finished (set name r results) else click_exception r.message

module _ {W M : Type 0} where
  -- The prompts of a step, if it has any.
  ask_prompts : Bool → Step W M → W → Outcome (Unit {0}) × W
  ask_prompts no_hint step w = if step.has_prompts w then step.prompt no_hint w else (return tt, w)

  after_run : Outcome (Result M) × W → Visit M × W
  after_run (return r, w) = elim r.result_type [ failed ↦ (stop r, w) | _ ↦ (go_on r, w) ]
  after_run (raise e, w) = (throw e, w)

  after_skip : Step W M → Outcome (Result M) × W → Visit M × W
  unfolding after_run
  after_skip step (return r, w) = elim r.result_type [
    | skipped ↦ (go_on r, w)
    | failed ↦ (stop r, w)
    | completed ↦ after_run (step.run w)
  ]
  after_skip step (raise e, w) = (throw e, w)

  after_prompt : Step W M → Outcome (Unit {0}) × W → Visit M × W
  unfolding after_skip
  after_prompt step (return _, w) = after_skip step (step.is_skip w)
  after_prompt step (raise e, w) = (throw e, w)

  -- The body of the `for` loop of `run_plan`.
  pub visit : Bool → Step W M → W → Visit M × W
  unfolding ask_prompts after_prompt
  visit no_hint step w = after_prompt step (ask_prompts no_hint step w)

  -- The rest of the loop runs only where the step lets it go on.
  resume :
      (rest : Dict (Result M) → W → Ended M × W)
      → Bool
      → String
      → Dict (Result M)
      → Visit M × W
      → Ended M × W
  resume rest no_raise name results (go_on r, w) = rest (set name r results) w
  resume rest no_raise name results (stop r, w) = (settle no_raise name results r, w)
  resume rest no_raise name results (throw e, w) = (escaped e, w)

  pub run_steps : Bool → Bool → Dict (Result M) → List (Step W M) → W → Ended M × W
  run_steps no_hint no_raise results [] w = (finished results, w)
  run_steps no_hint no_raise results (step ∷ plan) w =
      resume (λ d. run_steps no_hint no_raise d plan) no_raise step.class_name results
        (visit no_hint step w)

  pub run_plan : Bool → Bool → List (Step W M) → W → Ended M × W
  run_plan no_hint no_raise plan w = run_steps no_hint no_raise [] plan w

-- `plan_results[step.__name__]`
pub get_step_result : {M : Type 0} → Dict (Result M) → String → Outcome (Result M)
get_step_result results name = elim (get name results) [
  | none ↦ raise key_error
  | some r ↦ return r
]

-- A result is an object, so it is true.
pub get_step_message : {M : Type 0} → Dict (Result M) → String → Option M
get_step_message results name = elim (get name results) [ none ↦ none | some r ↦ some r.message ]
