-- ===== src/Plan/Samples.antt =====
-- Small plans, what `run_plan` does with them, and its theorems at these plans.
use snap_openstack.Prelude.{
  ℕ, ◌+◌, String, ◌≡◌, refl, true, false, [], ◌∷◌, ◌++◌, return, string_eq,
}
use snap_openstack.Dict.{Dict, keys, get, set}
use snap_openstack.Plan.{
  Result, completed, failed, skipped, Step, finished, click_exception, run_plan, run_steps, visit,
  resume, settle, get_step_result, get_step_message, ResultType,
}
use snap_openstack.Plan.Stops.{run_plan-append_stop}

-- The world counts the steps that have run.
abbrev result : ResultType → String → Result String
result t m = record { result_type = t; message = m }

abbrev step : String → ResultType → ResultType → Step ℕ String
step name skip end = record {
  class_name = name;
  has_prompts = λ w. false;
  prompt = λ hint w. (return tt, w);
  is_skip = λ w. (return (result skip "checked"), w);
  run = λ w. (return (result end name), w + 1);
}

abbrev work : Step ℕ String
work = step "Work" completed completed

abbrev idle : Step ℕ String
idle = step "Idle" skipped completed

abbrev broken : Step ℕ String
broken = step "Broken" completed failed

program : Unit {0}
unfolding run_plan run_steps visit resume settle set get keys get_step_result get_step_message
program = tt

abbrev done : Dict (Result String)
done = ("Work", result completed "Work") ∷ ("Idle", result skipped "checked") ∷ []

run_work : run_plan true false (work ∷ idle ∷ []) 0 ≡ (finished done, 1)
unfolding program
run_work = refl

run_broken : run_plan true false (work ∷ broken ∷ work ∷ []) 0 ≡ (click_exception "Broken", 2)
unfolding program
run_broken = refl

run_broken_quietly :
    run_plan true true (work ∷ broken ∷ work ∷ []) 0
    ≡ (finished (("Work", result completed "Work") ∷ ("Broken", result failed "Broken") ∷ []), 2)
unfolding program
run_broken_quietly = refl

look_up : get_step_result done "Idle" ≡ return (result skipped "checked")
unfolding program
look_up = refl

run_plan-append_stop_example :
    run_plan true false ((work ∷ broken ∷ []) ++ idle ∷ []) 0
    ≡ run_plan true false (work ∷ broken ∷ []) 0
unfolding program
run_plan-append_stop_example =
    run_plan-append_stop true false (work ∷ broken ∷ []) (idle ∷ []) 0 refl
