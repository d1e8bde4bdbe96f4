-- ===== src/Plan/Stops.antt =====
-- When the loop of `run_plan` stops, and what the later steps of a plan can then change.
use snap_openstack.Prelude.{
  String, ◌≡◌, refl, Bool, true, false, ◌||◌, List, [], ◌∷◌, ◌++◌, Outcome, return, raise, arith,
  string_eq,
}
use snap_openstack.Dict.{Dict, set}
use snap_openstack.Plan.{
  Result, failed, Step, Ended, finished, click_exception, escaped, Visit, go_on, stop, throw,
  settle, visit, after_run, after_skip, after_prompt, ask_prompts, resume, run_steps, run_plan,
}

module _ {M : Type 0} where
  abbrev pub is_failed : Result M → Bool
  is_failed r = elim r.result_type [ failed ↦ true | _ ↦ false ]

  -- Some recorded result is FAILED.
  abbrev pub any_failed : Dict (Result M) → Bool
  any_failed [] = false
  any_failed ((k, r) ∷ d) = is_failed r || any_failed d

  -- The plan did not get to its end.
  abbrev pub ended_early : Ended M → Bool
  ended_early (finished d) = any_failed d
  ended_early (click_exception m) = true
  ended_early (escaped e) = true

  pub any_failed-set_failed :
      (k : String) (r : Result M) (d : Dict (Result M))
      → is_failed r ≡ true
      → any_failed (set k r d) ≡ true
  unfolding set
  any_failed-set_failed k r [] h = ground arith
  any_failed-set_failed k r ((j, q) ∷ d) h = ground (arith, any_failed-set_failed k r d h)

  pub any_failed-set_ok :
      (k : String) (r : Result M) (d : Dict (Result M))
      → is_failed r ≡ false
      → any_failed d ≡ false
      → any_failed (set k r d) ≡ false
  unfolding set
  any_failed-set_ok k r [] h a = ground arith
  any_failed-set_ok k r ((j, q) ∷ d) h a = ground (arith, any_failed-set_ok k r d h)

-- A result after which the loop goes on is not FAILED, and one that stops it is.
abbrev pub Sound : {M : Type 0} → Visit M → Type 0
Sound (go_on r) = is_failed r ≡ false
Sound (stop r) = is_failed r ≡ true
Sound (throw e) = Unit

module _ {W M : Type 0} where
  after_run-Sound : (o : Outcome (Result M) × W) → Sound (after_run o).0
  unfolding after_run
  after_run-Sound (return r, w) = ground arith
  after_run-Sound (raise e, w) = tt

  after_skip-Sound : (step : Step W M) (o : Outcome (Result M) × W) → Sound (after_skip step o).0
  unfolding after_skip
  after_skip-Sound step (return r, w) = ground (arith, after_run-Sound (step.run w))
  after_skip-Sound step (raise e, w) = tt

  after_prompt-Sound :
      (step : Step W M) (o : Outcome (Unit {0}) × W) → Sound (after_prompt step o).0
  unfolding after_prompt
  after_prompt-Sound step (return r, w) = after_skip-Sound step (step.is_skip w)
  after_prompt-Sound step (raise e, w) = tt

  pub visit-Sound : (no_hint : Bool) (step : Step W M) (w : W) → Sound (visit no_hint step w).0
  unfolding visit
  visit-Sound no_hint step w = after_prompt-Sound step (ask_prompts no_hint step w)

module _ {W M : Type 0} (no_raise : Bool) (name : String) (results : Dict (Result M))
    (rest rest' : Dict (Result M) → W → Ended M × W) where
  resume-append_stop :
      (v : Visit M × W)
      → Sound v.0
      → any_failed results ≡ false
      → ((d : Dict (Result M)) (w : W)
          → any_failed d ≡ false
          → ended_early (rest d w).0 ≡ true
          → rest' d w ≡ rest d w)
      → ended_early (resume rest no_raise name results v).0 ≡ true
      → resume rest' no_raise name results v ≡ resume rest no_raise name results v
  unfolding resume
  resume-append_stop (go_on r, w) s ok ih h = ih _ w (any_failed-set_ok name r results s ok) h
  resume-append_stop (stop r, w) s ok ih h = refl
  resume-append_stop (throw e, w) s ok ih h = refl

  resume-append :
      (later : Dict (Result M) → W → Ended M × W)
      → ((d e : Dict (Result M)) (w w' : W)
          → any_failed d ≡ false
          → rest d w ≡ (finished e, w')
          → any_failed e ≡ false
          → rest' d w ≡ later e w')
      → (v : Visit M × W) (e : Dict (Result M)) (w' : W) → Sound v.0
      → any_failed results ≡ false
      → resume rest no_raise name results v ≡ (finished e, w')
      → any_failed e ≡ false
      → resume rest' no_raise name results v ≡ later e w'
  unfolding resume settle
  resume-append later ih (go_on r, w) e w' s ok h free =
      ih _ e w w' (any_failed-set_ok name r results s ok) h free
  resume-append later ih (stop r, w) e w' s ok h free =
      ground (arith, any_failed-set_failed name r results s)
  resume-append later ih (throw x, w) e w' s ok h free = cc

module _ {W M : Type 0} (no_hint no_raise : Bool) where
  run_steps-append_stop :
      (results : Dict (Result M)) (plan later : List (Step W M)) (w : W)
      → any_failed results ≡ false
      → ended_early (run_steps no_hint no_raise results plan w).0 ≡ true
      → run_steps no_hint no_raise results (plan ++ later) w
        ≡ run_steps no_hint no_raise results plan w
  unfolding run_steps
  run_steps-append_stop results [] later w ok h = cc
  run_steps-append_stop results (step ∷ plan) later w ok h =
      resume-append_stop no_raise step.class_name results (λ d. run_steps no_hint no_raise d plan)
        (λ d. run_steps no_hint no_raise d (plan ++ later)) (visit no_hint step w)
        (visit-Sound no_hint step w) ok (λ d w'. run_steps-append_stop d plan later w') h

  run_steps-append :
      (plan later : List (Step W M)) (results d : Dict (Result M)) (w w' : W)
      → any_failed results ≡ false
      → run_steps no_hint no_raise results plan w ≡ (finished d, w')
      → any_failed d ≡ false
      → run_steps no_hint no_raise results (plan ++ later) w ≡ run_steps no_hint no_raise d later w'
  unfolding run_steps
  run_steps-append [] later results d w w' ok h free = ground arith
  run_steps-append (step ∷ plan) later results d w w' ok h free =
      resume-append no_raise step.class_name results (λ e. run_steps no_hint no_raise e plan)
        (λ e. run_steps no_hint no_raise e (plan ++ later))
        (λ e. run_steps no_hint no_raise e later) (λ a b u u'. run_steps-append plan later a b u u')
        (visit no_hint step w) d w' (visit-Sound no_hint step w) ok h free

-- If a plan does not get to its end (a result is FAILED, or an exception leaves it), then the steps
-- behind it change nothing: the longer plan ends in the same way and leaves the same world.
pub run_plan-append_stop :
    {W M : Type 0} (no_hint no_raise : Bool) (plan later : List (Step W M)) (w : W)
    → ended_early (run_plan no_hint no_raise plan w).0 ≡ true
    → run_plan no_hint no_raise (plan ++ later) w ≡ run_plan no_hint no_raise plan w
unfolding run_plan
run_plan-append_stop no_hint no_raise plan later w h =
    run_steps-append_stop no_hint no_raise [] plan later w refl h

-- If a plan gets to its end with no FAILED result, then a longer plan goes on with its further steps
-- from the dictionary of results and from the world that the plan has left.
run_plan-append :
    {W M : Type 0} (no_hint no_raise : Bool) (plan later : List (Step W M)) (d : Dict (Result M))
    (w w' : W)
    → run_plan no_hint no_raise plan w ≡ (finished d, w')
    → any_failed d ≡ false
    → run_plan no_hint no_raise (plan ++ later) w ≡ run_steps no_hint no_raise d later w'
unfolding run_plan
run_plan-append no_hint no_raise plan later d w w' h free =
    run_steps-append no_hint no_raise plan later [] d w w' refl h free
