-- ===== src/Plan/Results.antt =====
-- What the dictionary that `run_plan` returns holds.
use snap_openstack.Prelude.{
  String, ◌≡◌, ◌≢◌, refl, Bool, true, false, ◌||◌, List, [], ◌∷◌, return, arith, ◌==◌, string_eq,
  any, All, subst,
}
use snap_openstack.Dict.{Dict, set, has, has-set, keys}
use snap_openstack.Plan.{
  Result, skipped, Step, Ended, finished, click_exception, Visit, go_on, stop, throw, settle, visit,
  after_skip, after_prompt, ask_prompts, resume, run_steps, run_plan,
}
use snap_openstack.Plan.Stops.{
  any_failed, any_failed-set_ok, any_failed-set_failed, Sound, visit-Sound,
}

-- With exceptions for failures, only unfailed results are returned.
abbrev Unfailed : {M : Type 0} → Ended M → Type 0
Unfailed (finished d) = any_failed d ≡ false
Unfailed _ = Unit

module _ {W M : Type 0} (no_hint : Bool) where
  resume-Unfailed :
      (rest : Dict (Result M) → W → Ended M × W) (name : String) (results : Dict (Result M))
      (v : Visit M × W)
      → Sound v.0
      → any_failed results ≡ false
      → ((d : Dict (Result M)) (w : W) → any_failed d ≡ false → Unfailed (rest d w).0)
      → Unfailed (resume rest false name results v).0
  unfolding resume settle
  resume-Unfailed rest name results (go_on r, w) s ok ih =
      ih _ w (any_failed-set_ok name r results s ok)
  resume-Unfailed rest name results (stop r, w) s ok ih = tt
  resume-Unfailed rest name results (throw e, w) s ok ih = tt

  run_steps-Unfailed :
      (results : Dict (Result M)) (plan : List (Step W M)) (w : W)
      → any_failed results ≡ false
      → Unfailed (run_steps no_hint false results plan w).0
  unfolding run_steps
  run_steps-Unfailed results [] w ok = ok
  run_steps-Unfailed results (step ∷ plan) w ok =
      resume-Unfailed (λ d. run_steps no_hint false d plan) step.class_name results
        (visit no_hint step w) (visit-Sound no_hint step w) ok
        (λ d w' free. run_steps-Unfailed d plan w' free)

  -- The class names of the results before and of the steps that ran, as one test.
  abbrev named : String → Dict (Result M) → List (Step W M) → Bool
  named k results plan = has k results || any (λ s. s.class_name == k) plan

  resume-has :
      (no_raise : Bool) (k : String) (rest : Dict (Result M) → W → Ended M × W) (step : Step W M)
      (plan : List (Step W M)) (results d : Dict (Result M)) (w' : W) (v : Visit M × W)
      → Sound v.0
      → ((r : Dict (Result M)) (w : W) → rest r w ≡ (finished d, w') → has k d ≡ named k r plan)
      → any_failed d ≡ false
      → resume rest no_raise step.class_name results v ≡ (finished d, w')
      → has k d ≡ named k results (step ∷ plan)
  unfolding resume settle
  resume-has no_raise k rest step plan results d w' (go_on r, w) s ih free h =
      ground (arith, ih (set step.class_name r results) w h, has-set step.class_name k r results)
  resume-has no_raise k rest step plan results d w' (stop r, w) s ih free h =
      ground (arith, any_failed-set_failed step.class_name r results s)
  resume-has no_raise k rest step plan results d w' (throw e, w) s ih free h = cc

  run_steps-has :
      (no_raise : Bool) (k : String) (plan : List (Step W M)) (results d : Dict (Result M))
      (w w' : W)
      → any_failed d ≡ false
      → run_steps no_hint no_raise results plan w ≡ (finished d, w')
      → has k d ≡ named k results plan
  unfolding run_steps
  run_steps-has no_raise k [] results d w w' free h = ground arith
  run_steps-has no_raise k (step ∷ plan) results d w w' free h =
      resume-has no_raise k (λ r. run_steps no_hint no_raise r plan) step plan results d w'
        (visit no_hint step w) (visit-Sound no_hint step w)
        (λ r u. run_steps-has no_raise k plan r d u w' free) free h

-- Where failures are raised (`no_raise` is false), a returned dictionary holds no FAILED result.
run_plan-no_failed :
    {W M : Type 0} (no_hint : Bool) (plan : List (Step W M)) (d : Dict (Result M)) (w w' : W)
    → run_plan no_hint false plan w ≡ (finished d, w')
    → any_failed d ≡ false
unfolding run_plan
run_plan-no_failed no_hint plan d w w' h =
    subst (λ o. Unfailed o.0) h (run_steps-Unfailed no_hint [] plan w refl)

-- A dictionary with no FAILED result names exactly the classes of the plan's steps: a class has a
-- result if and only if some step of the plan is of that class.
run_plan-has :
    {W M : Type 0} (no_hint no_raise : Bool) (plan : List (Step W M)) (d : Dict (Result M))
    (w w' : W) (k : String)
    → run_plan no_hint no_raise plan w ≡ (finished d, w')
    → any_failed d ≡ false
    → has k d ≡ any (λ s. s.class_name == k) plan
unfolding run_plan keys
run_plan-has no_hint no_raise plan d w w' k h free =
    run_steps-has no_hint no_raise k plan [] d w w' free h

-- Where failures are not raised, a run ends with a dictionary or with a step's own exception.
abbrev Unraised : {M : Type 0} → Ended M → Type 0
Unraised (click_exception m) = ⊥
Unraised _ = Unit

module _ {W M : Type 0} (no_hint : Bool) where
  resume-Unraised :
      (rest : Dict (Result M) → W → Ended M × W) (name : String) (results : Dict (Result M))
      (v : Visit M × W)
      → ((d : Dict (Result M)) (w : W) → Unraised (rest d w).0)
      → Unraised (resume rest true name results v).0
  unfolding resume settle
  resume-Unraised rest name results (go_on r, w) ih = ih _ w
  resume-Unraised rest name results (stop r, w) ih = tt
  resume-Unraised rest name results (throw e, w) ih = tt

  run_steps-Unraised :
      (results : Dict (Result M)) (plan : List (Step W M)) (w : W)
      → Unraised (run_steps no_hint true results plan w).0
  unfolding run_steps
  run_steps-Unraised results [] w = tt
  run_steps-Unraised results (step ∷ plan) w =
      resume-Unraised (λ d. run_steps no_hint true d plan) step.class_name results
        (visit no_hint step w) (λ d. run_steps-Unraised d plan)

-- With `no_raise`, `run_plan` never raises a `ClickException` of its own.
run_plan-ne-click_exception :
    {W M : Type 0} (no_hint : Bool) (plan : List (Step W M)) (w : W) (m : M)
    → (run_plan no_hint true plan w).0 ≢ click_exception m
unfolding run_plan
run_plan-ne-click_exception no_hint plan w m h =
    subst Unraised h (run_steps-Unraised no_hint [] plan w)

-- A step that has no prompts and answers SKIPPED, leaving the world as it is.
abbrev pub Skips : {W M : Type 0} → W → Step W M → Type 0
Skips {M = M} w step =
    (step.has_prompts w ≡ false)
    × (m : M) × (step.is_skip w ≡ (return (record { result_type = skipped; message = m }), w))

module _ {W M : Type 0} (no_hint no_raise : Bool) where
  visit-Skips :
      (step : Step W M) (w : W)
      → Skips w step
      → (r : Result M) × (visit no_hint step w ≡ (go_on r, w))
  unfolding visit ask_prompts after_prompt after_skip
  visit-Skips step w (quiet, m, skip) =
      (record { result_type = skipped; message = m }, rw (quiet, skip))

  run_steps_skipping :
      (results : Dict (Result M)) (plan : List (Step W M)) (w : W)
      → All (Skips w) plan
      → (run_steps no_hint no_raise results plan w).1 ≡ w
  unfolding run_steps resume
  run_steps_skipping results [] w h = refl
  run_steps_skipping results (step ∷ plan) w (skip, rest) =
      let (r, e) = visit-Skips step w skip in
      rw e (run_steps_skipping (set step.class_name r results) plan w rest)

-- A plan whose steps all answer SKIPPED in the world at hand leaves it as it is, whatever the `run`
-- methods of the steps would do.
run_plan_skipping :
    {W M : Type 0} (no_hint no_raise : Bool) (plan : List (Step W M)) (w : W)
    → All (Skips w) plan
    → (run_plan no_hint no_raise plan w).1 ≡ w
unfolding run_plan
run_plan_skipping no_hint no_raise plan w h = run_steps_skipping no_hint no_raise [] plan w h
