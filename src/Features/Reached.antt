-- ===== src/Features/Reached.antt =====
-- What holds after any sequence of enabling and disabling.
use snap_openstack.Prelude.{
  not, ◌||◌, arith, ◌∷◌, ℕ, String, ◌≡◌, true, some, List, [], Outcome, return, All, string_eq,
}
use snap_openstack.Dict.{get}
use snap_openstack.Features.{
  Requirement, Feature, State, is_enabled, info_enabled, find, enable_feature, disable_feature,
}
use snap_openstack.Features.Met.{
  Covers, IsIn, here, there, IsRegistry, is_met_or_optional, IsSatisfied,
}
use snap_openstack.Features.Enabling.{enable_feature-Sound}
use snap_openstack.Features.Disabling.{disable_feature-IsSatisfied}

module _ (features : List Feature) (groups : List String)
    (needed : Feature → List Requirement) where
  -- The states of clusterd that calls for registered features make, whether or not they return. Each call has
  -- requirements of its own, which cover the needed ones, and its own outcomes of checks and plans.
  pub data Reached : State → Type 0 where
    start : Reached []
    enabled :
        (requirements : Feature → List Requirement)
        (preflight automatic run_plans : String → Outcome (Unit {0})) (fuel : ℕ) (self : Feature)
        (state : State)
        → Covers requirements needed
        → find self.name features ≡ some self
        → Reached state
        → Reached
            (enable_feature features groups requirements preflight automatic run_plans fuel self
              state).0
    disabled :
        (requirements : Feature → List Requirement)
        (preflight automatic run_plans : String → Outcome (Unit {0})) (self : Feature)
        (state : State)
        → Covers requirements needed
        → find self.name features ≡ some self
        → Reached state
        → Reached
            (disable_feature features groups requirements preflight automatic run_plans self
              state).0

  -- After any sequence of calls that enable and disable registered features, failed ones included, and starting with
  -- no enabled feature, where each call has its own outcomes of checks and plans and its own answers of
  -- get_requirements: each requirement that all of these answers give for an enabled feature is met, but for optional
  -- ones. The required feature is enabled, or one feature of the required group.
  pub Reached-IsSatisfied :
      (state : State)
      → IsRegistry features
      → Reached state
      → IsSatisfied features groups needed state
  unfolding is_enabled get info_enabled
  Reached-IsSatisfied _ registry start = λ f found toggles on. cc
  Reached-IsSatisfied _ registry
        (enabled requirements preflight automatic run_plans fuel self state covers found r) =
      (enable_feature-Sound features groups needed requirements preflight automatic run_plans covers
        fuel self state found (Reached-IsSatisfied state registry r)).0
  Reached-IsSatisfied _ registry
        (disabled requirements preflight automatic run_plans self state covers found r) =
      disable_feature-IsSatisfied features groups requirements preflight automatic run_plans needed
        covers self state found registry (Reached-IsSatisfied state registry r)

all-IsIn :
    (rs qs : List Requirement)
    → ((r : Requirement) → IsIn r qs → IsIn r rs)
    → All (λ r. IsIn r rs) qs
all-IsIn rs [] h = tt
all-IsIn rs (q ∷ qs) h = (h q (here qs), all-IsIn rs qs (λ r i. h r (there q qs i)))

pub Covers-self : (requirements : Feature → List Requirement) → Covers requirements requirements
Covers-self requirements f = all-IsIn (requirements f) (requirements f) (λ r i. i)

module _ (features : List Feature) (groups : List String)
    (requirements : Feature → List Requirement)
    (preflight automatic run_plans : String → Outcome (Unit {0})) where
  -- Where the enabling of a registered feature returns, the feature is enabled, its requirements are met, but for
  -- optional ones, and any feature that was enabled before still is, if the requirements of the enabled features
  -- were met before.
  pub enable_feature-enabled :
      (fuel : ℕ) (self : Feature) (state : State) (name : String)
      → find self.name features ≡ some self
      → self.toggles ≡ true
      → IsSatisfied features groups requirements state
      → (enable_feature features groups requirements preflight automatic run_plans fuel self
          state).1
        ≡ return tt
      → (is_enabled self.name
            (enable_feature features groups requirements preflight automatic run_plans fuel self
              state).0
          ≡ true)
        × ((not (is_enabled name state)
              || is_enabled name
                  (enable_feature features groups requirements preflight automatic run_plans fuel
                    self state).0)
            ≡ true)
        × All
            (λ r.
              is_met_or_optional features groups
                (enable_feature features groups requirements preflight automatic run_plans fuel self
                  state).0
                r
              ≡ true)
            (requirements self)
  enable_feature-enabled fuel self state name found toggles h done =
      let (satisfied, keeps, then) =
        enable_feature-Sound features groups requirements requirements preflight automatic run_plans
          (Covers-self requirements) fuel self state found h in
      (then done, ground (arith, keeps name), satisfied self found toggles (then done))
