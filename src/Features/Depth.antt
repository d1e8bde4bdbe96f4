-- ===== src/Features/Depth.antt =====
-- How deep the enabling of a feature calls itself.
use snap_openstack.Features.Met.{find-name, All-find}
use snap_openstack.Prelude.{
  ℕ, zero, suc, ◌<◌, arith, sym, ap, ◌∙◌, subst, String, ◌≡◌, ◌≢◌, refl, Bool, true, false, Option,
  none, some, List, [], ◌∷◌, any, elem, string_eq, if◌then◌else◌, Outcome, return, raise, ◌>>=◌,
  ◌>>◌, guard, Exception, recursion_error, All, feature_error, invalid_requirement,
  incompatible_version,
}
use snap_openstack.Dict.{get}
use snap_openstack.Features.{
  enable_feature, check_enablement_requirements, Requirement, Specifier, Feature, Info, State,
  Called, is_enabled, find, is_member, then_call, checked, version_of,
  check_enabled_requirement_is_compatible, check_feature_class_is_compatible, check_requirements,
  check_features, first_enabled, check_group, require_group, require_found, require_feature,
  require_one, enable_requirements,
}

-- A call does not run out of fuel.
abbrev IsShallow : Outcome (Unit {0}) → Type 0
IsShallow o = o ≢ raise recursion_error

bind-IsShallow :
    (o : Outcome (Unit {0})) (p : Outcome (Unit {0}))
    → IsShallow o
    → IsShallow p
    → IsShallow (o >> p)
bind-IsShallow (return t) p h k = k
bind-IsShallow (raise e) p h k = λ r. h (cc r)

guard-IsShallow : (b : Bool) (e : Exception) → IsShallow (raise e) → IsShallow (guard b e)
guard-IsShallow true e h = λ r. cc
guard-IsShallow false e h = λ r. h (cc r)

if-IsShallow :
    (b : Bool) (o p : Outcome (Unit {0}))
    → IsShallow o
    → IsShallow p
    → IsShallow (if b then o else p)
if-IsShallow true o p h k = h
if-IsShallow false o p h k = k

then_call-IsShallow :
    (call : Called) (next : State → Called)
    → IsShallow call.1
    → ((state : State) → IsShallow (next state).1)
    → IsShallow (then_call call next).1
unfolding then_call
then_call-IsShallow (state, return t) next h k = k state
then_call-IsShallow (state, raise e) next h k = h

version_test-IsShallow :
    (specifier : Specifier) (o : Option Info)
    → IsShallow (version_of o >>= λ v. guard (specifier.contains v) incompatible_version)
unfolding version_of
version_test-IsShallow specifier none = λ r. cc
version_test-IsShallow specifier (some info) = go info.version
  where
    go :
        (v : Option String)
        → IsShallow (
            (elim v [ none ↦ raise feature_error | some w ↦ return w ]) >>= λ w.
            guard (specifier.contains w) incompatible_version)
    go none = λ r. cc
    go (some w) = guard-IsShallow (specifier.contains w) incompatible_version (λ r. cc)

compatible-IsShallow :
    (name : String) (specifier : Specifier) (state : State)
    → IsShallow (check_enabled_requirement_is_compatible name specifier state)
unfolding check_enabled_requirement_is_compatible
compatible-IsShallow name specifier state =
    if-IsShallow specifier.is_open (return tt) _ (λ r. cc)
      (version_test-IsShallow specifier (get name state))

module _ (features : List Feature) (groups : List String) where
  check_requirements-IsShallow :
      (self : Feature) (rs : List Requirement)
      → IsShallow (check_requirements features groups false self rs)
  unfolding check_requirements
  check_requirements-IsShallow self [] = λ r. cc
  check_requirements-IsShallow self (q ∷ rs) =
      if-IsShallow _ _ _ (check_requirements-IsShallow self rs)
        (guard-IsShallow (q.specifier.contains self.version) incompatible_version (λ r. cc))

  check_features-IsShallow :
      (requirements : Feature → List Requirement) (self : Feature) (state : State)
      (fs : List Feature)
      → IsShallow (check_features features groups requirements false self state fs)
  unfolding check_features
  check_features-IsShallow requirements self state [] = λ r. cc
  check_features-IsShallow requirements self state (f ∷ fs) =
      if-IsShallow _ _ _
        (bind-IsShallow (check_requirements features groups false self (requirements f)) _
          (check_requirements-IsShallow self (requirements f))
          (check_features-IsShallow requirements self state fs))
        (check_features-IsShallow requirements self state fs)

  check_group-IsShallow :
      (q : Requirement) (state : State) (o : Option Feature)
      → IsShallow (check_group features groups q state o)
  unfolding check_group
  check_group-IsShallow q state none = guard-IsShallow q.optional feature_error (λ r. cc)
  check_group-IsShallow q state (some f) = compatible-IsShallow f.name q.specifier state

  require_group-IsShallow :
      (q : Requirement) (state : State) → IsShallow (require_group features groups q state)
  unfolding require_group
  require_group-IsShallow q state =
      bind-IsShallow (guard (any (is_member q.name) features) invalid_requirement) _
        (guard-IsShallow _ invalid_requirement (λ r. cc))
        (check_group-IsShallow q state (first_enabled features groups q.name state features))

  module _ (automatic : String → Outcome (Unit {0})) (enable_one : Feature → State → Called)
      (shallow : (name : String) → IsShallow (automatic name)) where
    require_found-IsShallow :
        (is_on optional : Bool) (q : Requirement) (f : Feature) (state : State)
        → ((s : State) → IsShallow (enable_one f s).1)
        → IsShallow (require_found features groups automatic enable_one is_on optional q f state).1
    unfolding require_found checked check_feature_class_is_compatible
    require_found-IsShallow true optional q f state h =
        compatible-IsShallow q.name q.specifier state
    require_found-IsShallow false true q f state h = λ r. cc
    require_found-IsShallow false false q f state h =
        then_call-IsShallow _ (enable_one f)
          (bind-IsShallow (check_feature_class_is_compatible f q.specifier) (automatic f.name)
            (if-IsShallow q.specifier.is_open (return tt) _ (λ r. cc)
              (guard-IsShallow (q.specifier.contains f.version) incompatible_version (λ r. cc)))
            (shallow f.name))
          h

    if_called-IsShallow :
        (b : Bool) (x y : Called) → IsShallow x.1 → IsShallow y.1 → IsShallow (if b then x else y).1
    if_called-IsShallow true x y h k = h
    if_called-IsShallow false x y h k = k

    require_feature-IsShallow :
        (q : Requirement) (state : State) (o : Option Feature)
        → ((f : Feature) → o ≡ some f → (s : State) → IsShallow (enable_one f s).1)
        → IsShallow (require_feature features groups automatic enable_one q state o).1
    unfolding require_feature checked
    require_feature-IsShallow q state none h = λ r. cc
    require_feature-IsShallow q state (some f) h =
        if_called-IsShallow f.toggles _ _
          (require_found-IsShallow (is_enabled f.name state) q.optional q f state (h f refl))
          (λ r. cc)

    require_one-IsShallow :
        (q : Requirement) (state : State)
        → ((f : Feature)
            → find q.name features ≡ some f
            → (s : State) → IsShallow (enable_one f s).1)
        → IsShallow (require_one features groups automatic enable_one q state).1
    unfolding require_one checked
    require_one-IsShallow q state h =
        if_called-IsShallow (elem q.name groups) _ _ (require_group-IsShallow q state)
          (require_feature-IsShallow q state (find q.name features) h)

    enable_requirements-IsShallow :
        (rs : List Requirement) (state : State)
        → All
            (λ q.
              (f : Feature)
              → find q.name features ≡ some f
              → (s : State) → IsShallow (enable_one f s).1)
            rs
        → IsShallow (enable_requirements features groups automatic enable_one rs state).1
    unfolding enable_requirements checked
    enable_requirements-IsShallow [] state h = λ r. cc
    enable_requirements-IsShallow (q ∷ rs) state h =
        then_call-IsShallow _ (enable_requirements features groups automatic enable_one rs)
          (require_one-IsShallow q state h.0) (λ s. enable_requirements-IsShallow rs s h.1)

  -- The features that are required come lower in an order than the feature that requires them.
  abbrev IsRanked : (Feature → List Requirement) → (String → ℕ) → Type 0
  IsRanked requirements rank =
      All (λ f. All (λ q. rank q.name < rank f.name) (requirements f)) features

  module _ (requirements : Feature → List Requirement)
      (preflight automatic run_plans : String → Outcome (Unit {0})) (rank : String → ℕ)
      (ranked : IsRanked requirements rank)
      (shallow_preflight : (name : String) → IsShallow (preflight name))
      (shallow_automatic : (name : String) → IsShallow (automatic name))
      (shallow_plans : (name : String) → IsShallow (run_plans name)) where
    lower :
        (fuel : ℕ) (rs : List Requirement) (n : ℕ)
        → n < suc fuel
        → All (λ q. rank q.name < n) rs
        → ((f : Feature)
            → find f.name features ≡ some f
            → rank f.name < fuel
            → (s : State)
            → IsShallow
                (enable_feature features groups requirements preflight automatic run_plans fuel f
                  s).1)
        → All
            (λ q.
              (f : Feature)
              → find q.name features ≡ some f
              → (s : State)
              → IsShallow
                  (enable_feature features groups requirements preflight automatic run_plans fuel f
                    s).1)
            rs
    lower fuel [] n small h k = tt
    lower fuel (q ∷ rs) n small h k = (
      λ f e s.
          let same = find-name q.name features e in
          let here : find f.name features ≡ some f = ap (λ m. find m features) same ∙ e in
          let below : rank f.name < fuel =
            subst (λ m. rank m < fuel) (sym same) (omega (arith, small, h.0)) in
          k f here below s,
      lower fuel rs n small h.1 k,
    )

    -- Where the features that are required have a lower rank than the feature that requires them, the enabling of
    -- a registered feature calls itself at most as often, one call within the other, as the rank says: with more fuel
    -- it does not run out, if no check, configuration or plan does so by itself.
    enable_feature-IsShallow :
        (fuel : ℕ) (self : Feature) (state : State)
        → find self.name features ≡ some self
        → rank self.name < fuel
        → IsShallow
            (enable_feature features groups requirements preflight automatic run_plans fuel self
              state).1
    unfolding enable_feature checked check_enablement_requirements
    enable_feature-IsShallow zero self state here small =
        let bad : ⊥ = omega (arith, small) in elim bad [ ]
    enable_feature-IsShallow (suc fuel) self state here small =
        then_call-IsShallow _ _
          (bind-IsShallow (preflight self.name) _ (shallow_preflight self.name)
            (check_features-IsShallow requirements self state features))
          (λ start.
            then_call-IsShallow _ _
              (enable_requirements-IsShallow automatic
                (enable_feature features groups requirements preflight automatic run_plans fuel)
                shallow_automatic (requirements self) start
                (lower fuel (requirements self) (rank self.name) small
                  (All-find (λ f. All (λ q. rank q.name < rank f.name) (requirements f)) self.name
                    features ranked here)
                  (λ f found below s. enable_feature-IsShallow fuel f s found below)))
              (λ ready. then_call-IsShallow _ _ (shallow_plans self.name) (λ done. λ r. cc)))
