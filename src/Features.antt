-- ===== src/Features.antt =====
-- sunbeam-python/sunbeam/features/interface/v1/base.py, `EnableDisableFeature`: enabling and disabling of features
-- with the features that they require; features/loadbalancer/feature.py: the requirements of the load balancer.
-- Parameters of a call: the registered features and groups, what `get_requirements` answers for each feature, how the
-- preflight checks end, what the manifest and a feature's class say of its configuration, and how the plans of each
-- feature end, which do not change what clusterd keeps of the features. Versions are compared by the package
-- `packaging`: a specifier is its test of a version.
mod Met
mod Enabling
mod Disabling
mod Depth
mod Reached
mod Samples
use snap_openstack.Prelude.{
  ℕ, zero, suc, String, Bool, true, false, not, ◌||◌, ◌&&◌, Option, none, some, List, [], ◌∷◌, any,
  elem, ◌==◌, string_eq, if◌then◌else◌, Outcome, return, raise, ◌>>=◌, ◌>>◌, guard, Exception,
  recursion_error, feature_error, invalid_requirement, incompatible_version, has_requirers,
  missing_feature, lower_ascii,
}
use snap_openstack.Dict.{Dict, get, set}

pub record Specifier : Type 0 where
  -- `len(specifier) == 0`
  pub is_open : Bool
  pub contains : String → Bool

pub record Requirement : Type 0 where
  pub name : String
  pub optional : Bool
  pub specifier : Specifier

pub record Feature : Type 0 where
  pub name : String
  pub version : String
  pub group : Option String
  -- It is an `EnableDisableFeature`.
  pub toggles : Bool
  pub requires : List Requirement

-- The specifier of a requirement that names no version.
abbrev pub anything : Specifier
anything = record { is_open = true; contains = λ v. true }

-- `LoadbalancerFeature.get_requirements`: whether the gate of amphora is enabled, and the saved answer for amphora,
-- which any exception replaces.
unfoldable pub loadbalancer_requirements : Bool → Outcome Bool → List Requirement
loadbalancer_requirements gate saved =
    let secrets = record { name = "secrets"; optional = false; specifier = anything } ∷ [] in
    if gate
    then elim saved [ return amphora ↦ if amphora then secrets else [] | raise e ↦ secrets ]
    else []

-- `get_requirements`
unfoldable pub get_requirements : Bool → Outcome Bool → Feature → List Requirement
unfolding loadbalancer_requirements
get_requirements gate saved feature =
    if feature.name == "loadbalancer"
    then loadbalancer_requirements gate saved
    else feature.requires

-- What clusterd keeps of a feature.
pub record Info : Type 0 where
  pub enabled : Option String
  pub version : Option String

abbrev pub State : Type 0
State = Dict Info

unfoldable pub is_true : Option String → Bool
is_true none = false
is_true (some s) = lower_ascii s == "true"

unfoldable pub info_enabled : Option Info → Bool
unfolding is_true
info_enabled none = false
info_enabled (some info) = is_true info.enabled

-- `is_enabled`
unfoldable pub is_enabled : String → State → Bool
unfolding info_enabled
is_enabled name state = info_enabled (get name state)

-- `update_feature_info` with the new value of `enabled`.
unfoldable pub update_feature_info : String → Feature → State → State
update_feature_info enabled feature state =
    set feature.name (record { enabled = some enabled; version = some feature.version }) state

unfoldable pub find : String → List Feature → Option Feature
find name [] = none
find name (feature ∷ features) = if feature.name == name then some feature else find name features

unfoldable pub is_group : Option String → String → Bool
is_group none name = false
is_group (some group) name = group == name

-- What is left of a call: the state, and how it ended.
abbrev pub Called : Type 0
Called = State × Outcome (Unit {0})

unfoldable pub then_call : Called → (State → Called) → Called
then_call (state, return t) next = next state
then_call (state, raise e) next = (state, raise e)

-- A check that changes nothing.
unfoldable pub checked : State → Outcome (Unit {0}) → Called
checked state o = (state, o)

-- `fetch_feature_version`, and the test of the version.
unfoldable version_of : Option Info → Outcome String
version_of none = raise missing_feature
version_of (some info) = elim info.version [ none ↦ raise feature_error | some v ↦ return v ]

-- `check_enabled_requirement_is_compatible`, for the name of the enabled feature.
unfoldable pub check_enabled_requirement_is_compatible :
    String → Specifier → State → Outcome (Unit {0})
unfolding version_of
check_enabled_requirement_is_compatible name specifier state =
    if specifier.is_open then return tt else do
      version ← version_of (get name state)
      guard (specifier.contains version) incompatible_version

-- `check_feature_class_is_compatible`: a version and a specifier that is not empty are true.
unfoldable pub check_feature_class_is_compatible : Feature → Specifier → Outcome (Unit {0})
check_feature_class_is_compatible feature specifier =
    if specifier.is_open
    then return tt
    else guard (specifier.contains feature.version) incompatible_version

-- The features of a group that can be enabled, by the names under which they are kept.
unfoldable pub is_member : String → Feature → Bool
unfolding is_group
is_member name feature = is_group feature.group name && feature.toggles

module _ (features : List Feature) (groups : List String) where
  -- The requirement names the feature or its group.
  unfoldable pub concerns : Feature → Requirement → Bool
  unfolding is_group
  concerns self requirement =
      requirement.name == self.name
      || (elem requirement.name groups && is_group self.group requirement.name)

  -- The loop over the requirements of one enabled feature: `true` is the state "disable".
  unfoldable pub check_requirements : Bool → Feature → List Requirement → Outcome (Unit {0})
  unfolding concerns
  check_requirements disable self [] = return tt
  check_requirements disable self (requirement ∷ requirements) =
      let rest = check_requirements disable self requirements in
      if not (concerns self requirement)
      then rest
      else if disable
      then raise has_requirers
      else guard (requirement.specifier.contains self.version) incompatible_version

  module _ (requirements : Feature → List Requirement) where
    unfoldable pub check_features : Bool → Feature → State → List Feature → Outcome (Unit {0})
    unfolding is_enabled check_requirements
    check_features disable self state [] = return tt
    check_features disable self state (feature ∷ others) =
        let rest = check_features disable self state others in
        if feature.toggles && is_enabled feature.name state
        then check_requirements disable self (requirements feature) >> rest
        else rest

    -- `check_enablement_requirements`
    unfoldable pub check_enablement_requirements : Bool → Feature → State → Outcome (Unit {0})
    unfolding check_features
    check_enablement_requirements disable self state = check_features disable self state features

  -- The first enabled feature of a group.
  unfoldable pub first_enabled : String → State → List Feature → Option Feature
  unfolding is_enabled is_member
  first_enabled name state [] = none
  first_enabled name state (feature ∷ others) =
      if is_member name feature && is_enabled feature.name state
      then some feature
      else first_enabled name state others

  unfoldable check_group : Requirement → State → Option Feature → Outcome (Unit {0})
  unfolding check_enabled_requirement_is_compatible
  check_group requirement state none = guard requirement.optional feature_error
  check_group requirement state (some feature) =
      check_enabled_requirement_is_compatible feature.name requirement.specifier state

  -- The turn for a requirement that names a group.
  unfoldable pub require_group : Requirement → State → Outcome (Unit {0})
  unfolding check_group first_enabled
  require_group requirement state =
      guard (any (is_member requirement.name) features) invalid_requirement
      >> check_group requirement state (first_enabled requirement.name state features)

  -- `automatic` answers for a feature's name whether it can be enabled with the manifest's configuration or its
  -- defaults; `enable_one` is `enable_feature`.
  module _ (automatic : String → Outcome (Unit {0})) (enable_one : Feature → State → Called) where
    -- The feature is enabled already, is optional, or is enabled now, by the answers to the first two questions.
    unfoldable pub require_found : Bool → Bool → Requirement → Feature → State → Called
    unfolding check_enabled_requirement_is_compatible checked
    require_found true optional requirement feature state =
        checked state
          (check_enabled_requirement_is_compatible requirement.name requirement.specifier state)
    require_found false true requirement feature state = checked state (return tt)
    require_found false false requirement feature state =
        then_call
          (checked state (
            check_feature_class_is_compatible feature requirement.specifier
            >> automatic feature.name))
          (enable_one feature)

    -- The turn for a requirement that names a feature.
    unfoldable pub require_feature : Requirement → State → Option Feature → Called
    unfolding is_enabled require_found
    require_feature requirement state none = checked state (raise invalid_requirement)
    require_feature requirement state (some feature) =
        if feature.toggles
        then require_found (is_enabled feature.name state) requirement.optional requirement feature
            state
        else checked state (raise invalid_requirement)

    unfoldable pub require_one : Requirement → State → Called
    unfolding require_group require_feature
    require_one requirement state =
        if elem requirement.name groups
        then checked state (require_group requirement state)
        else require_feature requirement state (find requirement.name features)

    -- `enable_requirements`
    unfoldable pub enable_requirements : List Requirement → State → Called
    unfolding require_one
    enable_requirements [] state = checked state (return tt)
    enable_requirements (requirement ∷ requirements) state =
        then_call (require_one requirement state) (enable_requirements requirements)

  -- For each feature the preflight check, and the plans with the handlers around them.
  module _ (requirements : Feature → List Requirement)
      (preflight automatic run_plans : String → Outcome (Unit {0})) where
    -- `enable_feature`: the fuel bounds how deep it calls itself. Python bounds all nested calls, of which each such
    -- call has several; it raises the same error.
    unfoldable pub enable_feature : ℕ → Feature → State → Called
    unfolding enable_requirements check_enablement_requirements update_feature_info then_call
    enable_feature zero self state = (state, raise recursion_error)
    enable_feature (suc fuel) self state =
        then_call
          (checked state
            (preflight self.name >> check_enablement_requirements requirements false self state))
          (λ start.
            then_call
              (enable_requirements automatic (enable_feature fuel) (requirements self) start)
              (λ ready.
                then_call (checked ready (run_plans self.name))
                  (λ done. (update_feature_info "true" self done, return tt))))

    -- `disable_feature`
    unfoldable pub disable_feature : Feature → State → Called
    unfolding check_enablement_requirements update_feature_info then_call
    disable_feature self state =
        then_call
          (checked state
            (preflight self.name >> check_enablement_requirements requirements true self state))
          (λ start.
            then_call (checked start (run_plans self.name))
              (λ done. (update_feature_info "false" self done, return tt)))
