-- ===== src/Features/Samples.antt =====
-- Three features: "telemetry" is required by "alarms", and one of the group "observability" by "alarms" too.
use snap_openstack.Dict.{get, set}
use snap_openstack.Prelude.{
  not, ◌||◌, String, ◌≡◌, refl, true, false, none, some, List, [], ◌∷◌, Outcome, return, raise, All,
  string_eq, has_requirers, feature_error, lower_ascii,
}
use snap_openstack.Features.{
  anything, Called, get_requirements, Requirement, Feature, Info, State, is_enabled, enable_feature,
  disable_feature, check_feature_class_is_compatible, checked, find,
}
use snap_openstack.Features.Met.{IsSatisfied, is_met_or_optional, IsRegistry}
use snap_openstack.Features.Reached.{
  Covers-self, disabled, start, enabled, Reached-IsSatisfied, enable_feature-enabled,
}

abbrev required : String → Requirement
required n = record { name = n; optional = false; specifier = anything }

abbrev telemetry : Feature
telemetry = record {
  name = "telemetry";
  version = "0.0.1";
  group = none;
  toggles = true;
  requires = [];
}

abbrev embedded : Feature
embedded = record {
  name = "observability.embedded";
  version = "0.0.1";
  group = some "observability";
  toggles = true;
  requires = [];
}

abbrev alarms : Feature
alarms = record {
  name = "alarms";
  version = "0.0.2";
  group = none;
  toggles = true;
  requires = required "telemetry" ∷ required "observability" ∷ [];
}

abbrev all_features : List Feature
all_features = telemetry ∷ embedded ∷ alarms ∷ []

abbrev all_groups : List String
all_groups = "observability" ∷ []

abbrev fine : String → Outcome (Unit {0})
fine name = return tt

abbrev on : String → Info
on version = record { enabled = some "true"; version = some version }

abbrev observed : State
observed = ("observability.embedded", on "0.0.1") ∷ []

-- No feature gate for amphora.
abbrev asked : Feature → List Requirement
asked feature = get_requirements false (return true) feature

-- A plan that fails.
abbrev broken : String → Outcome (Unit {0})
broken name = raise feature_error

abbrev enable_in : Feature → State → Called
enable_in feature state =
    enable_feature all_features all_groups asked fine fine fine 5 feature state

-- The group is never enabled by itself; the feature is, before the group is looked at.
enable_too_early : enable_in alarms [] ≡ (("telemetry", on "0.0.1") ∷ [], raise feature_error)
unfolding enable_feature get find check_feature_class_is_compatible set get_requirements
enable_too_early = refl

enable_alarms : enable_in alarms observed ≡ (
  ("observability.embedded", on "0.0.1") ∷ ("telemetry", on "0.0.1") ∷ ("alarms", on "0.0.2") ∷ [],
  return tt,
)
unfolding enable_feature get lower_ascii find check_feature_class_is_compatible set get_requirements
enable_alarms = refl

disable_required :
    (disable_feature all_features all_groups asked fine fine fine embedded
      (enable_in alarms observed).0).1
    ≡ raise has_requirers
unfolding disable_feature checked get enable_feature lower_ascii find
    check_feature_class_is_compatible set get_requirements
disable_required = refl

registered : IsRegistry all_features
unfolding find
registered = (refl, (refl, (refl, tt)))

-- A feature is enabled, then its disabling fails, then the feature that requires it is enabled.
Reached-IsSatisfied_example :
    IsSatisfied all_features all_groups asked
      (enable_feature all_features all_groups asked fine fine fine 5 alarms
        (disable_feature all_features all_groups asked fine fine broken embedded
          (enable_feature all_features all_groups asked fine fine fine 5 embedded []).0).0).0
unfolding find
Reached-IsSatisfied_example = Reached-IsSatisfied all_features all_groups asked _ registered (
    enabled asked fine fine fine 5 alarms _ (Covers-self asked) refl (
      disabled asked fine fine broken embedded _ (Covers-self asked) refl
        (enabled asked fine fine fine 5 embedded [] (Covers-self asked) refl start)))

nothing_enabled : IsSatisfied all_features all_groups asked []
unfolding find
nothing_enabled = Reached-IsSatisfied all_features all_groups asked [] registered start

-- In a new cluster.
enable_feature-enabled_example :
    (is_enabled "telemetry" (enable_in telemetry []).0 ≡ true)
    × ((not (is_enabled "alarms" []) || is_enabled "alarms" (enable_in telemetry []).0) ≡ true)
    × All
        (λ r. is_met_or_optional all_features all_groups (enable_in telemetry []).0 r ≡ true)
        (asked telemetry)
unfolding find enable_feature get lower_ascii check_feature_class_is_compatible set get_requirements
enable_feature-enabled_example =
    enable_feature-enabled all_features all_groups asked fine fine fine 5 telemetry [] "alarms" refl
      refl nothing_enabled refl
