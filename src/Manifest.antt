-- ===== src/Manifest.antt =====
-- sunbeam-python/sunbeam/core/manifest.py: the parts of a manifest, their merge, and the lookup of
-- charms and features. A pydantic model is what it answers: `dump` is `model_dump(by_alias=True)`
-- and `model_extra` its further attributes. What pydantic does when a model is built from a
-- dictionary is a parameter, `Validation`.
pub mod Features
pub mod Overlay
pub mod Validate
mod Samples
use snap_openstack.Prelude.{
  String, Bool, Option, none, some, List, [], ◌∷◌, ◌++◌, all, Outcome, return, raise, value_error,
  guard, ◌>>=◌, ◌>>◌, ◌==◌, string_eq, if◌then◌else◌,
}
use snap_openstack.Dict.{Dict, get, set, keys, has, update}
use snap_openstack.Value.{Fields}
use snap_openstack.Merge.{merge_dict}

pub record CharmManifest : Type 0 where
  pub dump : Fields
  pub model_extra : Fields

pub record SoftwareConfig : Type 0 where
  pub juju : Fields
  pub charms : Dict CharmManifest
  pub terraform : Dict String

-- A feature's configuration: an instance of a class of its own.
pub record FeatureConfig : Type 0 where
  pub class_name : String
  pub dump : Fields

pub record FeatureManifest : Type 0 where
  pub config : Option FeatureConfig
  pub software : SoftwareConfig

-- An entry of `features`: a feature, or a group of features.
pub data FeatureEntry : Type 0 where
  feature : FeatureManifest → FeatureEntry
  group : Dict FeatureManifest → FeatureEntry

pub record CoreManifest : Type 0 where
  pub config : Fields
  pub software : SoftwareConfig

pub record Manifest : Type 0 where
  pub core : CoreManifest
  pub features : Dict FeatureEntry
  pub storage : Fields

-- `model_validate` of the three models: the dump of the model that is built, or an exception.
pub record Validation : Type 0 where
  pub juju : Fields → Outcome Fields
  pub core : Fields → Outcome Fields
  pub config : String → Fields → Outcome Fields

-- `all(k in known for k in given)`: `set(given) <= known`
abbrev pub known_keys {ℓ κ} : {A : Type ℓ} {B : Type κ} → Dict A → Dict B → Bool
known_keys given known = all (λ k. has k known) (keys given)

-- `SoftwareConfig.validate_against_default`. With no key given nothing is compared.
unfoldable pub validate_software : SoftwareConfig → SoftwareConfig → Outcome (Unit {0})
validate_software s default =
    guard (known_keys s.terraform default.terraform) value_error
    >> guard (known_keys s.charms default.charms) value_error

-- `merge_dict` of two dictionaries whose values are models or paths: these are true and no mappings,
-- so each entry of the second is set in the first.
unfoldable pub merge_models {ℓ} : {A : Type ℓ} → Dict A → Dict A → Dict A
merge_models d [] = d
merge_models d ((k, v) ∷ u) = merge_models (set k v d) u

-- `Manifest.get_features`
unfoldable pub get_features : Dict FeatureEntry → Dict FeatureManifest
get_features [] = []
get_features ((name, feature f) ∷ fs) = (name, f) ∷ get_features fs
get_features ((name, group g) ∷ fs) = g ++ get_features fs

-- `Manifest.get_feature`: the first feature of that name, inside a group or not.
unfoldable pub get_feature : String → Dict FeatureEntry → Option FeatureManifest
get_feature name [] = none
get_feature name ((n, feature f) ∷ fs) = if n == name then some f else get_feature name fs
get_feature name ((n, group g) ∷ fs) = elim (get name g) [
  | some f ↦ some f
  | none ↦ get_feature name fs
]

-- The charm in the first feature that has it.
unfoldable pub find_in_features : String → Dict FeatureManifest → Option CharmManifest
find_in_features charm [] = none
find_in_features charm ((name, f) ∷ fs) = elim (get charm f.software.charms) [
  | some c ↦ some c
  | none ↦ find_in_features charm fs
]

-- `Manifest.find_charm`
unfoldable pub find_charm : String → Manifest → Option CharmManifest
find_charm charm m = elim (get charm m.core.software.charms) [
  | some c ↦ some c
  | none ↦ find_in_features charm (get_features m.features)
]

module _ (validation : Validation) where
  -- `SoftwareConfig.merge`
  unfoldable pub merge_software : SoftwareConfig → SoftwareConfig → Outcome SoftwareConfig
  merge_software s other = do
    merged ← merge_dict s.juju other.juju
    juju ← validation.juju merged
    return (record {
      juju = juju;
      charms = merge_models s.charms other.charms;
      terraform = merge_models s.terraform other.terraform;
    })

  -- `CoreManifest.merge`
  unfoldable pub merge_core : CoreManifest → CoreManifest → Outcome CoreManifest
  merge_core c other = do
    merged ← merge_dict c.config other.config
    config ← validation.core merged
    software ← merge_software c.software other.software
    return (record { config = config; software = software })

  -- The configuration of `_AddonManifest.merge`.
  unfoldable pub merge_config :
      Option FeatureConfig → Option FeatureConfig → Outcome (Option FeatureConfig)
  merge_config (some c) (some other) = do
    guard (c.class_name == other.class_name) value_error
    merged ← merge_dict c.dump other.dump
    dump ← validation.config c.class_name merged
    return (some (record { class_name = c.class_name; dump = dump }))
  merge_config none other = return other
  merge_config (some c) none = return (some c)

  -- `_AddonManifest.merge`
  unfoldable pub merge_feature : FeatureManifest → FeatureManifest → Outcome FeatureManifest
  merge_feature f other = do
    config ← merge_config f.config other.config
    software ← merge_software f.software other.software
    return (record { config = config; software = software })

  -- One feature of the loop in `FeatureGroupManifest.merge`.
  merge_member : FeatureManifest → Option FeatureManifest → Outcome FeatureManifest
  merge_member f none = return f
  merge_member f (some other) = merge_feature f other

  -- `FeatureGroupManifest.merge`: the features of the first group, merged or as they are.
  unfoldable pub merge_group :
      Dict FeatureManifest → Dict FeatureManifest → Outcome (Dict FeatureManifest)
  unfolding merge_member
  merge_group [] other = return []
  merge_group ((name, f) ∷ g) other = do
    merged ← merge_member f (get name other)
    rest ← merge_group g other
    return ((name, merged) ∷ rest)

  -- One entry of the loop in `Manifest.merge`.
  unfoldable pub merge_entry : FeatureEntry → Option FeatureEntry → Outcome FeatureEntry
  merge_entry entry none = return entry
  merge_entry (group g) (some (group other)) = merge_group g other >>= λ m. return (group m)
  merge_entry (group g) (some (feature other)) = raise value_error
  merge_entry (feature f) (some (feature other)) = merge_feature f other >>= λ m. return (feature m)
  merge_entry (feature f) (some (group other)) = raise value_error

  unfoldable pub merge_entries : Dict FeatureEntry → Dict FeatureEntry → Outcome (Dict FeatureEntry)
  merge_entries [] other = return []
  merge_entries ((name, entry) ∷ fs) other = do
    merged ← merge_entry entry (get name other)
    rest ← merge_entries fs other
    return ((name, merged) ∷ rest)

  -- `Manifest.merge`: storage has no defaults, and is replaced.
  unfoldable pub merge : Manifest → Manifest → Outcome Manifest
  merge m other = do
    core ← merge_core m.core other.core
    features ← merge_entries m.features other.features
    return (record { core = core; features = features; storage = other.storage })

-- `FeatureGroupManifest.validate_againt_default`
unfoldable pub validate_group : Dict FeatureManifest → Dict FeatureManifest → Outcome (Unit {0})
validate_group [] default = return tt
validate_group ((name, f) ∷ g) default = do
  elim (get name default) [ none ↦ return tt | some d ↦ validate_software f.software d.software ]
  validate_group g default

-- One entry of the loop in `Manifest.validate_against_default`.
unfoldable pub validate_entry : FeatureEntry → Option FeatureEntry → Outcome (Unit {0})
validate_entry entry none = return tt
validate_entry (group g) (some (group d)) = validate_group g d
validate_entry (group g) (some (feature d)) = raise value_error
validate_entry (feature f) (some (feature d)) = validate_software f.software d.software
validate_entry (feature f) (some (group d)) = raise value_error

unfoldable pub validate_entries : Dict FeatureEntry → Dict FeatureEntry → Outcome (Unit {0})
validate_entries [] default = return tt
validate_entries ((name, entry) ∷ fs) default = do
  validate_entry entry (get name default)
  validate_entries fs default

-- `Manifest.validate_against_default`
unfoldable pub validate_against_default : Manifest → Manifest → Outcome (Unit {0})
validate_against_default m default = do
  validate_software m.core.software default.core.software
  validate_entries m.features default.features
