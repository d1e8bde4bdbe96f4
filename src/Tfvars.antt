-- ===== src/Tfvars.antt =====
-- sunbeam-python/sunbeam/core/terraform.py: how the variables of a terraform plan are computed from
-- those stored in the cluster database, from the manifest and from the values given by the caller.
-- The stored item is a dictionary of variables with the list "_computed_keys" of those that did not
-- come from the manifest.
pub mod Steps
mod Entries
mod Sources
pub mod Precedence
pub mod Persistence
mod Samples
use snap_openstack.Prelude.{
  String, Bool, true, false, not, ◌&&◌, ◌||◌, Option, none, some, List, [], ◌∷◌, ◌++◌, elem, return,
  raise, ◌==◌, string_eq, if◌then◌else◌,
}
use snap_openstack.Dict
use snap_openstack.Dict.{Dict, keys}
use snap_openstack.Value.{
  Value, str, list, dict, Items, nil, cons, Fields, end, field, get_field, set_field, has_field,
  update_fields, truthy,
}
use snap_openstack.Manifest.{Manifest, find_charm}
use snap_openstack.Config.{Store, read_config, update_config}

-- versions.py: for each charm, the variable of each attribute, and the variables to preserve.
pub record VarMap : Type 0 where
  pub charms : Dict (Dict String)
  pub preserve : List String

-- A set of names, as a list with no repetition.
unfoldable pub add_name : String → List String → List String
add_name k ks = if elem k ks then ks else k ∷ ks

-- `TerraformHelper._get_charm_config_keys`
unfoldable pub charm_config_keys : Dict (Dict String) → List String
unfolding add_name
charm_config_keys [] = []
charm_config_keys ((charm, attributes) ∷ charms) =
    let rest = charm_config_keys charms in
    elim (Dict.get "config" attributes) [
      | none ↦ rest
      | some key ↦ if key == "" then rest else add_name key rest
    ]

unfoldable pub values : Dict String → List String
values [] = []
values ((k, v) ∷ d) = v ∷ values d

-- An empty list of charms asks for all of them.
unfoldable pub is_wanted : String → List String → Bool
is_wanted charm [] = true
is_wanted charm (w ∷ ws) = elem charm (w ∷ ws)

-- `TerraformHelper._get_tfvar_names`
unfoldable pub get_tfvar_names : Dict (Dict String) → List String → List String
get_tfvar_names [] wanted = []
get_tfvar_names ((charm, attributes) ∷ charms) wanted =
    let rest = get_tfvar_names charms wanted in
    if is_wanted charm wanted then values attributes ++ rest else rest

-- The attributes of one charm that have a true value in the manifest.
unfoldable pub charm_tfvars : (dump : Fields) → Dict String → Fields → Fields
charm_tfvars dump [] tfvars = tfvars
charm_tfvars dump ((attribute, name) ∷ attributes) tfvars =
    charm_tfvars dump attributes (elim (get_field attribute dump) [
      | none ↦ tfvars
      | some v ↦ if truthy v then set_field name v tfvars else tfvars
    ])

-- The loop of `TerraformHelper._get_tfvars`, which looks a charm up as `Manifest.find_charm` does.
unfoldable pub add_tfvars : Manifest → Dict (Dict String) → List String → Fields → Fields
add_tfvars manifest [] wanted tfvars = tfvars
add_tfvars manifest ((charm, attributes) ∷ charms) wanted tfvars =
    add_tfvars manifest charms wanted (
      if is_wanted charm wanted
      then (elim (find_charm charm manifest) [
        | none ↦ tfvars
        | some c ↦ charm_tfvars c.dump attributes tfvars
      ])
      else tfvars)

-- `TerraformHelper._get_tfvars`
unfoldable pub get_tfvars : VarMap → Manifest → List String → Fields
unfolding add_tfvars charm_tfvars
get_tfvars vars manifest wanted = add_tfvars manifest vars.charms wanted end

-- One variable of `TerraformHelper._apply_tfvars`: what stands there afterwards. An empty dictionary
-- clears a charm's configuration, and any other is merged into one that is there.
unfoldable pub applied : Bool → Option Value → Value → Value
applied true (some (dict d)) (dict end) = dict end
applied true (some (dict d)) (dict (field k v u)) = dict (update_fields d (field k v u))
applied charm_config old v = v

-- `TerraformHelper._apply_tfvars`: `target` afterwards.
unfoldable pub apply_tfvars : (config_keys : List String) → Fields → Fields → Fields
unfolding applied
apply_tfvars config_keys target end = target
apply_tfvars config_keys target (field k v source) =
    apply_tfvars config_keys
      (set_field k (applied (elem k config_keys) (get_field k target) v) target) source

-- One key of `TerraformHelper._merge_manifest_into_override`.
unfoldable pub merged_override : Option Value → Option Value → Option Value
merged_override (some (dict o)) (some (dict m)) = some (dict (update_fields o m))
merged_override old _ = none

unfoldable pub set_some : String → Option Value → Fields → Fields
set_some key none d = d
set_some key (some v) d = set_field key v d

-- `TerraformHelper._merge_manifest_into_override`: `override_tfvars` afterwards.
unfoldable pub merge_manifest_into_override : List String → Fields → Fields → Fields
unfolding merged_override set_some
merge_manifest_into_override [] override manifest = override
merge_manifest_into_override (key ∷ ks) override manifest =
    merge_manifest_into_override ks
      (set_some key (merged_override (get_field key override) (get_field key manifest)) override)
      manifest

-- `set(stored_data.get("_computed_keys", []))`, for the lists of texts that the code stores.
unfoldable pub strings : Items → List String
strings nil = []
strings (cons (str s) vs) = s ∷ strings vs
strings (cons v vs) = strings vs

unfoldable pub stored_keys : Fields → Option (List String)
unfolding strings
stored_keys stored = elim (get_field "_computed_keys" stored) [
  | none ↦ none
  | some (list vs) ↦ some (strings vs)
  | some _ ↦ some []
]

-- Before source tracking, the preserve list of the plan stands for the computed variables.
unfoldable pub computed_keys : VarMap → Fields → List String
computed_keys vars stored = elim (stored_keys stored) [ none ↦ vars.preserve | some ks ↦ ks ]

-- The stored variables that are computed or that the manifest cannot give.
unfoldable pub filter_tfvars : (computed derivable : List String) → Fields → Fields
filter_tfvars computed derivable end = end
filter_tfvars computed derivable (field k v stored) =
    let rest = filter_tfvars computed derivable stored in
    if not (k == "_computed_keys") && (elem k computed || not (elem k derivable))
    then field k v rest
    else rest
