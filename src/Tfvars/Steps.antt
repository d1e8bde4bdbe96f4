-- ===== src/Tfvars/Steps.antt =====
-- sunbeam-python/sunbeam/core/terraform.py, `update_tfvars` and `update_partial_tfvars_and_apply_tf`,
-- up to the run of terraform. What is written to the variables file is what they return.
use snap_openstack.Prelude.{
  String, Bool, Option, none, some, List, [], ◌∷◌, ◌++◌, elem, return, raise, ◌==◌, string_eq,
  if◌then◌else◌,
}
use snap_openstack.Value.{str, list, Items, nil, cons, Fields, end, field, set_field}
use snap_openstack.Manifest.{Manifest}
use snap_openstack.Config.{Store, read_config, update_config}
use snap_openstack.Tfvars.{
  VarMap, charm_config_keys, get_tfvar_names, get_tfvars, apply_tfvars,
  merge_manifest_into_override, computed_keys, filter_tfvars,
}

-- The computed variables and the stored values that are kept.
pub record Loaded : Type 0 where
  pub computed : List String
  pub tfvars : Fields

abbrev nothing : Loaded
nothing = record { computed = []; tfvars = end }

unfoldable pub filter_stored : VarMap → List String → Fields → Loaded
filter_stored vars derivable stored =
    let computed = computed_keys vars stored in
    record { computed = computed; tfvars = filter_tfvars computed derivable stored }

-- `_load_and_filter_db_tfvars`, and with a list of charms `_load_and_filter_db_tfvars_for_charms`.
-- There is no item to read without a name, nor before the first write.
unfoldable pub load_tfvars : VarMap → Option String → List String → Store → Loaded
unfolding filter_stored
load_tfvars vars none charms store = nothing
load_tfvars vars (some name) charms store =
    if name == "" then nothing else (elim (read_config name store) [
      | raise e ↦ nothing
      | return stored ↦ filter_stored vars (get_tfvar_names vars.charms charms) stored
    ])

unfoldable pub field_names : Fields → List String
field_names end = []
field_names (field k v d) = k ∷ field_names d

-- `computed_keys.update(names)`
unfoldable pub add_names : List String → List String → List String
add_names computed [] = computed
add_names computed (k ∷ ks) =
    add_names (if elem k computed then computed else computed ++ k ∷ []) ks

unfoldable pub text_items : List String → Items
text_items [] = nil
text_items (k ∷ ks) = cons (str k) (text_items ks)

-- The item that is saved: the variables and the names of the computed ones.
unfoldable pub saved_item : List String → Fields → Fields
unfolding text_items
saved_item computed tfvars = set_field "_computed_keys" (list (text_items computed)) tfvars

unfoldable pub save_tfvars : Option String → List String → Fields → Store → Store
save_tfvars none computed tfvars store = store
save_tfvars (some name) computed tfvars store =
    if name == "" then store else update_config name (saved_item computed tfvars) store

pub record Updated : Type 0 where
  pub tfvars : Fields
  pub override_tfvars : Fields
  pub computed : List String

-- Steps 1 to 3 of `update_tfvars`: the variables, the caller's dictionary, which is changed in place,
-- and the computed variables.
unfoldable pub combine_tfvars : VarMap → Manifest → Loaded → (override : Fields) → Updated
combine_tfvars vars manifest loaded override =
    let config_keys = charm_config_keys vars.charms in
    let from_manifest = get_tfvars vars manifest [] in
    let tfvars = apply_tfvars config_keys loaded.tfvars from_manifest in
    let merged = merge_manifest_into_override config_keys override from_manifest in
    record {
      tfvars = apply_tfvars config_keys tfvars merged;
      override_tfvars = merged;
      computed = add_names loaded.computed (field_names override);
    }

-- `TerraformHelper.update_tfvars`
unfoldable pub update_tfvars :
    VarMap
    → Manifest
    → Option String
    → (override : Fields) → (persist : Bool) → Store
    → Updated × Store
unfolding combine_tfvars save_tfvars
update_tfvars vars manifest tfvar_config override persist store =
    let updated = combine_tfvars vars manifest (load_tfvars vars tfvar_config [] store) override in
    (
      updated,
      if persist then save_tfvars tfvar_config updated.computed updated.tfvars store else store,
    )

-- `TerraformHelper.update_partial_tfvars_and_apply_tf`: the variables that are applied, and the store.
unfoldable pub update_partial_tfvars :
    VarMap → Manifest → (charms : List String) → Option String → Store → Fields × Store
unfolding save_tfvars
update_partial_tfvars vars manifest charms tfvar_config store =
    let loaded = load_tfvars vars tfvar_config charms store in
    let tfvars =
      apply_tfvars (charm_config_keys vars.charms) loaded.tfvars
        (get_tfvars vars manifest charms) in
    (tfvars, save_tfvars tfvar_config loaded.computed tfvars store)
