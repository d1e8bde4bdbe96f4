-- ===== src/Storage.antt =====
-- sunbeam-python/sunbeam/core/manifest.py: the check that the manifest does not change the sizes of
-- volumes that are deployed (`load_stored_tfvars`, `check_storage_modifications_in_manifest`), and
-- `AddManifestStep`, which stores a manifest.
mod Canonical
mod Unchanged
mod Writing
mod Samples
use snap_openstack.Prelude.{
  ℕ, zero, suc, nat_beq, String, Bool, true, false, not, ◌&&◌, ◌||◌, Option, none, some, List, [],
  ◌∷◌, ◌++◌, Outcome, Exception, return, raise, not_found, unavailable, yaml_error, io_error, ◌==◌,
  string_eq, if◌then◌else◌, ◌>>=◌,
}
use snap_openstack.Dict
use snap_openstack.Dict.{Dict}
use snap_openstack.Value.{
  ℤ, pos, negsuc, Value, null, bool, int, str, list, dict, object, Items, nil, cons, Fields, end,
  field, get_field, set_field,
}
use snap_openstack.Plan.{ResultType, completed, failed, skipped}
use snap_openstack.Manifest.{CharmManifest, Manifest, find_charm}
use snap_openstack.Config.{Store, read_config}
use snap_openstack.Tfvars.{VarMap}

unfoldable pub same_int : ℤ → ℤ → Bool
same_int (pos m) (pos n) = nat_beq m n
same_int (negsuc m) (negsuc n) = nat_beq m n
same_int _ _ = false

-- True is 1 and False is 0.
unfoldable pub int_of : Value → Option ℤ
int_of (int z) = some z
int_of (bool true) = some (pos 1)
int_of (bool false) = some (pos 0)
int_of _ = none

unfoldable pub is_int : Option ℤ → Option ℤ → Bool
unfolding same_int
is_int (some y) (some z) = same_int y z
is_int _ _ = false

unfoldable pub count_fields : Fields → ℕ
count_fields end = 0
count_fields (field k v d) = suc (count_fields d)

-- `==` of values: dictionaries are compared whatever the order of their keys.
unfoldable mutual
  pub same_value : Value → Value → Bool
  same_value null null = true
  same_value (bool b) w = is_int (int_of (bool b)) (int_of w)
  same_value (int z) w = is_int (some z) (int_of w)
  same_value (str s) (str t) = s == t
  same_value (list vs) (list ws) = same_items vs ws
  same_value (dict d) (dict e) = nat_beq (count_fields d) (count_fields e) && fields_in d e
  same_value (object c d) (object c' e) =
      c == c' && nat_beq (count_fields d) (count_fields e) && fields_in d e
  same_value _ _ = false

  pub same_items : Items → Items → Bool
  same_items nil nil = true
  same_items (cons v vs) (cons w ws) = same_value v w && same_items vs ws
  same_items _ _ = false

  pub fields_in : Fields → Fields → Bool
  fields_in end e = true
  fields_in (field k v d) e =
      (elim (get_field k e) [ none ↦ false | some w ↦ same_value v w ]) && fields_in d e

-- The keys of `u` that `d` lacks are added.
unfoldable pub add_missing : Fields → Fields → Fields
add_missing d end = d
add_missing d (field k v u) =
    add_missing (elim (get_field k d) [ none ↦ set_field k v d | some w ↦ d ]) u

-- One variable of a configuration item, on top of what stands there.
unfoldable pub stored_entry : Option Value → Value → Value
unfolding add_missing
stored_entry none v = v
stored_entry (some (dict d)) (dict u) = dict (add_missing d u)
stored_entry (some old) v = old

unfoldable pub add_item : Fields → Fields → Fields
unfolding stored_entry
add_item stored end = stored
add_item stored (field k v config) =
    add_item
      (if k == "_computed_keys"
        then stored
        else set_field k (stored_entry (get_field k stored) v) stored)
      config

-- An item that is missing is passed over.
unfoldable pub add_read : Outcome Fields → Fields → Fields
unfolding add_item
add_read (raise e) stored = stored
add_read (return config) stored = add_item stored config

-- The loop of `load_stored_tfvars`, from what was read so far.
unfoldable pub add_items : Store → Fields → List String → Fields
unfolding add_read
add_items store stored [] = stored
add_items store stored (key ∷ keys) = add_items store (add_read (read_config key store) stored) keys

-- `load_stored_tfvars`
unfoldable pub load_stored_tfvars : Store → List String → Fields
unfolding add_items
load_stored_tfvars store keys = add_items store end keys

-- A key that both dictionaries have, with different values.
unfoldable pub is_changed : (manifest stored : Fields) → Bool
is_changed end stored = false
is_changed (field k v d) stored =
    let rest = is_changed d stored in
    (elim (get_field k stored) [ none ↦ false | some w ↦ not (same_value w v) ]) || rest

unfoldable pub is_modified : (manifest stored : Option Value) → Bool
unfolding is_changed
is_modified (some (dict d)) (some (dict s)) = is_changed d s
is_modified _ _ = false

-- One attribute of one charm: its variable, if it is modified.
unfoldable pub modified_attribute : (stored extra : Fields) → Dict String → String → List String
unfolding is_modified
modified_attribute stored extra attributes attribute = elim (Dict.get attribute attributes) [
  | none ↦ []
  | some name ↦
      if name == ""
      then []
      else (if is_modified (get_field attribute extra) (get_field name stored)
          then name ∷ []
          else [])
]

unfoldable pub modified_charm : (stored : Fields) → Option CharmManifest → Dict String → List String
unfolding modified_attribute
modified_charm stored none attributes = []
modified_charm stored (some c) attributes =
    modified_attribute stored c.model_extra attributes "storage"
    ++ modified_attribute stored c.model_extra attributes "storage-map"

unfoldable pub modified_charms : (stored : Fields) → Manifest → Dict (Dict String) → List String
unfolding modified_charm
modified_charms stored manifest [] = []
modified_charms stored manifest ((charm, attributes) ∷ charms) =
    modified_charm stored (find_charm charm manifest) attributes
    ++ modified_charms stored manifest charms

-- `check_storage_modifications_in_manifest`. Without stored variables nothing is modified.
unfoldable pub check_storage_modifications :
    Store → Manifest → VarMap → (tfvar_config_key : String) → (extra : List String) → List String
unfolding modified_charms
check_storage_modifications store manifest vars key extra =
    modified_charms (load_stored_tfvars store (key ∷ extra)) manifest vars.charms

-- What `AddManifestStep.is_skip` reads: the embedded manifest (with the risk and the version that give its
-- path), the file of the user, and the latest manifest of the cluster. Its text is read only to be compared: a
-- `yaml_error` of `latest` stands for a manifest whose text is not YAML.
pub record Sources : Type 0 where
  pub embedded : Outcome Value
  pub manifest_file : Option (Outcome Value)
  pub clear : Bool
  pub latest : Outcome Value

abbrev pub empty_manifest : Value
empty_manifest =
    dict (field "core" (dict (field "charms" (dict end) (field "terraform" (dict end) end))) end)

-- The content that the user asks for, and the embedded manifest.
unfoldable pub chosen : Sources → Outcome (Option Value × Value)
chosen s = s.embedded >>= λ embedded. elim s.manifest_file [
  | some file ↦ file >>= λ content. return (content_of content, embedded)
  | none ↦ return (if s.clear then some empty_manifest else none, embedded)
]
  where
    content_of : Value → Option Value
    content_of null = none
    content_of v = some v

unfoldable pub decide : Option Value → Value → Outcome Value → Outcome (ResultType × Option Value)
decide (some content) embedded (return latest) =
    return (if same_value latest content then skipped else completed, some content)
decide none embedded (return latest) = return (skipped, none)
decide (some content) embedded (raise not_found) = return (completed, some content)
decide none null (raise not_found) = return (skipped, none)
decide none embedded (raise not_found) = return (completed, some embedded)
decide none embedded (raise yaml_error) = return (skipped, none)
decide content embedded (raise unavailable) = return (failed, content)
decide content embedded (raise e) = raise e

unfoldable pub after_reading :
    Outcome (Option Value × Value) → Outcome Value → Outcome (ResultType × Option Value)
unfolding decide
after_reading (return (content, embedded)) latest = decide content embedded latest
after_reading (raise yaml_error) latest = return (failed, none)
after_reading (raise io_error) latest = return (failed, none)
after_reading (raise e) latest = raise e

-- `AddManifestStep.is_skip`: the result, and the content that `run` would write.
unfoldable pub is_skip : Sources → Outcome (ResultType × Option Value)
unfolding chosen after_reading
is_skip s = after_reading (chosen s) s.latest
