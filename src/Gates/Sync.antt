-- ===== src/Gates/Sync.antt =====
-- sunbeam-python/sunbeam/hooks.py: the gates of the snap's configuration are written to the cluster.
use snap_openstack.Prelude.{
  String, Bool, true, false, not, ◌&&◌, ◌||◌, none, some, List, [], keep, Outcome, return, raise,
  ◌==◌, string_eq, if◌then◌else◌, starts_with, join, remove_prefix, or_else,
}
use snap_openstack.Dict
use snap_openstack.Dict.{Dict}
use snap_openstack.Value.{Value, dict, Fields, end, field, truthy, set_field, get_field}
use snap_openstack.Gates.{GateConfig, is_available, is_empty}

-- The new key of `flatten_dict`.
unfoldable pub nested_key : String → String → String
nested_key parent key = if parent == "" then key else join parent (join "." key)

-- `dict(items)`
unfoldable pub put_all : Fields → Fields → Fields
put_all d end = d
put_all d (field k v items) = put_all (set_field k v d) items

unfoldable pub append_fields : Fields → Fields → Fields
append_fields end e = e
append_fields (field k v d) e = field k v (append_fields d e)

-- `flatten_dict`: the items that it collects, and the dictionary of them that it returns.
unfoldable pub flatten_items : String → Fields → Fields
unfolding nested_key put_all append_fields
flatten_items parent end = end
flatten_items parent (field k (dict d) rest) =
    append_fields (put_all end (flatten_items (nested_key parent k) d)) (flatten_items parent rest)
flatten_items parent (field k v rest) = field (nested_key parent k) v (flatten_items parent rest)

unfoldable pub flatten_dict : Fields → Fields
flatten_dict d = put_all end (flatten_items "" d)

-- `flattened.get(flat_key, flattened.get(dep_key))`, as a truth value.
unfoldable pub is_dep_enabled : Fields → String → Bool
is_dep_enabled flattened dep =
    elim (or_else (get_field (remove_prefix dep "feature.") flattened) (get_field dep flattened)) [
      | none ↦ false
      | some v ↦ truthy v
    ]

unfoldable pub requirements : String → Dict GateConfig → List String
requirements key gates = elim (Dict.get key gates) [ none ↦ [] | some gate ↦ gate.requires ]

-- `_check_feature_gate_dependencies`
unfoldable pub check_dependencies : Dict GateConfig → String → Fields → List String
check_dependencies gates key flattened =
    keep (λ dep. not (is_available dep gates) && not (is_dep_enabled flattened dep))
      (requirements key gates)

-- The requests of `client.cluster` on gates, against the state `W` of the cluster.
pub record GateClient {ℓ} (W : Type ℓ) : Type ℓ where
  pub get_feature_gate : String → W → Outcome Bool
  pub add_feature_gate : String → Bool → W → Outcome W
  pub update_feature_gate : String → Bool → W → Outcome W

unfoldable pub gate_key_of : String → String
gate_key_of key = if starts_with key "feature." then key else join "feature." key

-- The gates are not enabled while a gate that they require is missing.
unfoldable pub is_written : Dict GateConfig → (flattened : Fields) → String → Value → Bool
is_written gates flattened key v =
    not (truthy v) || is_empty (check_dependencies gates (gate_key_of key) flattened)

unfoldable pub same_flag : Bool → Bool → Bool
same_flag true b = b
same_flag false b = not b

module _ {ℓ} {W : Type ℓ} (client : GateClient W) where
  -- The handler of the inner `try`: a failure is logged.
  unfoldable pub create_gate : String → Bool → W → W
  create_gate key enabled w = elim (client.add_feature_gate key enabled w) [
    | raise e ↦ w
    | return w' ↦ w'
  ]

  -- The update of a gate that is there; a failure leads to the handler too.
  unfoldable pub change_gate : String → Bool → Bool → W → W
  unfolding create_gate
  change_gate key existing enabled w =
      if same_flag existing enabled then w else (elim (client.update_feature_gate key enabled w) [
        | raise e ↦ create_gate key enabled w
        | return w' ↦ w'
      ])

  unfoldable pub write_gate : String → Bool → W → W
  unfolding change_gate create_gate
  write_gate key enabled w = elim (client.get_feature_gate key w) [
    | raise e ↦ create_gate key enabled w
    | return existing ↦ change_gate key existing enabled w
  ]

  -- `sync_feature_gates_from_snap_to_cluster`, its loop
  unfoldable pub sync_gates : Dict GateConfig → (flattened : Fields) → Fields → W → W
  unfolding write_gate is_written
  sync_gates gates flattened end w = w
  sync_gates gates flattened (field key v items) w =
      sync_gates gates flattened items
        (if is_written gates flattened key v then write_gate (gate_key_of key) (truthy v) w else w)

  -- `sync_feature_gates_from_snap_to_cluster`. `options` is the configuration under "feature", or the
  -- exception that reading it raises, which is logged.
  unfoldable pub sync_feature_gates : Dict GateConfig → Outcome Fields → W → W
  unfolding sync_gates
  sync_feature_gates gates (raise e) w = w
  sync_feature_gates gates (return options) w =
      let flattened = flatten_dict options in sync_gates gates flattened flattened w
