-- ===== src/Gates/Samples.antt =====
-- Three gates, a snap and a cluster that keeps a table of gates, and the theorems about them.
use snap_openstack.Prelude.{
  String, ◌≡◌, refl, ◌⊎◌, inl, inr, Bool, true, false, none, some, [], ◌∷◌, Outcome, return, raise,
  not_found, unknown_config_key, ◌==◌, string_eq, if◌then◌else◌, Option, arith,
}
use snap_openstack.Dict
use snap_openstack.Dict.{Dict, get-set}
use snap_openstack.Value.{
  bool, str, dict, list, nil, cons, Fields, end, field, truthy, set_field, get_field,
}
use snap_openstack.Gates.{
  GateConfig, Snap, GateReader, Gated, is_on, gate_states, validate_feature_gate_config, snap_flag,
  is_empty, violations, is_available,
}
use snap_openstack.Gates.Sync.{
  GateClient, sync_feature_gates, put_all, flatten_items, is_written, check_dependencies,
  requirements, gate_key_of, is_dep_enabled, flatten_dict,
}
use snap_openstack.Gates.Requires.{direct, through, validate-Requires}
use snap_openstack.Gates.SyncState.{
  IsGateClient, sync_feature_gates-settled, sync_feature_gates-required, settled,
}

abbrev gates : Dict GateConfig
gates =
    ("feature.a", record { generally_available = false; requires = "feature.b" ∷ [] })
    ∷ ("feature.b", record { generally_available = false; requires = "feature.c" ∷ [] })
    ∷ ("feature.c", record { generally_available = true; requires = [] })
    ∷ []

abbrev all_on : Snap
all_on key = return (bool true)

abbrev only_a : Snap
only_a key = if key == "feature.a" then return (bool true) else raise unknown_config_key

program : Unit {0}
unfolding gate_states validate_feature_gate_config is_on Dict.get
program = tt

validate-Requires_example :
    is_on "feature.c" (("feature.a", true) ∷ ("feature.b", true) ∷ ("feature.c", true) ∷ []) ≡ true
unfolding program snap_flag truthy is_empty violations
validate-Requires_example =
    validate-Requires gates all_on
      (("feature.a", true) ∷ ("feature.b", true) ∷ ("feature.c", true) ∷ []) "feature.a" "feature.c"
      refl refl
      (through (record { generally_available = false; requires = "feature.c" ∷ [] }) "feature.b"
        "feature.c"
        (direct (record { generally_available = false; requires = "feature.b" ∷ [] }) "feature.b"
          refl refl)
        refl refl)
      refl

abbrev reader : GateReader
reader = record {
  get_feature_gate = λ key. if key == "feature.a" then return true else raise not_found;
  get_config = λ key. return (list (cons (str "ceph") nil));
}

abbrev item : Gated
item = record { generally_available = false; name = "b"; gate_key = "feature.b" }

abbrev item_a : Gated
item_a = record { generally_available = false; name = "a"; gate_key = "feature.a" }

-- A cluster whose state is the table of its gates.
abbrev table : GateClient (Dict Bool)
table = record {
  get_feature_gate = λ k w. elim (Dict.get k w) [ none ↦ raise not_found | some b ↦ return b ];
  add_feature_gate = λ k c w. return (Dict.set k c w);
  update_feature_gate = λ k c w. return (Dict.set k c w);
}

abbrev answer : Option Bool → Outcome Bool
answer o = elim o [ none ↦ raise not_found | some b ↦ return b ]

answers-table :
    (o : Option Bool) → (answer o ≡ raise not_found) ⊎ ((b : Bool) × (answer o ≡ return b))
answers-table none = inl refl
answers-table (some b) = inr (b, refl)

get-table :
    (k : String) (c : Bool) (w : Dict Bool) (j : String)
    → table.get_feature_gate j (Dict.set k c w)
      ≡ (if k == j then return c else table.get_feature_gate j w)
get-table k c w j = ground (arith, get-set k j c w)

table-IsGateClient : IsGateClient table
table-IsGateClient = record {
  answers = λ k w. answers-table (Dict.get k w);
  updated = λ k b c w h. (Dict.set k c w, refl, get-table k c w);
  added = λ k c w h. (Dict.set k c w, refl, get-table k c w);
}

abbrev options : Fields
options = field "a" (bool true) (field "storage" (dict (field "ceph" (bool true) end)) end)

sync_feature_gates-settled_example :
    table.get_feature_gate "feature.storage.ceph"
      (sync_feature_gates table gates (return options) [])
    ≡ return true
unfolding program settled flatten_dict put_all flatten_items set_field is_written truthy is_empty
    check_dependencies requirements gate_key_of
sync_feature_gates-settled_example =
    sync_feature_gates-settled table gates options [] "feature.storage.ceph" table-IsGateClient

sync_feature_gates-required_example :
    table.get_feature_gate "feature.a" (("feature.a", true) ∷ []) ≡ return true
unfolding program is_empty check_dependencies requirements is_available is_dep_enabled get_field
    flatten_dict put_all flatten_items set_field sync_feature_gates truthy gate_key_of Dict.set
sync_feature_gates-required_example =
    sync_feature_gates-required table gates options (("feature.a", true) ∷ []) "feature.a"
      table-IsGateClient refl refl
