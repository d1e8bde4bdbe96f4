-- ===== src/Gates.antt =====
-- sunbeam-python/sunbeam/feature_gates.py: the gates that hide features, and where their state is
-- read from. The snap's configuration and the cluster's gates are parameters; `FEATURE_GATES` is an
-- argument, `gates`, with the repository's own table as `feature_gates`.
pub mod Sync
pub mod Listing
pub mod Requires
mod Visibility
mod SyncState
mod Samples
use Prim.Native.Nat.{ℕ}
use snap_openstack.Prelude.{
  String, Bool, true, false, not, ◌&&◌, ◌||◌, Option, none, some, List, [], ◌∷◌, ◌++◌, map, any,
  keep, elem, Outcome, Exception, return, raise, guard, ◌>>=◌, feature_gate_error,
  unknown_config_key, snap_ctl_error, not_a_snap, type_error, unavailable, not_found, ◌==◌,
  string_eq, if◌then◌else◌, contains,
}
use snap_openstack.Dict
use snap_openstack.Dict.{Dict}
use snap_openstack.Value.{Value, str, list, dict, Items, nil, cons, truthy, has_field}

-- An entry of `FEATURE_GATES`, with what `get` answers for a key that is missing.
pub record GateConfig : Type 0 where
  pub generally_available : Bool
  pub requires : List String

abbrev pub feature_gates : Dict GateConfig
feature_gates =
    ("feature.multi-region", record { generally_available = false; requires = [] })
    ∷ ("feature.loadbalancer-amphora", record { generally_available = true; requires = [] })
    ∷ []

-- `snap.config.get`
abbrev pub Snap : Type 0
Snap = String → Outcome Value

-- The answer of `bool(snap.config.get(key))` where some exceptions count as false.
unfoldable pub snap_flag : (caught : Exception → Bool) → Outcome Value → Outcome Bool
snap_flag caught (return v) = return (truthy v)
snap_flag caught (raise e) = if caught e then return false else raise e

unfoldable pub is_unknown_key : Exception → Bool
is_unknown_key unknown_config_key = true
is_unknown_key _ = false

unfoldable pub is_snap_error : Exception → Bool
is_snap_error unknown_config_key = true
is_snap_error snap_ctl_error = true
is_snap_error _ = false

unfoldable pub is_available : String → Dict GateConfig → Bool
is_available key gates = elim (Dict.get key gates) [
  | none ↦ false
  | some gate ↦ gate.generally_available
]

-- `is_feature_gate_enabled`. `open_snap` is `Snap()`, or the snap that is given.
unfoldable pub is_feature_gate_enabled : Dict GateConfig → Outcome Snap → String → Outcome Bool
unfolding is_available
is_feature_gate_enabled gates open_snap key =
    if is_available key gates then return true else (elim open_snap [
      | raise not_a_snap ↦ return false
      | raise e ↦ raise e
      | return snap ↦ snap_flag is_snap_error (snap key)
    ])

-- `check_feature_gate`
unfoldable pub check_feature_gate : Dict GateConfig → Outcome Snap → String → Outcome (Unit {0})
check_feature_gate gates open_snap key =
    is_feature_gate_enabled gates open_snap key >>= λ enabled. guard enabled feature_gate_error

-- `_get_feature_gate_states`
unfoldable pub gate_states : Dict GateConfig → Snap → Outcome (Dict Bool)
gate_states [] snap = return []
gate_states ((key, gate) ∷ gates) snap = do
  enabled ← if gate.generally_available then return true else snap_flag is_unknown_key (snap key)
  states ← gate_states gates snap
  return ((key, enabled) ∷ states)

-- `states.get(key, False)`
unfoldable pub is_on : String → Dict Bool → Bool
is_on key states = elim (Dict.get key states) [ none ↦ false | some enabled ↦ enabled ]

-- The requirements of the enabled gates that are not enabled, each with its gate.
unfoldable pub violations : Dict GateConfig → Dict Bool → List (String × String)
unfolding is_on
violations [] states = []
violations ((key, gate) ∷ gates) states =
    (if is_on key states
      then map (λ dep. (key, dep)) (keep (λ dep. not (is_on dep states)) gate.requires)
      else [])
    ++ violations gates states

unfoldable pub is_empty {ℓ} : {A : Type ℓ} → List A → Bool
is_empty [] = true
is_empty (x ∷ xs) = false

-- `validate_feature_gate_config`
unfoldable pub validate_feature_gate_config : Dict GateConfig → Snap → Outcome (Unit {0})
validate_feature_gate_config gates snap = do
  states ← gate_states gates snap
  guard (is_empty (violations gates states)) feature_gate_error

-- `FeatureGatedChoice.__init__`: `_choice_to_gate`.
unfoldable pub gate_choices : String → List String → Dict String → Dict String
gate_choices key [] known = known
gate_choices key (choice ∷ choices) known = gate_choices key choices (Dict.set choice key known)

unfoldable pub choice_to_gate : Dict (List String) → Dict String → Dict String
choice_to_gate [] known = known
choice_to_gate ((key, choices) ∷ gated) known =
    choice_to_gate gated (gate_choices key choices known)

-- `FeatureGatedChoice.__init__`: the choices that are offered.
unfoldable pub enabled_choices :
    (String → Outcome Bool) → Dict String → List String → Outcome (List String)
enabled_choices enabled gate_of [] = return []
enabled_choices enabled gate_of (choice ∷ choices) = do
  offered ← elim (Dict.get choice gate_of) [ none ↦ return true | some key ↦ enabled key ]
  rest ← enabled_choices enabled gate_of choices
  return (if offered then choice ∷ rest else rest)

-- The value of another option of a command: its text, or the texts of its values.
pub data OptionValue : Type 0 where
  missing : OptionValue
  single : String → OptionValue
  several : List String → OptionValue

-- `check_option_value`, and the test of `feature_gate_option_on_value`.
unfoldable pub check_option_value : OptionValue → (expected : List String) → Bool
check_option_value missing expected = false
check_option_value (single value) expected = elem value expected
check_option_value (several values) expected = any (λ e. elem e values) expected

-- `conditional_callback` of `feature_gate_option_on_value`. `callback` is the option's own.
unfoldable pub conditional_callback {ℓ} :
    {A : Type ℓ}
    → (callback : Option (Option A → Outcome (Option A))) → (default : Option A) → OptionValue
    → (trigger_values : List String) → Option A
    → Outcome (Option A)
conditional_callback callback none trigger trigger_values value =
    if check_option_value trigger trigger_values
    then (elim callback [ none ↦ return value | some f ↦ f value ])
    else return none
conditional_callback callback (some d) trigger trigger_values value =
    let given = if check_option_value trigger trigger_values then value else some d in
    elim callback [ none ↦ return given | some f ↦ f given ]

-- The requests of `client.cluster` that read gates. A configuration item is JSON that was decoded.
pub record GateReader : Type 0 where
  pub get_feature_gate : String → Outcome Bool
  pub get_config : String → Outcome Value

unfoldable pub in_items : String → Items → Bool
in_items name nil = false
in_items name (cons (str s) vs) = s == name || in_items name vs
in_items name (cons v vs) = in_items name vs

-- `name in value`
unfoldable pub in_value : String → Value → Outcome Bool
unfolding in_items
in_value name (list vs) = return (in_items name vs)
in_value name (dict d) = return (has_field name d)
in_value name (str s) = return (contains s name)
in_value name _ = raise type_error

unfoldable pub gate_in_cluster : Option GateReader → String → Bool
gate_in_cluster none key = false
gate_in_cluster (some client) key = elim (client.get_feature_gate key) [
  | raise e ↦ false
  | return enabled ↦ enabled
]

-- The items that are enabled in the cluster: without a client, a key or the item there are none.
unfoldable pub is_enabled_item : Option GateReader → Option String → String → Outcome Bool
unfolding in_value
is_enabled_item none config_key name = return false
is_enabled_item (some client) none name = return false
is_enabled_item (some client) (some config_key) name = elim (client.get_config config_key) [
  | raise not_found ↦ return false
  | raise unavailable ↦ return false
  | raise e ↦ raise e
  | return items ↦ in_value name items
]

-- What a feature or a storage backend is gated by: `name` is the `backend_type` of a backend.
pub record Gated : Type 0 where
  pub generally_available : Bool
  pub name : String
  pub gate_key : String

-- `FeatureGateMixin.check_gated`
unfoldable pub check_gated :
    Gated → Option GateReader → Snap → (enabled_config_key : Option String) → Outcome Bool
unfolding gate_in_cluster
check_gated item client snap enabled_config_key =
    if item.generally_available || gate_in_cluster client item.gate_key
    then return false
    else (is_enabled_item client enabled_config_key item.name >>= λ enabled.
        if enabled
        then return false
        else (snap_flag is_unknown_key (snap item.gate_key) >>= λ flag. return (not flag)))
