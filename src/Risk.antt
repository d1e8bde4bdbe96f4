-- ===== src/Risk.antt =====
-- sunbeam-python/sunbeam/core/common.py, `RiskLevel`, `infer_risk`, `infer_version` and the roles.
mod Order
mod Samples
use snap_openstack.Prelude.{
  ◌++◌, split, String, Bool, true, false, not, ◌&&◌, ◌||◌, Option, none, some, List, [], ◌∷◌,
  Outcome, return, raise, unknown_config_key, key_error, bad_parameter, ◌>>=◌, guard, ◌>>◌, ◌==◌,
  string_eq, if◌then◌else◌,
}
use snap_openstack.Value.{Value, str}
use snap_openstack.Gates.{GateConfig, Snap, is_feature_gate_enabled}
use snap_openstack.Dict.{Dict}

pub data RiskLevel : Type 0 where
  stable candidate beta edge : RiskLevel

unfoldable pub risk_name : RiskLevel → String
risk_name stable = "stable"
risk_name candidate = "candidate"
risk_name beta = "beta"
risk_name edge = "edge"

-- The loop of `RiskLevel.__lt__`.
unfoldable pub comes_first : List String → String → String → Bool
comes_first [] self other = false
comes_first (elem ∷ ordering) self other =
    let rest = comes_first ordering self other in
    if self == elem then true else (if other == elem then false else rest)

abbrev pub ordering : List String
ordering = "stable" ∷ "candidate" ∷ "beta" ∷ "edge" ∷ []

-- `RiskLevel.__eq__` and `RiskLevel.__lt__`, and the comparisons by means of them.
unfoldable pub risk_eq : RiskLevel → String → Bool
unfolding risk_name
risk_eq self other = risk_name self == other

unfoldable pub risk_lt : RiskLevel → String → Bool
unfolding risk_eq risk_name comes_first
risk_lt self other =
    if risk_eq self other then false else comes_first ordering (risk_name self) other

unfoldable pub risk_le : RiskLevel → String → Bool
unfolding risk_lt risk_eq
risk_le self other = risk_lt self other || risk_eq self other

unfoldable pub risk_gt : RiskLevel → String → Bool
unfolding risk_lt risk_eq
risk_gt self other = not (risk_lt self other) && not (risk_eq self other)

unfoldable pub risk_ge : RiskLevel → String → Bool
unfolding risk_lt risk_eq
risk_ge self other = not (risk_lt self other) || risk_eq self other

unfoldable pub risk_of : Value → RiskLevel
risk_of (str s) =
    if s == "candidate"
    then candidate
    else (if s == "beta" then beta else (if s == "edge" then edge else stable))
risk_of v = stable

-- `infer_risk`
unfoldable pub infer_risk : Snap → Outcome RiskLevel
unfolding risk_of
infer_risk snap = elim (snap "deployment.risk") [
  | return v ↦ return (risk_of v)
  | raise unknown_config_key ↦ return stable
  | raise e ↦ raise e
]

pub data Role : Type 0 where
  control compute storage network region_controller : Role

abbrev pub all_roles : List Role
all_roles = control ∷ compute ∷ storage ∷ network ∷ region_controller ∷ []

-- `role.name.lower()`
unfoldable pub role_name : Role → String
role_name control = "control"
role_name compute = "compute"
role_name storage = "storage"
role_name network = "network"
role_name region_controller = "region_controller"

-- `role.name`
unfoldable pub role_member : Role → String
role_member control = "CONTROL"
role_member compute = "COMPUTE"
role_member storage = "STORAGE"
role_member network = "NETWORK"
role_member region_controller = "REGION_CONTROLLER"

unfoldable pub roles_to_str_list : List Role → List String
unfolding role_name
roles_to_str_list [] = []
roles_to_str_list (r ∷ rs) = role_name r ∷ roles_to_str_list rs

-- `ROLE_GATES`
unfoldable pub role_gate : Role → Option String
role_gate region_controller = some "feature.multi-region"
role_gate _ = none

-- `Role[name.upper()]`. The case of letters is a parameter: `upper` is Python's.
unfoldable pub find_role : (upper : String → String) → String → List Role → Option Role
unfolding role_member
find_role upper name [] = none
find_role upper name (role ∷ roles) =
    let rest = find_role upper name roles in
    if upper name == role_member role then some role else rest

-- The names in the values, which commas separate.
unfoldable pub role_names : List String → List String
role_names [] = []
role_names (value ∷ values) = split b',' value ++ role_names values

module _ (gates : Dict GateConfig) (open_snap : Outcome Snap) where
  -- `_is_role_enabled`
  unfoldable pub is_role_enabled : Role → Outcome Bool
  unfolding role_gate
  is_role_enabled role = elim (role_gate role) [
    | none ↦ return true
    | some key ↦ is_feature_gate_enabled gates open_snap key
  ]

  unfoldable pub enabled_roles : List Role → Outcome (List String)
  unfolding role_name
  enabled_roles [] = return []
  enabled_roles (role ∷ roles) = do
    enabled ← is_role_enabled role
    rest ← enabled_roles roles
    return (if enabled then role_name role ∷ rest else rest)

  -- `Role.enabled_values`
  unfoldable pub enabled_values : Outcome (List String)
  unfolding enabled_roles
  enabled_values = enabled_roles all_roles

  -- One name of `validate_roles`. An unknown name asks for the enabled roles before it is refused.
  unfoldable pub accept_role : Option Role → (rest : Outcome (List Role)) → Outcome (List Role)
  unfolding is_role_enabled enabled_values
  accept_role none rest = enabled_values >>= λ valid. raise bad_parameter
  accept_role (some role) rest = do
    enabled ← is_role_enabled role
    guard enabled bad_parameter
    roles ← rest
    return (role ∷ roles)

  -- The loop over the names.
  unfoldable pub validate_names : (upper : String → String) → List String → Outcome (List Role)
  unfolding find_role accept_role
  validate_names upper [] = return []
  validate_names upper (name ∷ names) =
      accept_role (find_role upper name all_roles) (validate_names upper names)

  -- `validate_roles`: `elements` gives the elements of the set of some names, in the order of Python's set.
  unfoldable pub validate_roles :
      (upper : String → String)
      → (elements : List String → List String) → List String
      → Outcome (List Role)
  unfolding validate_names role_names
  validate_roles upper elements values = validate_names upper (elements (role_names values))
