-- ===== src/Risk/Samples.antt =====
-- A snap with the multi-region gate, and the theorems about risk levels and roles.
use snap_openstack.Dict.{get}
use snap_openstack.Prelude.{split, List, String, ◌≡◌, refl, true, [], ◌∷◌, All, return}
use snap_openstack.Value.{bool, truthy}
use snap_openstack.Gates.{Snap, feature_gates, snap_flag, is_feature_gate_enabled}
use snap_openstack.Risk.{control, region_controller, is_role_enabled, validate_roles}
use snap_openstack.Risk.Order.{validate_roles-enabled}

abbrev snap : Snap
snap key = return (bool true)

abbrev upper : String → String
upper s = s

-- The names are distinct.
abbrev distinct : List String → List String
distinct names = names

validate_roles-enabled_example :
    All
      (λ r. is_role_enabled feature_gates (return snap) r ≡ return true)
      (control ∷ region_controller ∷ [])
unfolding validate_roles split is_feature_gate_enabled get snap_flag truthy
validate_roles-enabled_example =
    validate_roles-enabled feature_gates (return snap) upper distinct
      ("CONTROL,REGION_CONTROLLER" ∷ []) (control ∷ region_controller ∷ []) refl
