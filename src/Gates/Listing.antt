-- ===== src/Gates/Listing.antt =====
-- sunbeam-python/sunbeam/feature_manager.py, `_check_gate_enabled` and the gates that
-- `list_feature_gates` collects; and the features that are enabled.
use snap_openstack.Prelude.{
  remove_prefix, String, Bool, true, false, Option, [], ◌∷◌, Exception, return, raise, ◌||◌,
  string_eq, if◌then◌else◌,
}
use snap_openstack.Dict
use snap_openstack.Dict.{Dict}
use snap_openstack.Gates.{GateConfig, Snap, GateReader, gate_in_cluster, Gated, snap_flag}

abbrev any_exception : Exception → Bool
any_exception e = true

-- `_check_gate_enabled`
unfoldable pub check_gate_enabled : Option GateReader → Snap → String → Bool
unfolding snap_flag
check_gate_enabled client snap gate_key =
    gate_in_cluster client gate_key
    || (elim (snap_flag any_exception (snap gate_key)) [ raise e ↦ false | return b ↦ b ])

pub data GateKind : Type 0 where
  feature_gate storage_backend feature : GateKind

pub record GateInfo : Type 0 where
  pub kind : GateKind
  pub name : String
  pub unlocked : Bool

module _ (client : Option GateReader) (snap : Snap) where
  -- The three loops of `list_feature_gates`.
  unfoldable pub list_gates : Dict GateConfig → Dict GateInfo → Dict GateInfo
  unfolding check_gate_enabled
  list_gates [] infos = infos
  list_gates ((key, gate) ∷ gates) infos = list_gates gates (
      if gate.generally_available
      then infos
      else (Dict.set key
          (record {
            kind = feature_gate;
            name = remove_prefix key "feature.";
            unlocked = check_gate_enabled client snap key;
          })
          infos))

  unfoldable pub list_gated : GateKind → Dict Gated → Dict GateInfo → Dict GateInfo
  list_gated kind [] infos = infos
  list_gated kind ((name, item) ∷ items) infos = list_gated kind items (
      if item.generally_available
      then infos
      else (Dict.set item.gate_key
          (record {
            kind = kind;
            name = name;
            unlocked = check_gate_enabled client snap item.gate_key;
          })
          infos))

  unfoldable pub list_feature_gates :
      Dict GateConfig → (backends features : Dict Gated) → Dict GateInfo
  unfolding list_gates list_gated
  list_feature_gates gates backends features =
      list_gated feature features (list_gated storage_backend backends (list_gates gates []))
