-- ===== src/Hooks.antt =====
-- sunbeam-python/sunbeam/hooks.py: the configure hook of the snap. The options of the snap are a table by
-- their dotted names. `as_dict` is `snap.config.get_options(...).as_dict()`, and `compare` tells whether
-- two entries of a configuration are equal.
mod Configure
mod Samples
use snap_openstack.Prelude.{
  ℕ, suc, String, Bool, true, false, Option, none, some, List, [], ◌∷◌, Outcome, return, raise,
  unknown_config_key, if◌then◌else◌, string_eq, elem,
}
use snap_openstack.Dict
use snap_openstack.Dict.{Dict, has}
use snap_openstack.Value.{Value, bool, str, Fields, get_field}
use snap_openstack.Gates.{GateConfig, Snap, validate_feature_gate_config}
use snap_openstack.Gates.Sync.{GateClient, sync_feature_gates}

abbrev pub default_config : Dict Value
default_config =
    ("daemon.group", str "snap_daemon")
    ∷ ("daemon.debug", bool false)
    ∷ ("k8s.provider", str "k8s")
    ∷ ("deployment.risk", str "stable")
    ∷ ("deployment.version", str "2026.1")
    ∷ []

abbrev pub option_keys : List String
option_keys = "daemon" ∷ "k8s" ∷ "deployment" ∷ []

-- The loop of `_update_default_config`: `current` are the options before it.
unfoldable pub add_defaults : (current : Dict Value) → Dict Value → Dict Value → Dict Value
add_defaults current [] options = options
add_defaults current ((option, default) ∷ defaults) options =
    add_defaults current defaults
      (if has option current then options else Dict.set option default options)

-- `_update_default_config`
unfoldable pub update_default_config : Dict Value → Dict Value
unfolding add_defaults
update_default_config options = add_defaults options default_config options

-- `snap.config.get`
unfoldable pub snap_reader : Dict Value → Snap
snap_reader options key = elim (Dict.get key options) [
  | none ↦ raise unknown_config_key
  | some v ↦ return v
]

-- What the hook reads and changes: the options, the configuration that was saved last, the cluster's gates,
-- and how often clusterd was restarted.
pub record Host {ℓ} (W : Type ℓ) : Type ℓ where
  pub options : Dict Value
  pub config : Fields
  pub cluster : W
  pub restarts : ℕ

module _ {ℓ} {W : Type ℓ} (client : GateClient W) (gates : Dict GateConfig)
    (as_dict : List String → Dict Value → Outcome Fields)
    (compare : Option Value → Option Value → Bool) where
  -- `_sync_feature_gates_to_cluster`: nothing where there is no connection.
  unfoldable pub sync_to_cluster : (connected : Bool) → Dict Value → W → W
  sync_to_cluster connected options w =
      if connected then sync_feature_gates client gates (as_dict ("feature" ∷ []) options) w else w

  -- The end of `configure`: the configuration is saved, and clusterd restarted if its part has changed.
  unfoldable pub save_config : Outcome Fields → Host W → Outcome (Unit {0}) × Host W
  save_config (raise e) host = (raise e, host)
  save_config (return config) host = (
    return tt,
    record host {
      config = config;
      restarts =
          if compare (get_field "daemon" host.config) (get_field "daemon" config)
          then host.restarts
          else suc host.restarts;
    },
  )

  -- `configure`
  unfoldable pub configure : (connected : Bool) → Host W → Outcome (Unit {0}) × Host W
  unfolding update_default_config sync_to_cluster save_config
  configure connected host =
      let options = update_default_config host.options in
      elim (validate_feature_gate_config gates (snap_reader options)) [
        | raise e ↦ (raise e, record host { options = options })
        | return _ ↦ save_config (as_dict option_keys options) (record host {
          options = options;
          cluster = sync_to_cluster connected options host.cluster;
        })
      ]
