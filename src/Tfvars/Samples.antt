-- ===== src/Tfvars/Samples.antt =====
-- A plan with two charms, and the theorems about its variables at two runs.
use snap_openstack.Prelude.{◌≡◌, refl, true, none, some, [], ◌∷◌, or_else}
use snap_openstack.Dict.{get}
use snap_openstack.Value.{str, dict, Fields, end, field, get_field, truthy, set_field}
use snap_openstack.Manifest.{Manifest, SoftwareConfig, find_charm, find_in_features, get_features}
use snap_openstack.Config.{Store, read_config}
use snap_openstack.Tfvars.{
  is_wanted, apply_tfvars, merge_manifest_into_override, VarMap, get_tfvars, charm_config_keys,
  truthy, set_field,
}
use snap_openstack.Tfvars.Steps.{Loaded, combine_tfvars, update_tfvars, load_tfvars}
use snap_openstack.Tfvars.Precedence.{combine_tfvars-plain, combine_tfvars-charm_config}
use snap_openstack.Tfvars.Persistence.{update_tfvars-again, update_tfvars-persists}

abbrev vars : VarMap
vars = record {
  charms =
      ("k8s", ("channel", "k8s_channel") ∷ ("config", "k8s_config") ∷ [])
      ∷ ("ceph", ("channel", "ceph_channel") ∷ [])
      ∷ [];
  preserve = "machines" ∷ [];
}

abbrev software : SoftwareConfig
software = record {
  juju = end;
  charms =
      (
        "k8s",
        record {
          dump =
              field "channel" (str "1.32/stable")
                (field "config" (dict (field "mtu" (str "9000") end)) end);
          model_extra = end;
        },
      )
      ∷ [];
  terraform = [];
}

abbrev empty_software : SoftwareConfig
empty_software = record { juju = end; charms = []; terraform = [] }

abbrev manifest : Manifest
manifest = record {
  core = record { config = end; software = software };
  features = [];
  storage = end;
}

abbrev no_manifest : Manifest
no_manifest = record {
  core = record { config = end; software = empty_software };
  features = [];
  storage = end;
}

abbrev before : Loaded
before = record {
  computed = [];
  tfvars = field "k8s_config" (dict (field "keep" (str "yes") end)) end;
}

abbrev override_config : Fields
override_config = field "mtu" (str "1500") (field "dns" (str "on") end)

abbrev override : Fields
override =
    field "k8s_channel" (str "edge")
      (field "machines" (str "0") (field "k8s_config" (dict override_config) end))

program : Unit {0}
unfolding get_tfvars charm_config_keys find_charm get get_field
program = tt

combine_tfvars-plain_example :
    get_field "k8s_channel" (combine_tfvars vars manifest before override).tfvars
    ≡ or_else (some (str "edge")) (or_else (some (str "1.32/stable")) none)
unfolding program
combine_tfvars-plain_example =
    combine_tfvars-plain vars manifest before override "k8s_channel" (refl, (refl, (refl, tt))) refl

combine_tfvars-charm_config_example :
    (r : Fields) × (get_field "k8s_config" (combine_tfvars vars manifest before override).tfvars
      ≡ some (dict r))
    × ((f : _)
        → get_field f r
          ≡ or_else
              (get_field f (field "mtu" (str "9000") end))
              (or_else (get_field f override_config) (get_field f (field "keep" (str "yes") end))))
unfolding program is_wanted find_in_features get_features truthy set_field
combine_tfvars-charm_config_example =
    combine_tfvars-charm_config vars manifest before override (field "mtu" (str "9000") end)
      override_config "k8s_config" (refl, (refl, (refl, tt))) (refl, tt) (refl, (refl, tt)) refl
      refl refl

abbrev first_store : Store
first_store = (update_tfvars vars manifest (some "TerraformVars") override true []).1

-- The channel came from the manifest of the first run, and its caller gave one too.
update_tfvars-again_example :
    get_field "k8s_channel"
      (update_tfvars vars no_manifest (some "TerraformVars") end true first_store).0.tfvars
    ≡ get_field "k8s_channel"
        (update_tfvars vars manifest (some "TerraformVars") override true []).0.tfvars
unfolding program update_tfvars is_wanted apply_tfvars find_in_features merge_manifest_into_override
    get_features truthy load_tfvars set_field read_config
update_tfvars-again_example =
    update_tfvars-again vars manifest no_manifest "TerraformVars" override end [] true "k8s_channel"
      refl tt refl

update_tfvars-persists_example :
    get_field "machines"
      (update_tfvars vars no_manifest (some "TerraformVars") end true first_store).0.tfvars
    ≡ some (str "0")
unfolding program is_wanted find_in_features get_features
update_tfvars-persists_example =
    update_tfvars-persists vars manifest no_manifest "TerraformVars" override end [] true "machines"
      (str "0") refl (refl, (refl, (refl, tt))) tt refl refl refl refl refl
