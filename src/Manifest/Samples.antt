-- ===== src/Manifest/Samples.antt =====
-- Two manifests, their merge, and the theorems about it at these manifests.
use snap_openstack.Prelude.{String, ◌≡◌, refl, true, none, some, [], ◌∷◌, return}
use snap_openstack.Dict.{Dict, get, set, keys, has}
use snap_openstack.Value.{str, end, field, truthy, get_field, set_field}
use snap_openstack.Merge.{merge_dict, merge_key}
use snap_openstack.Manifest.{
  Manifest, CharmManifest, SoftwareConfig, FeatureManifest, feature, group, Validation, merge,
  find_charm, get_feature, get_features, validate_against_default, merge_core, merge_software,
  merge_entries, merge_feature, merge_config, merge_models, validate_software, validate_entries,
  validate_entry, merge_entry,
}
use snap_openstack.Manifest.Features.{MergedFeature, merge-MergedFeature}
use snap_openstack.Manifest.Overlay.{find_charm-merge}
use snap_openstack.Manifest.Validate.{merge-validated}

-- A validation that accepts every document.
abbrev validation : Validation
validation = record { juju = λ d. return d; core = λ d. return d; config = λ c d. return d }

abbrev charm : String → CharmManifest
charm channel = record { dump = field "channel" (str channel) end; model_extra = end }

abbrev software : Dict CharmManifest → SoftwareConfig
software charms = record { juju = end; charms = charms; terraform = [] }

abbrev some_feature : Dict CharmManifest → FeatureManifest
some_feature charms = record { config = none; software = software charms }

abbrev default : Manifest
default = record {
  core = record {
    config = field "region" (str "one") end;
    software = software (("k8s", charm "stable") ∷ ("ceph", charm "squid") ∷ []);
  };
  features =
      ("dns", feature (some_feature (("bind", charm "9") ∷ [])))
      ∷ ("obs", group (("loki", some_feature []) ∷ []))
      ∷ [];
  storage = end;
}

abbrev custom : Manifest
custom = record {
  core = record {
    config = field "region" (str "two") end;
    software = software (("k8s", charm "edge") ∷ []);
  };
  features = ("dns", feature (some_feature [])) ∷ [];
  storage = field "pool" (str "a") end;
}

abbrev both : Manifest
both = record {
  core = record {
    config = field "region" (str "two") end;
    software = software (("k8s", charm "edge") ∷ ("ceph", charm "squid") ∷ []);
  };
  features = default.features;
  storage = field "pool" (str "a") end;
}

program : Unit {0}
unfolding merge merge_dict get set get_feature get_features find_charm validate_against_default keys
    truthy get_field set_field
program = tt

merge-default : merge validation default custom ≡ return both
unfolding program merge_core merge_key merge_entry merge_software merge_entries merge_feature
    merge_config merge_models
merge-default = refl

merge-MergedFeature_example :
    MergedFeature validation
      (get "dns" default.features)
      (get "dns" custom.features)
      (get "dns" both.features)
    × (both.storage ≡ custom.storage)
merge-MergedFeature_example = merge-MergedFeature validation default custom both "dns" merge-default

find_charm-merge_example : find_charm "k8s" both ≡ some (charm "edge")
unfolding program
find_charm-merge_example =
    find_charm-merge validation default custom both "k8s" (charm "edge") merge-default (refl, tt)
      refl

merge-validated_example :
    (has "ceph" both.core.software.charms ≡ true)
    × (has "ceph" both.core.software.terraform ≡ has "ceph" default.core.software.terraform)
unfolding program validate_software validate_entries validate_entry
merge-validated_example = merge-validated validation custom default both "ceph" refl merge-default
