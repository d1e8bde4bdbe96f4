-- ===== src/Storage/Samples.antt =====
-- A charm whose volume is stored, two manifests, and the theorems about them.
use snap_openstack.Prelude.{String, ◌≡◌, refl, true, false, some, [], ◌∷◌, return}
use snap_openstack.Dict
use snap_openstack.Value.{Value, str, dict, Fields, end, field, get_field, null, set_field}
use snap_openstack.Manifest.{Manifest, CharmManifest, find_charm}
use snap_openstack.Config.{Store, read_config}
use snap_openstack.Tfvars.{VarMap}
use snap_openstack.Storage.{
  check_storage_modifications, load_stored_tfvars, same_value, Sources, is_skip,
}
use snap_openstack.Storage.Canonical.{Keeps, load_stored_tfvars-first}
use snap_openstack.Storage.Unchanged.{check_storage_modifications-same}
use snap_openstack.Storage.Writing.{IsNews, is_skip-IsNews}

abbrev volumes : String → Value
volumes size = dict (field "data" (str size) end)

abbrev stored : Fields
stored = field "mysql_storage" (volumes "10G") end

abbrev store : Store
store =
    ("Tf", stored)
    ∷ (
      "TfDns",
      field "mysql_storage" (dict (field "data" (str "1G") (field "log" (str "1G") end))) end,
    )
    ∷ []

abbrev charm : String → CharmManifest
charm size = record { dump = end; model_extra = field "storage" (volumes size) end }

abbrev manifest : String → Manifest
manifest size = record {
  core = record {
    config = end;
    software = record { juju = end; charms = ("mysql", charm size) ∷ []; terraform = [] };
  };
  features = [];
  storage = end;
}

abbrev vars : VarMap
vars = record { charms = ("mysql", ("storage", "mysql_storage") ∷ []) ∷ []; preserve = [] }

program : Unit {0}
unfolding check_storage_modifications load_stored_tfvars read_config find_charm Dict.get get_field
    is_skip same_value
program = tt

reported :
    check_storage_modifications store (manifest "20G") vars "Tf" ("TfDns" ∷ [])
    ≡ "mysql_storage" ∷ []
unfolding program set_field
reported = refl

load_stored_tfvars-first_example :
    (w : Value) × (get_field "mysql_storage" (load_stored_tfvars store ("Tf" ∷ "TfDns" ∷ []))
      ≡ some w)
    × Keeps (volumes "10G") w
unfolding program
load_stored_tfvars-first_example =
    load_stored_tfvars-first store "Tf" ("TfDns" ∷ []) stored "mysql_storage" (volumes "10G") refl
      refl refl

check_storage_modifications-same_example : same_value (str "10G") (str "10G") ≡ true
unfolding program set_field
check_storage_modifications-same_example =
    check_storage_modifications-same store (manifest "10G") vars "Tf" [] "mysql" "storage"
      "mysql_storage" "data" (("storage", "mysql_storage") ∷ []) (charm "10G")
      (field "data" (str "10G") end) (field "data" (str "10G") end) (str "10G") (str "10G") refl
      refl refl refl refl refl refl refl refl refl

abbrev sources : Sources
sources = record {
  embedded = return null;
  manifest_file = some (return (str "new"));
  clear = false;
  latest = return (str "old");
}

is_skip-IsNews_example : IsNews (return (str "old")) (some (str "new"))
unfolding program
is_skip-IsNews_example = is_skip-IsNews sources (some (str "new")) refl
