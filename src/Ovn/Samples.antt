-- ===== src/Ovn/Samples.antt =====
-- A cluster with two control nodes, of which one computes too, and a DPU.
use snap_openstack.Ovn.Distributor.{reapply}
use snap_openstack.Prelude.{
  String, ◌≡◌, ◌≢◌, refl, true, none, some, List, [], ◌∷◌, any, ◌==◌, string_eq, if◌then◌else◌,
}
use snap_openstack.Dict.{get, set}
use snap_openstack.Value.{
  pos, negsuc, Fields, end, str, list, nil, cons, get_field, field, dict, set_field,
}
use snap_openstack.Manifest.{Manifest}
use snap_openstack.Ovn.{
  Node, int_text, get_machines, get_machines_by_architecture, get_token_distributor_machines,
  list_microovn_nodes, machine_of, before, arch_of, collect_machines, sorted,
  microovn_application_name_for_node,
}
use snap_openstack.Ovn.Mapping.{RoleMapping, build_microovn_role_mapping, microovn_roles_for_node}
use snap_openstack.Ovn.Entries.{roles_in}
use snap_openstack.Ovn.Machines.{get_machines_by_architecture-get, unless_empty, is_machine}
use snap_openstack.Ovn.Roles.{build_microovn_role_mapping-roles, is_unit, last_roles}
use snap_openstack.Ovn.Placement.{reapply-placement}

abbrev first_node : Node
first_node = record { machineid = some (pos 0); arch = none; role = "control" ∷ "compute" ∷ [] }

abbrev second_node : Node
second_node = record {
  machineid = some (pos 10);
  arch = some "amd64";
  role = "control" ∷ "network" ∷ [];
}

abbrev dpu : Node
dpu = record { machineid = some (pos 2); arch = some "arm64"; role = "network" ∷ [] }

abbrev lost : Node
lost = record { machineid = some (negsuc 0); arch = none; role = "compute" ∷ [] }

abbrev cluster : String → List Node
cluster role =
    if role == "control"
    then second_node ∷ first_node ∷ []
    else if role == "compute"
    then first_node ∷ lost ∷ []
    else second_node ∷ dpu ∷ []

int_text_negative : int_text (negsuc 41) ≡ "-42"
unfolding int_text
int_text_negative = refl

-- The identifiers are sorted as texts.
machines : get_machines cluster none ≡ "0" ∷ "10" ∷ "2" ∷ []
unfolding get_machines sorted machine_of before
machines = refl

by_architecture :
    get_machines_by_architecture cluster ≡ ("amd64", "0" ∷ "10" ∷ []) ∷ ("arm64", "2" ∷ []) ∷ []
unfolding get_machines_by_architecture machine_of set arch_of sorted get before
by_architecture = refl

distributors : get_token_distributor_machines cluster ≡ "0" ∷ "10" ∷ []
unfolding get_token_distributor_machines collect_machines machine_of arch_of sorted before
distributors = refl

mapping :
    build_microovn_role_mapping cluster "m" ("10" ∷ "2" ∷ [])
    ≡ (
      "m",
      (
        "microovn",
        ("machines", ("10", ("roles", "chassis" ∷ "central" ∷ "gateway" ∷ []) ∷ []) ∷ []) ∷ [],
      )
          ∷ (
            "microovn-arm64",
            ("machines", ("2", ("roles", "chassis" ∷ "gateway" ∷ []) ∷ []) ∷ []) ∷ [],
          )
          ∷ [],
    )
      ∷ []
unfolding build_microovn_role_mapping machine_of set microovn_application_name_for_node before get
    microovn_roles_for_node
mapping = refl

abbrev empty_manifest : Manifest
empty_manifest = record {
  core = record { config = end; software = record { juju = end; charms = []; terraform = [] } };
  features = [];
  storage = end;
}

abbrev as_text : RoleMapping → String
as_text m = "mapping"

get_machines_by_architecture-get_example :
    get "arm64" (get_machines_by_architecture cluster)
    ≡ unless_empty (get_machines cluster (some "arm64"))
get_machines_by_architecture-get_example = get_machines_by_architecture-get cluster "arm64"

build_microovn_role_mapping-roles_example :
    roles_in "m" "microovn" "10" (build_microovn_role_mapping cluster "m" ("10" ∷ []))
    ≡ some ("chassis" ∷ "central" ∷ "gateway" ∷ [])
unfolding last_roles list_microovn_nodes is_unit microovn_application_name_for_node is_machine
    machine_of microovn_roles_for_node
build_microovn_role_mapping-roles_example =
    build_microovn_role_mapping-roles cluster "m" "microovn" "10" ("10" ∷ [])

abbrev placed : Fields
placed = field "role_distributor_machine_ids" (list (cons (str "0") nil)) (
    field "machine_ids" (list nil) (
      field "charm_role_distributor_config" (dict (field "role-mapping" (str "mapping") end))
        (field "machine_model_uuid" (str "uuid") end)))

reapply-placement_example :
    (c : String) × (get_field "role_distributor_machine_ids" placed
      ≡ some (list (cons (str c) nil)))
    × (any (is_machine c) (cluster "control") ≡ true)
    × (get_machines cluster none ≢ [])
unfolding reapply get_machines sorted machine_of before set_field get
reapply-placement_example =
    reapply-placement cluster as_text empty_manifest "m" "uuid" (λ f. none) none refl
