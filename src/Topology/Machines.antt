-- ===== src/Topology/Machines.antt =====
-- sunbeam-python/sunbeam/provider/maas/steps.py: the checks of the machines of a deployment.
-- provider/maas/client.py: the mapping from networks to spaces.
use snap_openstack.Prelude.{
  ℕ, ltb, nat_beq, String, Bool, false, not, ◌||◌, ◌&&◌, Option, none, some, List, [], ◌∷◌, length,
  any, all, elem, ◌==◌, string_eq, if◌then◌else◌, starts_with,
}
use snap_openstack.Dict.{Dict, get, set}
use snap_openstack.Topology.{
  DiagnosticsResult, DiagnosticResultType, MaasMachine, RootDisk, run_check_list, with_summary,
  machine_roles_check, machine_requirements_check, success, warning, failure,
}

-- The spaces of the networks: none, or the name of a space.
abbrev pub Spaces : Type 0
Spaces = Dict (Option String)

abbrev pub networks : List String
networks = "public" ∷ "storage" ∷ "storage-cluster" ∷ "internal" ∷ "data" ∷ "management" ∷ []

unfoldable pub set_default : String → Option (Option String) → Spaces → Spaces
set_default network none spaces = set network none spaces
set_default network (some space) spaces = spaces

unfoldable pub add_networks : List String → Spaces → Spaces
unfolding set_default
add_networks [] spaces = spaces
add_networks (network ∷ rest) spaces =
    add_networks rest (set_default network (get network spaces) spaces)

-- `get_network_mapping`, of a deployment of MAAS.
unfoldable pub get_network_mapping : Spaces → Spaces
unfolding add_networks
get_network_mapping spaces = add_networks networks spaces

unfoldable pub is_named : Option String → Bool
is_named none = false
is_named (some space) = not (space == "")

unfoldable pub is_incomplete : Spaces → Bool
unfolding is_named
is_incomplete mapping =
    not (nat_beq (length mapping) 6) || not (all (λ entry. is_named entry.1) mapping)

-- `ROLE_NETWORK_MAPPING`
unfoldable pub role_networks : String → List String
role_networks role =
    if role == "control"
    then "data" ∷ "internal" ∷ "management" ∷ "public" ∷ "storage" ∷ []
    else if role == "region_controller"
    then "internal" ∷ "management" ∷ "public" ∷ []
    else if role == "compute"
    then "data" ∷ "internal" ∷ "management" ∷ "storage" ∷ []
    else if role == "storage"
    then "internal" ∷ "management" ∷ "storage" ∷ "storage-cluster" ∷ []
    else if role == "network"
    then "internal" ∷ "management" ∷ "data" ∷ []
    else "management" ∷ []

unfoldable pub lacks : List String → Option (Option String) → Bool
lacks assigned none = false
lacks assigned (some none) = false
lacks assigned (some (some space)) = not (space == "") && not (elem space assigned)

-- Some network of a role has a space that the machine is not in.
unfoldable pub misses_space : Spaces → MaasMachine → Bool
unfolding lacks role_networks
misses_space mapping machine =
    any (λ role. any (λ network. lacks machine.spaces (get network mapping)) (role_networks role))
      machine.roles

-- `MachineNetworkCheck`, for the mapping that the deployment has.
unfoldable pub machine_network_check : Spaces → MaasMachine → DiagnosticsResult
unfolding get_network_mapping is_incomplete misses_space
machine_network_check spaces machine =
    let mapping = get_network_mapping spaces in
    record {
      check = "Network check";
      passed =
          if is_incomplete mapping
          then failure
          else if nat_beq (length machine.roles) 0
          then failure
          else if nat_beq (length machine.spaces) 0 || misses_space mapping machine
          then failure
          else success;
    }

unfoldable devices : Option (List String) → List String
devices none = []
devices (some ds) = ds

-- `MachineStorageCheck`
unfoldable pub machine_storage_check : MaasMachine → DiagnosticsResult
unfolding devices
machine_storage_check machine = record {
  check = "Storage check";
  passed =
      if nat_beq (length machine.roles) 0
      then failure
      else if not (elem "storage" machine.roles)
      then success
      else if ltb (length (devices (get "ceph" machine.storage))) 1
      then failure
      else success;
}

unfoldable pub has_neutron_nic : MaasMachine → Bool
has_neutron_nic machine = any (λ tags. any (λ tag. starts_with tag "neutron:") tags) machine.nics

-- `MachineComputeNicCheck`
unfoldable pub machine_compute_nic_check : MaasMachine → DiagnosticsResult
unfolding has_neutron_nic
machine_compute_nic_check machine =
    let needed = elem "network" machine.roles in
    let found = has_neutron_nic machine in
    record {
      check = "Compute Nic check";
      passed =
          if nat_beq (length machine.roles) 0
          then failure
          else if not needed && found
          then warning
          else if not needed
          then success
          else if found
          then success
          else failure;
    }

unfoldable judge_root_partition : Option ℕ → List (List String) → DiagnosticResultType
judge_root_partition none physical = failure
judge_root_partition (some size) physical =
    if nat_beq (length physical) 0
    then warning
    else if any (λ tags. not (elem "ssd" tags)) physical
    then warning
    else if ltb size 536870912000
    then warning
    else success

unfoldable judge_root_disk : Option RootDisk → DiagnosticResultType
unfolding judge_root_partition
judge_root_disk none = failure
judge_root_disk (some disk) = judge_root_partition disk.root_partition disk.physical_blockdevices

-- `MachineRootDiskCheck`: at least 500 * 1024 ** 3 bytes.
unfoldable pub machine_root_disk_check : MaasMachine → DiagnosticsResult
unfolding judge_root_disk
machine_root_disk_check machine = record {
  check = "Root disk check";
  passed = judge_root_disk machine.root_disk;
}

unfoldable pub machine_checks : Spaces → List MaasMachine → List (List DiagnosticsResult)
unfolding machine_network_check machine_storage_check machine_compute_nic_check
    machine_root_disk_check machine_roles_check machine_requirements_check
machine_checks spaces [] = []
machine_checks spaces (machine ∷ machines) =
    (machine_roles_check machine ∷ [])
    ∷ (machine_network_check spaces machine ∷ [])
    ∷ (machine_storage_check machine ∷ [])
    ∷ (machine_compute_nic_check machine ∷ [])
    ∷ (machine_root_disk_check machine ∷ [])
    ∷ (machine_requirements_check machine ∷ [])
    ∷ machine_checks spaces machines

-- `DeploymentMachinesCheck`
unfoldable pub deployment_machines_check : Spaces → List MaasMachine → List DiagnosticsResult
unfolding with_summary run_check_list machine_checks
deployment_machines_check spaces [] = record { check = "Deployment check"; passed = failure } ∷ []
deployment_machines_check spaces (machine ∷ machines) =
    with_summary "Deployment check" (run_check_list (machine_checks spaces (machine ∷ machines)) [])
