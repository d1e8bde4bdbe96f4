-- ===== src/Topology/Samples.antt =====
-- A deployment of two machines, of which one is a region controller.
use snap_openstack.Dict.{get}
use snap_openstack.Prelude.{refl, ◌≡◌, true, false, [], ◌∷◌, any, String, List, ℕ, none, All, some}
use snap_openstack.Topology.{
  coalesce_type, is_warning, MaasMachine, is_failure, deployment_topology_check,
}
use snap_openstack.Topology.Machines.{
  machine_checks, machine_network_check, machine_storage_check, machine_compute_nic_check,
  machine_root_disk_check, Spaces, deployment_machines_check,
}
use snap_openstack.Topology.Networks.{IsConnected, deployment_machines_check-IsConnected}
use snap_openstack.Topology.Verdict.{deployment_topology_check-is_refused}

abbrev machine : String → List String → ℕ → ℕ → MaasMachine
machine zone roles cores memory = record {
  zone = zone;
  roles = roles;
  cores = cores;
  memory = memory;
  spaces = "mgmt" ∷ [];
  storage = [];
  nics = [];
  root_disk = none;
}

abbrev infra : MaasMachine
infra = machine "a" ("sunbeam" ∷ "juju-controller" ∷ []) 2 4000

abbrev region : MaasMachine
region = machine "b" ("region_controller" ∷ []) 16 32000

abbrev compute : MaasMachine
compute = machine "a" ("compute" ∷ []) 16 32000

-- Without machines that the region controller excludes, nothing fails.
region_alone : any is_failure (deployment_topology_check false (infra ∷ region ∷ [])) ≡ false
region_alone = deployment_topology_check-is_refused false (infra ∷ region ∷ [])

-- A machine with the role network is accepted beside a region controller.
network_beside_region :
    any is_failure (
      deployment_topology_check false (infra ∷ region ∷ machine "a" ("network" ∷ []) 16 32000 ∷ []))
    ≡ false
network_beside_region =
    deployment_topology_check-is_refused false
      (infra ∷ region ∷ machine "a" ("network" ∷ []) 16 32000 ∷ [])

deployment_topology_check-is_refused_example :
    any is_failure (deployment_topology_check true (infra ∷ region ∷ compute ∷ [])) ≡ true
deployment_topology_check-is_refused_example =
    deployment_topology_check-is_refused true (infra ∷ region ∷ compute ∷ [])

abbrev space_map : Spaces
space_map =
    ("public", some "pub")
    ∷ ("storage", some "store")
    ∷ ("storage-cluster", some "store")
    ∷ ("internal", some "mgmt")
    ∷ ("data", some "mgmt")
    ∷ ("management", some "mgmt")
    ∷ []

abbrev ready : MaasMachine
ready = record infra {
  root_disk =
      some
        (record { root_partition = some 536870912000; physical_blockdevices = ("ssd" ∷ []) ∷ [] });
}

passes : any is_failure (deployment_machines_check space_map (ready ∷ [])) ≡ false
unfolding deployment_machines_check coalesce_type is_failure is_warning machine_checks
    machine_network_check machine_storage_check machine_compute_nic_check machine_root_disk_check
    get
passes = refl

deployment_machines_check-IsConnected_example :
    All (λ machine. IsConnected space_map machine) (ready ∷ [])
deployment_machines_check-IsConnected_example =
    deployment_machines_check-IsConnected space_map (ready ∷ []) passes
