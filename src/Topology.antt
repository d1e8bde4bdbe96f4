-- ===== src/Topology.antt =====
-- sunbeam-python/sunbeam/provider/maas/steps.py: the checks of the machines and of the topology of a deployment;
-- core/checks.py: what their results come to. The texts of the results are left out.
mod Machines
mod Networks
mod Verdict
mod Samples
use snap_openstack.Prelude.{
  ℕ, ◌+◌, ltb, leb, nat_beq, String, Bool, true, false, not, ◌||◌, ◌&&◌, Option, none, some, List,
  [], ◌∷◌, ◌++◌, length, any, all, elem, map, ◌==◌, string_eq, if◌then◌else◌,
}
use snap_openstack.Dict.{Dict, get, set}

pub data DiagnosticResultType : Type 0 where
  success warning failure : DiagnosticResultType

-- The results, by the name of their check.
pub record DiagnosticsResult : Type 0 where
  pub check : String
  pub passed : DiagnosticResultType

unfoldable pub is_failure : DiagnosticsResult → Bool
is_failure result = elim result.passed [ success ↦ false | warning ↦ false | failure ↦ true ]

unfoldable pub is_warning : DiagnosticsResult → Bool
is_warning result = elim result.passed [ success ↦ false | warning ↦ true | failure ↦ false ]

-- `DiagnosticsResult.coalesce_type`
unfoldable pub coalesce_type : List DiagnosticsResult → DiagnosticResultType
unfolding is_failure is_warning
coalesce_type results =
    if any is_failure results then failure else if any is_warning results then warning else success

-- The inner loop of `_run_check_list`: for each result of a check, all of them are added.
unfoldable pub extend_for_each :
    List DiagnosticsResult
    → List DiagnosticsResult
    → List DiagnosticsResult
    → List DiagnosticsResult
extend_for_each results [] found = found
extend_for_each results (result ∷ rest) found = extend_for_each results rest (found ++ results)

-- `_run_check_list`, on the results that each of the checks returns.
unfoldable pub run_check_list :
    List (List DiagnosticsResult) → List DiagnosticsResult → List DiagnosticsResult
unfolding extend_for_each
run_check_list [] found = found
run_check_list (results ∷ checks) found =
    run_check_list checks (extend_for_each results results found)

-- A root disk: the size of its root partition, and the tags of each of its physical devices. What the code takes
-- for a missing size, list of devices or list of tags stands here: 0, or an empty list.
pub record RootDisk : Type 0 where
  pub root_partition : Option ℕ
  pub physical_blockdevices : List (List String)

-- A machine: its roles are tags of `RoleTags`, `storage` has the devices of each storage tag, `nics` the tags of each
-- network card.
pub record MaasMachine : Type 0 where
  pub zone : String
  pub roles : List String
  pub cores : ℕ
  pub memory : ℕ
  pub spaces : List String
  pub storage : Dict (List String)
  pub nics : List (List String)
  pub root_disk : Option RootDisk

-- `MachineRolesCheck`
unfoldable pub machine_roles_check : MaasMachine → DiagnosticsResult
machine_roles_check machine = record {
  check = "Role check";
  passed = elim machine.roles [ [] ↦ failure | r ∷ (rs → h) ↦ success ];
}

unfoldable pub is_controller_only : List String → Bool
is_controller_only (role ∷ []) = role == "juju-controller" || role == "sunbeam"
is_controller_only _ = false

-- `MachineRequirementsCheck`: the memory in MB.
unfoldable pub machine_requirements_check : MaasMachine → DiagnosticsResult
unfolding is_controller_only
machine_requirements_check machine =
    let small = is_controller_only machine.roles in
    let memory_min = if small then 4000 else 32000 in
    let core_min = if small then 2 else 16 in
    record {
      check = "Machine requirements check";
      passed =
          if ltb machine.memory memory_min || ltb machine.cores core_min then warning else success;
    }

unfoldable pub count_role : String → List MaasMachine → ℕ
count_role tag [] = 0
count_role tag (machine ∷ machines) =
    (if elem tag machine.roles then 1 else 0) + count_role tag machines

unfoldable above : ℕ → Option ℕ → Bool
above n none = false
above n (some max_count) = ltb max_count n

-- `DeploymentRolesCheck`
unfoldable pub deployment_roles_check : List MaasMachine → String → ℕ → Option ℕ → DiagnosticsResult
unfolding count_role above
deployment_roles_check machines tag min_count max_count =
    let n = count_role tag machines in
    record {
      check = "Minimum role check";
      passed =
          if nat_beq n 0 && ltb 0 min_count
          then failure
          else if ltb n min_count
          then warning
          else if above n max_count
          then failure
          else success;
    }

-- `ZonesCheck`
unfoldable pub zones_check : ℕ → DiagnosticsResult
zones_check nb_zones = record {
  check = "Zone check";
  passed = if nat_beq nb_zones 0 then failure else if nat_beq nb_zones 2 then warning else success;
}

abbrev role_tags : List String
role_tags =
    "control" ∷ "compute" ∷ "storage" ∷ "network" ∷ "juju-controller" ∷ "sunbeam"
    ∷ "region_controller" ∷ []

-- How often a role stands among the roles of the machines of a zone.
unfoldable occurrences : String → List String → ℕ
occurrences tag [] = 0
occurrences tag (role ∷ roles) = (if role == tag then 1 else 0) + occurrences tag roles

unfoldable pub zone_role_count : String → List MaasMachine → ℕ
unfolding occurrences
zone_role_count tag [] = 0
zone_role_count tag (machine ∷ machines) =
    occurrences tag machine.roles + zone_role_count tag machines

unfoldable pub zone_counts : String → Dict (List MaasMachine) → List ℕ
unfolding zone_role_count
zone_counts tag [] = []
zone_counts tag ((zone, machines) ∷ zones) = zone_role_count tag machines ∷ zone_counts tag zones

-- `max(xs)`, and `min(xs)`, of a list that is not empty, given by its first element and the others.
unfoldable pub max_of : ℕ → List ℕ → ℕ
max_of n [] = n
max_of n (m ∷ ms) = max_of (if ltb n m then m else n) ms

unfoldable pub min_of : ℕ → List ℕ → ℕ
min_of n [] = n
min_of n (m ∷ ms) = min_of (if ltb m n then m else n) ms

unfoldable pub is_even : List ℕ → Bool
unfolding max_of min_of
is_even [] = true
is_even (n ∷ ns) = nat_beq (max_of n ns) (min_of n ns)

-- `ZoneBalanceCheck`, for at least one zone.
unfoldable pub zone_balance_check : Dict (List MaasMachine) → DiagnosticsResult
unfolding zone_counts is_even
zone_balance_check zones = record {
  check = "Zone balance check";
  passed = if all (λ tag. is_even (zone_counts tag zones)) role_tags then success else warning;
}

unfoldable or_nil : Option (List MaasMachine) → List MaasMachine
or_nil none = []
or_nil (some machines) = machines

-- `_group_machines_by_zone`
unfoldable pub group_by_zone : List MaasMachine → Dict (List MaasMachine) → Dict (List MaasMachine)
unfolding or_nil
group_by_zone [] zones = zones
group_by_zone (machine ∷ machines) zones =
    group_by_zone machines
      (set machine.zone (or_nil (get machine.zone zones) ++ (machine ∷ [])) zones)

abbrev has_region_controllers : List MaasMachine → Bool
has_region_controllers machines = any (λ machine. elem "region_controller" machine.roles) machines

-- The checks of the topology of at least two machines; `external` says that there are external controllers of juju.
unfoldable pub topology_checks : Bool → List MaasMachine → List (List DiagnosticsResult)
unfolding deployment_roles_check zones_check zone_balance_check group_by_zone
topology_checks external machines =
    let region = has_region_controllers machines in
    let min_count = if region then 0 else 3 in
    let max_count = if region then some 0 else none in
    let zones = group_by_zone machines [] in
    (if external then [] else (deployment_roles_check machines "juju-controller" 3 none ∷ []) ∷ [])
    ++ ((deployment_roles_check machines "sunbeam" 3 none ∷ [])
        ∷ (deployment_roles_check machines "control" min_count max_count ∷ [])
        ∷ (deployment_roles_check machines "compute" min_count max_count ∷ [])
        ∷ (deployment_roles_check machines "storage" min_count max_count ∷ [])
        ∷ (zones_check (length zones) ∷ [])
        ∷ (zone_balance_check zones ∷ [])
        ∷ [])

-- The results with the one that sums them up.
unfoldable pub with_summary : String → List DiagnosticsResult → List DiagnosticsResult
unfolding coalesce_type
with_summary name results =
    results ++ (record { check = name; passed = coalesce_type results } ∷ [])

-- `DeploymentTopologyCheck`
unfoldable pub deployment_topology_check : Bool → List MaasMachine → List DiagnosticsResult
unfolding with_summary run_check_list topology_checks
deployment_topology_check external machines =
    if ltb (length machines) 2
    then record { check = "Topology check"; passed = failure } ∷ []
    else with_summary "Topology check" (run_check_list (topology_checks external machines) [])
