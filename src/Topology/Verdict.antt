-- ===== src/Topology/Verdict.antt =====
-- When the check of the topology of a deployment fails.
use snap_openstack.Prelude.{
  ltb, nat_beq, String, ◌≡◌, refl, Bool, true, false, not, ◌||◌, ◌&&◌, none, some, List, [], ◌∷◌,
  ◌++◌, length, any, elem, string_eq, if◌then◌else◌, arith,
}
use snap_openstack.Dict.{Dict, get, set}
use snap_openstack.Topology.{
  DiagnosticsResult, MaasMachine, is_failure, is_warning, coalesce_type, extend_for_each,
  run_check_list, count_role, above, deployment_roles_check, zones_check, zone_balance_check,
  group_by_zone, topology_checks, with_summary, deployment_topology_check, or_nil, success, warning,
  failure,
}

any-append :
    (p : DiagnosticsResult → Bool) (xs ys : List DiagnosticsResult)
    → any p (xs ++ ys) ≡ (any p xs || any p ys)
any-append p [] ys = refl
any-append p (x ∷ xs) ys = ground (arith, any-append p xs ys)

any-extend_for_each :
    (p : DiagnosticsResult → Bool) (results rs found : List DiagnosticsResult)
    → any p results ≡ false
    → any p (extend_for_each results rs found) ≡ any p found
unfolding extend_for_each
any-extend_for_each p results [] found h = refl
any-extend_for_each p results (r ∷ rs) found h =
    ground (arith, any-extend_for_each p results rs (found ++ results), any-append p found results)

any-extend_for_each-true :
    (p : DiagnosticsResult → Bool) (results rs found : List DiagnosticsResult)
    → any p found ≡ true
    → any p (extend_for_each results rs found) ≡ true
unfolding extend_for_each
any-extend_for_each-true p results [] found h = h
any-extend_for_each-true p results (r ∷ rs) found h =
    ground
      (arith, any-extend_for_each-true p results rs (found ++ results), any-append p found results)

-- The repetitions in the list of the results do not matter.
any-extend :
    (p : DiagnosticsResult → Bool) (results found : List DiagnosticsResult)
    → any p (extend_for_each results results found) ≡ (any p found || any p results)
unfolding extend_for_each
any-extend p [] found = ground arith
any-extend p (r ∷ rs) found = ground (
  arith,
  any-append p found (r ∷ rs),
  any-extend_for_each p (r ∷ rs) rs (found ++ (r ∷ rs)),
  any-extend_for_each-true p (r ∷ rs) rs (found ++ (r ∷ rs)),
)

pub any-run_check_list :
    (p : DiagnosticsResult → Bool) (checks : List (List DiagnosticsResult))
    (found : List DiagnosticsResult)
    → any p (run_check_list checks found) ≡ (any p found || any (λ results. any p results) checks)
unfolding run_check_list
any-run_check_list p [] found = ground arith
any-run_check_list p (results ∷ checks) found = ground (
  arith,
  any-run_check_list p checks (extend_for_each results results found),
  any-extend p results found,
)

-- Some machine has the role.
abbrev pub has_role : String → List MaasMachine → Bool
has_role tag machines = any (λ machine. elem tag machine.roles) machines

count_role-has_role :
    (tag : String) (machines : List MaasMachine)
    → nat_beq (count_role tag machines) 0 ≡ not (has_role tag machines)
unfolding count_role
count_role-has_role tag [] = refl
count_role-has_role tag (m ∷ machines) = ground (arith, count_role-has_role tag machines)

deployment_roles_check-many :
    (tag : String) (machines : List MaasMachine)
    → is_failure (deployment_roles_check machines tag 3 none) ≡ not (has_role tag machines)
unfolding deployment_roles_check is_failure above
deployment_roles_check-many tag machines = ground (arith, count_role-has_role tag machines)

deployment_roles_check-no_more :
    (tag : String) (machines : List MaasMachine)
    → is_failure (deployment_roles_check machines tag 0 (some 0)) ≡ has_role tag machines
unfolding deployment_roles_check is_failure above
deployment_roles_check-no_more tag machines = ground (arith, count_role-has_role tag machines)

-- Only the first of the three results is a failure.
is_failure-worst :
    (name : String) (any_failure any_warning : Bool)
    → is_failure (record {
      check = name;
      passed = if any_failure then failure else if any_warning then warning else success;
    })
      ≡ any_failure
unfolding is_failure
is_failure-worst name true w = refl
is_failure-worst name false true = refl
is_failure-worst name false false = refl

pub any-with_summary :
    (name : String) (results : List DiagnosticsResult)
    → any is_failure (with_summary name results) ≡ any is_failure results
unfolding with_summary coalesce_type
any-with_summary name results = ground (
  arith,
  any-append is_failure results (record { check = name; passed = coalesce_type results } ∷ []),
  is_failure-worst name (any is_failure results) (any is_warning results),
)

-- No balance of the zones is a failure.
is_failure-balance :
    (zones : Dict (List MaasMachine)) → is_failure (zone_balance_check zones) ≡ false
unfolding zone_balance_check is_failure
is_failure-balance zones = ground arith

length-set :
    (zone : String) (ms : List MaasMachine) (zones : Dict (List MaasMachine))
    → nat_beq (length (set zone ms zones)) 0 ≡ false
unfolding set
length-set zone ms [] = refl
length-set zone ms ((z, w) ∷ zones) = ground arith

-- There is a zone, where there was one or there is a machine.
group_by_zone-not_empty :
    (machines : List MaasMachine) (zones : Dict (List MaasMachine))
    → nat_beq (length zones) 0 ≡ false
    → nat_beq (length (group_by_zone machines zones)) 0 ≡ false
unfolding group_by_zone
group_by_zone-not_empty [] zones h = h
group_by_zone-not_empty (m ∷ machines) zones h =
    group_by_zone-not_empty machines (set m.zone (or_nil (get m.zone zones) ++ (m ∷ [])) zones)
      (length-set m.zone (or_nil (get m.zone zones) ++ (m ∷ [])) zones)

zones_check-group_by_zone :
    (machines : List MaasMachine)
    → ltb (length machines) 2 ≡ false
    → is_failure (zones_check (length (group_by_zone machines []))) ≡ false
unfolding zones_check is_failure group_by_zone
zones_check-group_by_zone [] h = ground arith
zones_check-group_by_zone (m ∷ machines) h = ground (
  arith,
  group_by_zone-not_empty machines (set m.zone (or_nil (get m.zone []) ++ (m ∷ [])) [])
      (length-set m.zone (or_nil (get m.zone []) ++ (m ∷ [])) []),
)

-- What a deployment lacks or has too much of.
abbrev pub needs : Bool → List MaasMachine → String → Bool
needs region machines tag = if region then has_role tag machines else not (has_role tag machines)

-- The reasons for a failure of at least two machines.
abbrev pub is_lacking : Bool → List MaasMachine → Bool
is_lacking external machines =
    let region = has_role "region_controller" machines in
    (not external && not (has_role "juju-controller" machines))
    || not (has_role "sunbeam" machines)
    || needs region machines "control"
    || needs region machines "compute"
    || needs region machines "storage"

-- The reasons for a failure.
abbrev pub is_refused : Bool → List MaasMachine → Bool
is_refused external machines = ltb (length machines) 2 || is_lacking external machines

roles_of_region :
    (region : Bool) (machines : List MaasMachine) (tag : String)
    → is_failure (
        deployment_roles_check machines tag
          (if region then 0 else 3)
          (if region then some 0 else none))
      ≡ needs region machines tag
roles_of_region true machines tag = deployment_roles_check-no_more tag machines
roles_of_region false machines tag = deployment_roles_check-many tag machines

-- The failures among the checks of at least two machines.
topology_checks-fails :
    (external : Bool) (machines : List MaasMachine)
    → ltb (length machines) 2 ≡ false
    → any (λ results. any is_failure results) (topology_checks external machines)
      ≡ is_lacking external machines
unfolding topology_checks
topology_checks-fails true machines h =
    rw
      (
        deployment_roles_check-many "sunbeam" machines,
        roles_of_region (has_role "region_controller" machines) machines "control",
        roles_of_region (has_role "region_controller" machines) machines "compute",
        roles_of_region (has_role "region_controller" machines) machines "storage",
        zones_check-group_by_zone machines h,
        is_failure-balance (group_by_zone machines []),
      )
      ground arith
topology_checks-fails false machines h =
    rw
      (
        deployment_roles_check-many "juju-controller" machines,
        deployment_roles_check-many "sunbeam" machines,
        roles_of_region (has_role "region_controller" machines) machines "control",
        roles_of_region (has_role "region_controller" machines) machines "compute",
        roles_of_region (has_role "region_controller" machines) machines "storage",
        zones_check-group_by_zone machines h,
        is_failure-balance (group_by_zone machines []),
      )
      ground arith

judge :
    (external : Bool) (machines : List MaasMachine) (few : Bool)
    → ltb (length machines) 2 ≡ few
    → any is_failure (
        if few
        then record { check = "Topology check"; passed = failure } ∷ []
        else with_summary "Topology check" (run_check_list (topology_checks external machines) []))
      ≡ (few || is_lacking external machines)
unfolding is_failure
judge external machines true h = refl
judge external machines false h =
    rw
      (
        any-with_summary "Topology check" (run_check_list (topology_checks external machines) []),
        any-run_check_list is_failure (topology_checks external machines) [],
        topology_checks-fails external machines h,
      )
      refl

-- The check of the topology of a deployment reports a failure just where there are fewer than two machines, or no
-- machine is tagged sunbeam, or none juju-controller and no external controller is registered, or one of the roles
-- control, compute and storage is wrong: some machine has it, with a region controller among the machines, or no
-- machine has it, without a region controller. The role network is not among them.
pub deployment_topology_check-is_refused :
    (external : Bool) (machines : List MaasMachine)
    → any is_failure (deployment_topology_check external machines) ≡ is_refused external machines
unfolding deployment_topology_check
deployment_topology_check-is_refused external machines =
    judge external machines (ltb (length machines) 2) refl
