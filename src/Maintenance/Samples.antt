-- ===== src/Maintenance/Samples.antt =====
-- A maintenance with two actions of Watcher and the drain of a node, and a node with three names.
use snap_openstack.Prelude.{
  type_error, String, ◌≡◌, refl, true, none, some, List, [], ◌∷◌, return, raise, any,
  click_exception, string_eq, other_error, attribute_error,
}
use snap_openstack.Dict.{Dict, get, set}
use snap_openstack.Plan.{Result, ResultType}
use snap_openstack.Hostnames.{match_hostname, hostnames_match}
use snap_openstack.Maintenance.{
  OperationViewer, WatcherAction, Message, watcher_actions, output, text, add_watch_actions,
  add_step, update_result, check_operation_succeeded, get_watcher_action_key, operation_result,
  is_failed, raise_exception,
}
use snap_openstack.Maintenance.Verdict.{
  all_readable, start, watched, stepped, check_operation_succeeded-verdict, verdict, last_failure,
}
use snap_openstack.Maintenance.Resolve.{Machine, ClusterNode, machine_id, k8s_name, hypervisor_name}
use snap_openstack.Maintenance.Resolved.{is_match, machine_id-match}

abbrev migration : WatcherAction
migration = record {
  action_type = "migrate";
  input_parameters = ("migration_type", "live") ∷ ("resource_name", "vm") ∷ [];
  state = "SUCCEEDED";
}

abbrev unknown : WatcherAction
unknown = record { action_type = "nop"; input_parameters = []; state = "PENDING" }

abbrev empty : OperationViewer
empty = record { operations = []; operation_states = [] }

abbrev viewer : OperationViewer
viewer = add_step "Drain 'node'" (add_watch_actions (migration ∷ []) empty).0

abbrev results : Dict (Result Message)
results =
    (
      "RunWatcherAuditStep",
      record { result_type = ResultType.completed; message = watcher_actions (migration ∷ []) },
    )
    ∷ (
      "DrainControlRoleNodeStep",
      record {
        result_type = ResultType.failed;
        message = output (record { id = some "Drain 'node'"; actions = [] });
      },
    )
    ∷ []

migration_key : get_watcher_action_key migration ≡ return "Migrate instance type=live resource=vm"
unfolding get_watcher_action_key get
migration_key = refl

unknown_key : get_watcher_action_key unknown ≡ raise other_error
unfolding get_watcher_action_key
unknown_key = refl

states_before : operation_result viewer ≡ return ("PENDING" ∷ "SKIPPED" ∷ [])
unfolding operation_result add_step add_watch_actions get set
states_before = refl

states_after :
    operation_result (check_operation_succeeded results viewer).0
    ≡ return ("SUCCEEDED" ∷ "FAILED" ∷ [])
unfolding operation_result check_operation_succeeded get add_step add_watch_actions set
states_after = refl

failed_text :
    (update_result "MicroCephActionStep"
      (record { result_type = ResultType.failed; message = text "no" })
      viewer).1
    ≡ raise attribute_error
unfolding update_result
failed_text = refl

check_operation_succeeded-verdict_example :
    (check_operation_succeeded results viewer).1 ≡ raise click_exception
unfolding update_result get verdict last_failure is_failed raise_exception all_readable
    get_watcher_action_key
check_operation_succeeded-verdict_example =
    check_operation_succeeded-verdict results viewer
      (stepped "Drain 'node'" _ (watched (migration ∷ []) empty start))

-- What `EnableMicroOVNStep` returns: its message is an empty text.
abbrev enabled_ovn : Dict (Result Message)
enabled_ovn =
    ("EnableMicroOVNStep", record { result_type = ResultType.completed; message = text "" }) ∷ []

completed_but_raised : (check_operation_succeeded enabled_ovn empty).1 ≡ raise type_error
unfolding all_readable
completed_but_raised = check_operation_succeeded-verdict enabled_ovn empty start

abbrev machines : Dict Machine
machines =
    ("0", record { hostname = some "other"; dns_name = none })
    ∷ ("7", record { hostname = some "node"; dns_name = some "node.maas" })
    ∷ []

abbrev cluster_nodes : List ClusterNode
cluster_nodes =
    record { machineid = "0"; name = "other" }
    ∷ record { machineid = "7"; name = "node.example" }
    ∷ []

resolved_machine : machine_id "node.maas" ("node" ∷ "other" ∷ []) machines ≡ return "7"
unfolding machine_id match_hostname hostnames_match
resolved_machine = refl

unresolved_machine : machine_id "third" ("node" ∷ "other" ∷ []) machines ≡ raise click_exception
unfolding machine_id match_hostname hostnames_match
unresolved_machine = refl

resolved_hypervisor :
    hypervisor_name "node.maas" ("node" ∷ []) (none ∷ some "" ∷ some "node.cloud" ∷ [])
    ≡ return "node.cloud"
unfolding hypervisor_name match_hostname hostnames_match
resolved_hypervisor = refl

resolved_k8s :
    k8s_name "node" ("node" ∷ []) machines cluster_nodes (λ label. some "k8s-node" ∷ []) []
    ≡ return "k8s-node"
unfolding k8s_name match_hostname
resolved_k8s = refl

machine_id-match_example :
    (host : String) × (match_hostname "node.maas" ("node" ∷ "other" ∷ []) ≡ some host)
    × (any (is_match "node.maas" host "7") machines ≡ true)
machine_id-match_example =
    machine_id-match "node.maas" ("node" ∷ "other" ∷ []) machines resolved_machine
