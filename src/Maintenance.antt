-- ===== src/Maintenance.antt =====
-- sunbeam-python/sunbeam/features/maintenance/utils.py, `OperationViewer`: the operations of a maintenance
-- mode and what has become of them.
pub mod Resolve
mod States
mod Verdict
mod Resolved
mod Samples
use snap_openstack.Prelude.{
  String, Bool, true, false, Option, none, some, List, [], ◌∷◌, ◌++◌, ◌==◌, string_eq,
  if◌then◌else◌, join, elem, Outcome, return, raise, ◌>>=◌, ◌>>◌, key_error, attribute_error,
  type_error, other_error, click_exception, Exception,
}
use snap_openstack.Dict.{Dict, get, set}
use snap_openstack.Plan.{Result, ResultType}

pub record OperationViewer : Type 0 where
  pub operations : List String
  pub operation_states : Dict String

-- An action of Watcher, as the viewer reads it.
pub record WatcherAction : Type 0 where
  pub action_type : String
  pub input_parameters : Dict String
  pub state : String

-- An action in the output of a charm: whether it has an error.
pub record CharmAction : Type 0 where
  pub id : String
  pub has_error : Bool

-- The output of a charm's action: the values of `actions` in their order, and `id`, which only some outputs have.
pub record Output : Type 0 where
  pub id : Option String
  pub actions : List CharmAction

-- The messages of the results that the viewer reads.
pub data Message : Type 0 where
  nothing : Message
  text : String → Message
  watcher_actions : List WatcherAction → Message
  output : Output → Message

-- `d[k]`
unfoldable pub lookup : Option String → Outcome String
lookup none = raise key_error
lookup (some v) = return v

unfoldable change_key : WatcherAction → Outcome String
unfolding lookup
change_key action = do
  state ← lookup (get "state" action.input_parameters)
  resource ← lookup (get "resource_name" action.input_parameters)
  return (join (join (join (join action.action_type " state=") state) " resource=") resource)

unfoldable migrate_key : WatcherAction → Outcome String
unfolding lookup
migrate_key action = do
  kind ← lookup (get "migration_type" action.input_parameters)
  resource ← lookup (get "resource_name" action.input_parameters)
  return (join (join (join "Migrate instance type=" kind) " resource=") resource)

-- `_get_watcher_action_key`: for another type of action the key is unbound.
unfoldable pub get_watcher_action_key : WatcherAction → Outcome String
unfolding change_key migrate_key
get_watcher_action_key action =
    if action.action_type == "migrate"
    then migrate_key action
    else if action.action_type == "change_nova_service_state"
    then change_key action
    else raise other_error

-- An operation is appended, with its first state.
unfoldable pub add_operation : String → String → OperationViewer → OperationViewer
add_operation operation state viewer = record {
  operations = viewer.operations ++ (operation ∷ []);
  operation_states = set operation state viewer.operation_states;
}

unfoldable pub set_state : String → String → OperationViewer → OperationViewer
set_state operation state viewer = record viewer {
  operation_states = set operation state viewer.operation_states;
}

-- What the viewer is after a call, and how the call ends.
abbrev pub Changed : Type 0
Changed = OperationViewer × Outcome (Unit {0})

-- The next turn of a loop, unless this one raises.
unfoldable pub continue_with : OperationViewer → Outcome String → (String → Changed) → Changed
continue_with viewer (raise e) next = (viewer, raise e)
continue_with viewer (return key) next = next key

-- `add_watch_actions`
unfoldable pub add_watch_actions : List WatcherAction → OperationViewer → Changed
unfolding continue_with add_operation get_watcher_action_key
add_watch_actions [] viewer = (viewer, return tt)
add_watch_actions (action ∷ actions) viewer =
    continue_with viewer (get_watcher_action_key action)
      (λ key. add_watch_actions actions (add_operation key "PENDING" viewer))

unfoldable pub add_charm_actions : List CharmAction → OperationViewer → OperationViewer
unfolding add_operation
add_charm_actions [] viewer = viewer
add_charm_actions (action ∷ actions) viewer =
    add_charm_actions actions (add_operation action.id "SKIPPED" viewer)

-- `add_maintenance_action_steps`
unfoldable pub add_maintenance_action_steps : Output → OperationViewer → OperationViewer
unfolding add_charm_actions
add_maintenance_action_steps result viewer = add_charm_actions result.actions viewer

-- `add_step`, and with the identifier of an output `add_drain_control_role_step`,
-- `add_cordon_control_role_step` and `add_uncordon_control_role_step`.
unfoldable pub add_step : String → OperationViewer → OperationViewer
unfolding add_operation
add_step step_name viewer = add_operation step_name "SKIPPED" viewer

-- `update_watcher_actions_result`
unfoldable pub update_watcher_actions_result : List WatcherAction → OperationViewer → Changed
unfolding continue_with set_state get_watcher_action_key
update_watcher_actions_result [] viewer = (viewer, return tt)
update_watcher_actions_result (action ∷ actions) viewer =
    continue_with viewer (get_watcher_action_key action)
      (λ key. update_watcher_actions_result actions (set_state key action.state viewer))

-- `update_maintenance_action_steps_result`
unfoldable pub update_maintenance_action_steps_result :
    List CharmAction → OperationViewer → OperationViewer
unfolding set_state
update_maintenance_action_steps_result [] viewer = viewer
update_maintenance_action_steps_result (action ∷ actions) viewer =
    let status = if action.has_error then "FAILED" else "SUCCEEDED" in
    update_maintenance_action_steps_result actions (set_state action.id status viewer)

unfoldable pub state_of : ResultType → String
state_of ResultType.completed = "SUCCEEDED"
state_of ResultType.failed = "FAILED"
state_of ResultType.skipped = "SKIPPED"

-- `update_step_result`
unfoldable pub update_step_result : String → ResultType → OperationViewer → OperationViewer
unfolding state_of set_state
update_step_result step_name result_type viewer = set_state step_name (state_of result_type) viewer

-- The update of `RunWatcherAuditStep`: the message is walked over. A text with no character ends the walk at
-- once; an output has a key, at which it fails.
unfoldable pub update_audit : Message → OperationViewer → Changed
unfolding update_watcher_actions_result
update_audit (watcher_actions actions) viewer = update_watcher_actions_result actions viewer
update_audit nothing viewer = (viewer, raise type_error)
update_audit (text s) viewer = (viewer, if s == "" then return tt else raise attribute_error)
update_audit (output o) viewer = (viewer, raise attribute_error)

-- The update of `MicroCephActionStep`.
unfoldable pub update_ceph : Message → OperationViewer → Changed
unfolding update_maintenance_action_steps_result
update_ceph (output o) viewer = (update_maintenance_action_steps_result o.actions viewer, return tt)
update_ceph _ viewer = (viewer, raise attribute_error)

unfoldable pub update_output : ResultType → Option String → OperationViewer → Changed
unfolding update_step_result
update_output result_type none viewer = (viewer, raise key_error)
update_output result_type (some operation) viewer =
    (update_step_result operation result_type viewer, return tt)

-- The update of a step whose message has an identifier.
unfoldable pub update_by_id : ResultType → Message → OperationViewer → Changed
unfolding update_output
update_by_id result_type (output o) viewer = update_output result_type o.id viewer
update_by_id result_type _ viewer = (viewer, raise type_error)

abbrev pub by_id : List String
by_id =
    "DrainControlRoleNodeStep" ∷ "CordonControlRoleNodeStep" ∷ "UncordonControlRoleNodeStep"
    ∷ "EnableMicroOVNStep" ∷ []

-- One turn of the loop of `check_operation_succeeded`.
unfoldable pub update_result : String → Result Message → OperationViewer → Changed
unfolding update_audit update_ceph update_by_id update_step_result
update_result name result viewer =
    if name == "RunWatcherAuditStep"
    then update_audit result.message viewer
    else if name == "MicroCephActionStep"
    then update_ceph result.message viewer
    else if name == "EnableHypervisorStep"
    then (update_step_result name result.result_type viewer, return tt)
    else if elem name by_id
    then update_by_id result.result_type result.message viewer
    else (viewer, return tt)

unfoldable pub is_failed : ResultType → Bool
is_failed ResultType.failed = true
is_failed _ = false

-- `_operation_result`: the states in the order of the operations.
unfoldable pub operation_states_of : List String → Dict String → Outcome (List String)
unfolding lookup
operation_states_of [] states = return []
operation_states_of (operation ∷ operations) states = do
  state ← lookup (get operation states)
  rest ← operation_states_of operations states
  return (state ∷ rest)

unfoldable pub operation_result : OperationViewer → Outcome (List String)
unfolding operation_states_of
operation_result viewer = operation_states_of viewer.operations viewer.operation_states

-- `_raise_exception`: the message of `MicroCephActionStep` is read before.
unfoldable pub raise_exception : String → Message → Exception
raise_exception name (output o) = click_exception
raise_exception name _ = if name == "MicroCephActionStep" then attribute_error else click_exception

unfoldable pub finish : Option (String × Message) → OperationViewer → Changed
unfolding operation_result raise_exception
finish failure viewer = (
  viewer,
  operation_result viewer >>= λ lines. elim failure [
    | none ↦ return tt
    | some f ↦ raise (raise_exception f.0 f.1)
  ],
)

unfoldable pub then_check : Changed → (OperationViewer → Changed) → Changed
then_check (viewer, return t) next = next viewer
then_check (viewer, raise e) next = (viewer, raise e)

-- The loop over the results, with the last failure so far.
unfoldable pub check_results :
    Dict (Result Message) → Option (String × Message) → OperationViewer → Changed
unfolding update_result is_failed finish then_check
check_results [] failure viewer = finish failure viewer
check_results ((name, result) ∷ results) failure viewer =
    let here = if is_failed result.result_type then some (name, result.message) else failure in
    then_check (update_result name result viewer) (check_results results here)

-- `check_operation_succeeded`
unfoldable pub check_operation_succeeded : Dict (Result Message) → OperationViewer → Changed
unfolding check_results
check_operation_succeeded results viewer = check_results results none viewer
