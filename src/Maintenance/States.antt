-- ===== src/Maintenance/States.antt =====
-- Every operation of the viewer has a state, so that showing them raises nothing.
use snap_openstack.Prelude.{
  String, ◌≡◌, refl, Bool, true, false, Option, none, some, List, [], ◌∷◌, elem, ◌==◌, string_eq,
  if◌then◌else◌, Outcome, return, raise, Bool-cases, inl, inr, eq_iff, All, All-append,
}
use snap_openstack.Dict.{Dict, get, set, get-set}
use snap_openstack.Plan.{Result, ResultType}
use snap_openstack.Maintenance.{
  OperationViewer, WatcherAction, CharmAction, Message, Changed, add_operation, set_state,
  add_watch_actions, add_charm_actions, continue_with, get_watcher_action_key,
  update_watcher_actions_result, update_maintenance_action_steps_result, update_step_result,
  update_audit, update_ceph, update_output, update_by_id, update_result, operation_states_of,
  lookup, watcher_actions, output, nothing, text, by_id, state_of,
}

-- The dictionary has a value for the key.
abbrev pub HasState : Dict String → String → Type 0
HasState states operation = (s : String) × (get operation states ≡ some s)

abbrev pub IsComplete : OperationViewer → Type 0
IsComplete viewer = All (HasState viewer.operation_states) viewer.operations

HasState-set :
    (key state operation : String) (states : Dict String)
    → HasState states operation
    → HasState (set key state states) operation
HasState-set key state operation states (s, h) = elim (Bool-cases (key == operation)) [
  | inl same ↦ (state, rw (get-set key operation state states, same) refl)
  | inr other ↦ (s, rw (get-set key operation state states, other) h)
]

All-HasState-set :
    (key state : String) (operations : List String) (states : Dict String)
    → All (HasState states) operations
    → All (HasState (set key state states)) operations
All-HasState-set key state [] states h = tt
All-HasState-set key state (o ∷ os) states h =
    (HasState-set key state o states h.0, All-HasState-set key state os states h.1)

set_state-IsComplete :
    (key state : String) (viewer : OperationViewer)
    → IsComplete viewer
    → IsComplete (set_state key state viewer)
unfolding set_state
set_state-IsComplete key state viewer h =
    All-HasState-set key state viewer.operations viewer.operation_states h

pub add_operation-IsComplete :
    (key state : String) (viewer : OperationViewer)
    → IsComplete viewer
    → IsComplete (add_operation key state viewer)
unfolding add_operation
add_operation-IsComplete key state viewer h =
    All-append (HasState (set key state viewer.operation_states)) viewer.operations (key ∷ [])
      (All-HasState-set key state viewer.operations viewer.operation_states h)
      (
        (state, rw (get-set key key state viewer.operation_states, (eq_iff key key).1 refl) refl),
        tt,
      )

continue_with-IsComplete :
    (viewer : OperationViewer) (o : Outcome String) (next : String → Changed)
    → IsComplete viewer
    → ((key : String) → IsComplete (next key).0)
    → IsComplete (continue_with viewer o next).0
unfolding continue_with
continue_with-IsComplete viewer (return key) next h k = k key
continue_with-IsComplete viewer (raise e) next h k = h

pub add_watch_actions-IsComplete :
    (actions : List WatcherAction) (viewer : OperationViewer)
    → IsComplete viewer
    → IsComplete (add_watch_actions actions viewer).0
unfolding add_watch_actions
add_watch_actions-IsComplete [] viewer h = h
add_watch_actions-IsComplete (action ∷ actions) viewer h =
    continue_with-IsComplete viewer (get_watcher_action_key action) _ h (λ key.
      add_watch_actions-IsComplete actions _ (add_operation-IsComplete key "PENDING" viewer h))

pub add_charm_actions-IsComplete :
    (actions : List CharmAction) (viewer : OperationViewer)
    → IsComplete viewer
    → IsComplete (add_charm_actions actions viewer)
unfolding add_charm_actions
add_charm_actions-IsComplete [] viewer h = h
add_charm_actions-IsComplete (action ∷ actions) viewer h =
    add_charm_actions-IsComplete actions _ (add_operation-IsComplete action.id "SKIPPED" viewer h)

update_watcher_actions-IsComplete :
    (actions : List WatcherAction) (viewer : OperationViewer)
    → IsComplete viewer
    → IsComplete (update_watcher_actions_result actions viewer).0
unfolding update_watcher_actions_result
update_watcher_actions-IsComplete [] viewer h = h
update_watcher_actions-IsComplete (action ∷ actions) viewer h =
    continue_with-IsComplete viewer (get_watcher_action_key action) _ h (λ key.
      update_watcher_actions-IsComplete actions _ (set_state-IsComplete key action.state viewer h))

update_charm_actions-IsComplete :
    (actions : List CharmAction) (viewer : OperationViewer)
    → IsComplete viewer
    → IsComplete (update_maintenance_action_steps_result actions viewer)
unfolding update_maintenance_action_steps_result
update_charm_actions-IsComplete [] viewer h = h
update_charm_actions-IsComplete (action ∷ actions) viewer h =
    update_charm_actions-IsComplete actions _ (set_state-IsComplete action.id _ viewer h)

update_audit-IsComplete :
    (m : Message) (viewer : OperationViewer)
    → IsComplete viewer
    → IsComplete (update_audit m viewer).0
unfolding update_audit
update_audit-IsComplete nothing viewer h = h
update_audit-IsComplete (text s) viewer h = h
update_audit-IsComplete (watcher_actions actions) viewer h =
    update_watcher_actions-IsComplete actions viewer h
update_audit-IsComplete (output o) viewer h = h

update_ceph-IsComplete :
    (m : Message) (viewer : OperationViewer)
    → IsComplete viewer
    → IsComplete (update_ceph m viewer).0
unfolding update_ceph
update_ceph-IsComplete nothing viewer h = h
update_ceph-IsComplete (text s) viewer h = h
update_ceph-IsComplete (watcher_actions actions) viewer h = h
update_ceph-IsComplete (output o) viewer h = update_charm_actions-IsComplete o.actions viewer h

update_output-IsComplete :
    (t : ResultType) (o : Option String) (viewer : OperationViewer)
    → IsComplete viewer
    → IsComplete (update_output t o viewer).0
unfolding update_output update_step_result
update_output-IsComplete t none viewer h = h
update_output-IsComplete t (some operation) viewer h =
    set_state-IsComplete operation (state_of t) viewer h

update_by_id-IsComplete :
    (t : ResultType) (m : Message) (viewer : OperationViewer)
    → IsComplete viewer
    → IsComplete (update_by_id t m viewer).0
unfolding update_by_id
update_by_id-IsComplete t nothing viewer h = h
update_by_id-IsComplete t (text s) viewer h = h
update_by_id-IsComplete t (watcher_actions actions) viewer h = h
update_by_id-IsComplete t (output o) viewer h = update_output-IsComplete t o.id viewer h

if-IsComplete :
    (b : Bool) (x y : Changed) → IsComplete x.0 → IsComplete y.0 → IsComplete (if b then x else y).0
if-IsComplete true x y h k = h
if-IsComplete false x y h k = k

pub update_result-IsComplete :
    (name : String) (result : Result Message) (viewer : OperationViewer)
    → IsComplete viewer
    → IsComplete (update_result name result viewer).0
unfolding update_result update_step_result
update_result-IsComplete name result viewer h =
    if-IsComplete (name == "RunWatcherAuditStep") _ _
      (update_audit-IsComplete result.message viewer h)
      (if-IsComplete (name == "MicroCephActionStep") _ _
        (update_ceph-IsComplete result.message viewer h)
        (if-IsComplete (name == "EnableHypervisorStep") _ _
          (set_state-IsComplete name (state_of result.result_type) viewer h)
          (if-IsComplete (elem name by_id) _ _
            (update_by_id-IsComplete result.result_type result.message viewer h) h)))

pub operation_states_of-return :
    (operations : List String) (states : Dict String)
    → All (HasState states) operations
    → (lines : List String) × (operation_states_of operations states ≡ return lines)
unfolding operation_states_of lookup
operation_states_of-return [] states h = ([], refl)
operation_states_of-return (o ∷ os) states h =
    let (s, e) = h.0 in
    let (lines, f) = operation_states_of-return os states h.1 in (s ∷ lines, rw (e, f) refl)
