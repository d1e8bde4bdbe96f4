-- ===== src/Maintenance/Verdict.antt =====
-- What the check of the operations decides.
use snap_openstack.Prelude.{
  Bool, true, false, sym, subst, eq_iff, Bool-cases, inl, inr, elem, ◌==◌, ◌>>=◌, ◌>>◌, key_error,
  type_error, attribute_error, String, ◌≡◌, refl, ◌∙◌, Option, none, some, List, [], ◌∷◌, string_eq,
  if◌then◌else◌, Outcome, return, raise,
}
use snap_openstack.Dict.{Dict}
use snap_openstack.Plan.{ResultType, Result}
use snap_openstack.Maintenance.{
  update_watcher_actions_result, update_audit, update_ceph, update_output, update_by_id, by_id,
  continue_with, get_watcher_action_key, set_state, watcher_actions, nothing, text, output,
  OperationViewer, WatcherAction, Output, Message, Changed, add_watch_actions,
  add_maintenance_action_steps, add_step, update_result, operation_result, then_check,
  check_results, finish, check_operation_succeeded, is_failed, raise_exception,
}
use snap_openstack.Maintenance.States.{
  IsComplete, add_watch_actions-IsComplete, add_charm_actions-IsComplete, add_operation-IsComplete,
  update_result-IsComplete, operation_states_of-return,
}

-- The viewers that its methods make.
pub data Planned : OperationViewer → Type 0 where
  start : Planned (record { operations = []; operation_states = [] })
  watched :
      (actions : List WatcherAction) (viewer : OperationViewer)
      → Planned viewer
      → Planned (add_watch_actions actions viewer).0
  maintained :
      (result : Output) (viewer : OperationViewer)
      → Planned viewer
      → Planned (add_maintenance_action_steps result viewer)
  stepped :
      (name : String) (viewer : OperationViewer) → Planned viewer → Planned (add_step name viewer)
  updated :
      (name : String) (result : Result Message) (viewer : OperationViewer)
      → Planned viewer
      → Planned (update_result name result viewer).0

Planned-IsComplete : {viewer : OperationViewer} → Planned viewer → IsComplete viewer
unfolding add_maintenance_action_steps add_step
Planned-IsComplete start = tt
Planned-IsComplete (watched actions viewer p) =
    add_watch_actions-IsComplete actions viewer (Planned-IsComplete p)
Planned-IsComplete (maintained result viewer p) =
    add_charm_actions-IsComplete result.actions viewer (Planned-IsComplete p)
Planned-IsComplete (stepped name viewer p) =
    add_operation-IsComplete name "SKIPPED" viewer (Planned-IsComplete p)
Planned-IsComplete (updated name result viewer p) =
    update_result-IsComplete name result viewer (Planned-IsComplete p)

-- Whether the keys of all actions are there: else the exception of the first without one.
unfoldable readable_actions : List WatcherAction → Outcome (Unit {0})
readable_actions [] = return tt
readable_actions (action ∷ actions) =
    get_watcher_action_key action >>= λ key. readable_actions actions

-- What reading the message of an audit comes to.
unfoldable readable_audit : Message → Outcome (Unit {0})
unfolding readable_actions
readable_audit (watcher_actions actions) = readable_actions actions
readable_audit nothing = raise type_error
readable_audit (text s) = if s == "" then return tt else raise attribute_error
readable_audit (output o) = raise attribute_error

unfoldable readable_ceph : Message → Outcome (Unit {0})
readable_ceph (output o) = return tt
readable_ceph _ = raise attribute_error

unfoldable readable_id : Message → Outcome (Unit {0})
readable_id (output o) = elim o.id [ none ↦ raise key_error | some operation ↦ return tt ]
readable_id _ = raise type_error

-- Whether the message of the step of this name can be read, or the exception.
unfoldable pub readable : String → Message → Outcome (Unit {0})
unfolding readable_audit readable_ceph readable_id
readable name message =
    if name == "RunWatcherAuditStep"
    then readable_audit message
    else if name == "MicroCephActionStep"
    then readable_ceph message
    else if elem name by_id
    then readable_id message
    else return tt

update_actions-readable :
    (actions : List WatcherAction) (viewer : OperationViewer)
    → (update_watcher_actions_result actions viewer).1 ≡ readable_actions actions
unfolding update_watcher_actions_result readable_actions continue_with
update_actions-readable [] viewer = refl
update_actions-readable (action ∷ actions) viewer =
    continued viewer (get_watcher_action_key action) _ (readable_actions actions)
      (λ key. update_actions-readable actions (set_state key action.state viewer))
  where
    continued :
        (viewer : OperationViewer) (o : Outcome String) (next : String → Changed)
        (rest : Outcome (Unit {0}))
        → ((key : String) → (next key).1 ≡ rest)
        → (continue_with viewer o next).1 ≡ (o >>= λ key. rest)
    continued viewer (return key) next rest law = law key
    continued viewer (raise e) next rest law = refl

update_audit-readable :
    (m : Message) (viewer : OperationViewer) → (update_audit m viewer).1 ≡ readable_audit m
unfolding update_audit readable_audit
update_audit-readable nothing viewer = refl
update_audit-readable (text s) viewer = refl
update_audit-readable (watcher_actions actions) viewer = update_actions-readable actions viewer
update_audit-readable (output o) viewer = refl

update_ceph-readable :
    (m : Message) (viewer : OperationViewer) → (update_ceph m viewer).1 ≡ readable_ceph m
unfolding update_ceph readable_ceph
update_ceph-readable nothing viewer = refl
update_ceph-readable (text s) viewer = refl
update_ceph-readable (watcher_actions actions) viewer = refl
update_ceph-readable (output o) viewer = refl

update_output-readable :
    (t : ResultType) (o : Option String) (viewer : OperationViewer)
    → (update_output t o viewer).1
      ≡ (elim o [ none ↦ raise key_error | some operation ↦ return tt ])
unfolding update_output
update_output-readable t none viewer = refl
update_output-readable t (some operation) viewer = refl

update_by_id-readable :
    (t : ResultType) (m : Message) (viewer : OperationViewer)
    → (update_by_id t m viewer).1 ≡ readable_id m
unfolding update_by_id readable_id
update_by_id-readable t nothing viewer = refl
update_by_id-readable t (text s) viewer = refl
update_by_id-readable t (watcher_actions actions) viewer = refl
update_by_id-readable t (output o) viewer = update_output-readable t o.id viewer

if-readable :
    (b : Bool) (x y : Changed) (r q : Outcome (Unit {0}))
    → x.1 ≡ r
    → y.1 ≡ q
    → (if b then x else y).1 ≡ (if b then r else q)
if-readable true x y r q h k = h
if-readable false x y r q h k = k

not_by_id : (name : String) → name == "EnableHypervisorStep" ≡ true → elem name by_id ≡ false
not_by_id name h =
    subst (λ n. elem n by_id ≡ false) (sym ((eq_iff name "EnableHypervisorStep").0 h)) refl

update_result-readable :
    (name : String) (result : Result Message) (viewer : OperationViewer)
    → (update_result name result viewer).1 ≡ readable name result.message
unfolding update_result readable
update_result-readable name result viewer =
    if-readable (name == "RunWatcherAuditStep") _ _ _ _
      (update_audit-readable result.message viewer)
      (if-readable (name == "MicroCephActionStep") _ _ _ _
        (update_ceph-readable result.message viewer)
        (elim (Bool-cases (name == "EnableHypervisorStep")) [
          | inl hypervisor ↦ rw (hypervisor, not_by_id name hypervisor) refl
          | inr other ↦ rw other (
              if-readable (elem name by_id) _ _ _ _
                (update_by_id-readable result.result_type result.message viewer) refl)
        ]))

-- Whether all messages can be read, in their order: else the exception of the first that cannot.
unfoldable pub all_readable : Dict (Result Message) → Outcome (Unit {0})
unfolding readable
all_readable [] = return tt
all_readable ((name, result) ∷ results) = readable name result.message >> all_readable results

-- The last of the results that has failed, with its name.
unfoldable pub last_failure :
    Dict (Result Message) → Option (String × Message) → Option (String × Message)
last_failure [] found = found
last_failure ((name, result) ∷ results) found =
    last_failure results
      (if is_failed result.result_type then some (name, result.message) else found)

unfoldable pub verdict : Option (String × Message) → Outcome (Unit {0})
verdict none = return tt
verdict (some (name, message)) = raise (raise_exception name message)

>>-assoc : (o p q : Outcome (Unit {0})) → (o >> (p >> q)) ≡ ((o >> p) >> q)
>>-assoc (return t) p q = refl
>>-assoc (raise e) p q = refl

finish-verdict :
    (failure : Option (String × Message)) (viewer : OperationViewer)
    → IsComplete viewer
    → (finish failure viewer).1 ≡ verdict failure
unfolding finish operation_result verdict
finish-verdict none viewer h =
    let (lines, e) = operation_states_of-return viewer.operations viewer.operation_states h in
    rw e refl
finish-verdict (some (name, message)) viewer h =
    let (lines, e) = operation_states_of-return viewer.operations viewer.operation_states h in
    rw e refl

then_check-readable :
    (c : Changed) (next : OperationViewer → Changed) (r rest : Outcome (Unit {0}))
    → c.1 ≡ r
    → (next c.0).1 ≡ rest
    → (then_check c next).1 ≡ (r >> rest)
unfolding then_check
then_check-readable (viewer, return tt) next (return t) rest h k = k
then_check-readable (viewer, return t) next (raise e) rest h k = cc
then_check-readable (viewer, raise e) next (return t) rest h k = cc
then_check-readable (viewer, raise e) next (raise f) rest h k = cc

check_results-verdict :
    (results : Dict (Result Message)) (failure : Option (String × Message))
    (viewer : OperationViewer)
    → IsComplete viewer
    → (check_results results failure viewer).1
      ≡ (all_readable results >> verdict (last_failure results failure))
unfolding check_results last_failure all_readable
check_results-verdict [] failure viewer h = finish-verdict failure viewer h
check_results-verdict ((name, result) ∷ results) failure viewer h =
    then_check-readable (update_result name result viewer) _ (readable name result.message) _
      (update_result-readable name result viewer)
      (check_results-verdict results _ (update_result name result viewer).0
        (update_result-IsComplete name result viewer h))
    ∙ >>-assoc (readable name result.message) (all_readable results) _

-- The check of a viewer that was filled by its own methods raises the exception of the first result whose message
-- cannot be read as the viewer reads those of its step: actions of Watcher that have keys, an output of a charm, or an
-- output with an identifier. If there is none, it raises what belongs to the last failed result, and nothing if no
-- result has failed: no operation is without a state.
pub check_operation_succeeded-verdict :
    (results : Dict (Result Message)) (viewer : OperationViewer)
    → Planned viewer
    → (check_operation_succeeded results viewer).1
      ≡ (all_readable results >> verdict (last_failure results none))
unfolding check_operation_succeeded
check_operation_succeeded-verdict results viewer p =
    check_results-verdict results none viewer (Planned-IsComplete p)
