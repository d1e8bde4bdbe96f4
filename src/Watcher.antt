-- ===== src/Watcher.antt =====
-- sunbeam-python/sunbeam/core/watcher.py: audits of Watcher and the wait for their actions. The client is a
-- parameter: what each of its requests answers. A retried body is run on what it sees at each attempt; how
-- many attempts there are is for the retry policy of tenacity to say, and after the last one the error of
-- that attempt is raised.
mod Keeping
mod Counts
mod Waiting
mod Samples
use snap_openstack.Prelude.{
  ℕ, zero, suc, ◌+◌, String, Bool, true, false, Option, none, some, List, [], ◌∷◌, ◌++◌, length,
  elem, ◌==◌, string_eq, if◌then◌else◌, Outcome, return, raise, ◌>>=◌, ◌>>◌, guard, all, ltb,
  Exception, sunbeam_exception, watcher_action_failed, not,
}
use snap_openstack.Dict.{Dict, get, set}

pub record Action : Type 0 where
  pub uuid : String
  pub state : String

pub record ActionPlan : Type 0 where
  pub uuid : String
  pub state : String

-- A retried body that keeps nothing between its attempts. The arguments are what the body gives at the
-- first attempt and at those after it.
unfoldable pub retry {ℓ} : {A : Type ℓ} → Outcome A → List (Outcome A) → Outcome A
retry (return a) later = return a
retry (raise e) [] = raise e
retry (raise e) (next ∷ later) = retry next later

abbrev target_states : List String
target_states = "SUCCEEDED" ∷ "FAILED" ∷ []

-- The body of `_wait_resource_in_target_state`, which returns the state of the resource.
unfoldable in_target_state : Outcome String → Outcome String
in_target_state src = do
  state ← src
  guard (elem state target_states) sunbeam_exception
  return state

unfoldable map_polls : List (Outcome String) → List (Outcome String)
unfolding in_target_state
map_polls [] = []
map_polls (p ∷ ps) = in_target_state p ∷ map_polls ps

-- `_wait_resource_in_target_state`
unfoldable pub wait_resource_in_target_state :
    Outcome String → List (Outcome String) → Outcome String
unfolding retry in_target_state map_polls
wait_resource_in_target_state first later = retry (in_target_state first) (map_polls later)

abbrev is_ready : ActionPlan → Bool
is_ready plan = elem plan.state ("RECOMMENDED" ∷ "SUCCEEDED" ∷ [])

-- `_check_audit_plans_recommended`
unfoldable pub check_audit_plans_recommended : Outcome (List ActionPlan) → Outcome (Unit {0})
check_audit_plans_recommended answer = do
  plans ← answer
  guard (all is_ready plans) sunbeam_exception

-- `create_audit`: the identifier of the audit that was created, what each look at it finds, and its plans.
unfoldable pub create_audit :
    Outcome String
    → Outcome String
    → List (Outcome String)
    → Outcome (List ActionPlan)
    → Outcome String
unfolding wait_resource_in_target_state check_audit_plans_recommended
create_audit created first later plans = do
  audit ← created
  state ← wait_resource_in_target_state first later
  guard (state == "SUCCEEDED") sunbeam_exception
  check_audit_plans_recommended plans >> return audit

-- `exec_audit` and `_exec_plan`: the plans that are started, up to the one whose start is refused.
unfoldable pub exec_plans :
    (String → Outcome (Unit {0})) → List ActionPlan → List String × Outcome (Unit {0})
exec_plans start [] = ([], return tt)
exec_plans start (plan ∷ plans) =
    let rest = exec_plans start plans in
    if plan.state == "SUCCEEDED" then rest else elim (start plan.uuid) [
      | return t ↦ (plan.uuid ∷ rest.0, rest.1)
      | raise e ↦ (plan.uuid ∷ [], raise e)
    ]

-- What the attempts of `wait_until_action_state` share: `completed_actions`, `nb_completed_actions`, and
-- the numbers that the status has shown.
pub record WaitProgress : Type 0 where
  pub completed : Dict Bool
  pub nb_completed : ℕ
  pub shown : List ℕ

abbrev pub one_if : Bool → ℕ
one_if true = 1
one_if false = 0

-- `sum(completed_actions.values())`
unfoldable pub sum_values : Dict Bool → ℕ
sum_values [] = 0
sum_values ((k, b) ∷ d) = one_if b + sum_values d

unfoldable pub is_completed : Option Bool → Bool
is_completed none = false
is_completed (some b) = b

unfoldable pub complete : String → WaitProgress → WaitProgress
unfolding sum_values
complete uuid p =
    let completed = set uuid true p.completed in
    record {
      completed = completed;
      nb_completed = sum_values completed;
      shown = p.shown ++ (sum_values completed ∷ []);
    }

-- One turn of the loop over the actions.
unfoldable pub visit_action : List String → Action → WaitProgress → Outcome WaitProgress
unfolding is_completed complete
visit_action expected action p =
    if is_completed (get action.uuid p.completed)
    then return p
    else if action.state == "FAILED"
    then raise watcher_action_failed
    else if elem action.state expected
    then return (complete action.uuid p)
    else return p

unfoldable pub visit_actions : List String → List Action → WaitProgress → Outcome WaitProgress
unfolding visit_action
visit_actions expected [] p = return p
visit_actions expected (action ∷ actions) p =
    visit_action expected action p >>= visit_actions expected actions

-- How an attempt ends: with success, with the error that ends the wait, or with one that is retried.
pub data Attempt : Type 0 where
  succeeded : WaitProgress → Attempt
  failed : Exception → Attempt
  again : Exception → WaitProgress → Attempt

-- Only the failure of an action is not tried again.
unfoldable pub settle_error : Exception → WaitProgress → Attempt
settle_error watcher_action_failed p = failed watcher_action_failed
settle_error e p = again e p

unfoldable pub judge_attempt : ℕ → WaitProgress → Outcome WaitProgress → Attempt
unfolding settle_error
judge_attempt nb_actions before (raise e) = settle_error e before
judge_attempt nb_actions before (return p) =
    if ltb p.nb_completed nb_actions then again sunbeam_exception p else succeeded p

unfoldable pub attempt : List String → ℕ → Outcome (List Action) → WaitProgress → Attempt
unfolding visit_actions judge_attempt settle_error
attempt expected nb_actions (raise e) p = settle_error e p
attempt expected nb_actions (return actions) p =
    judge_attempt nb_actions p (visit_actions expected actions p)

-- The attempts: the answers of the client to the first and to the later ones.
unfoldable pub attempts_from :
    (List (Outcome (List Action)))
    → (Outcome (List Action) → WaitProgress → Attempt)
    → Attempt
    → Outcome WaitProgress
attempts_from later next (succeeded p) = return p
attempts_from later next (failed e) = raise e
attempts_from [] next (again e p) = raise e
attempts_from (poll ∷ later) next (again e p) = attempts_from later next (next poll p)

-- `dict.fromkeys(uuids, False)`, one key after the other.
unfoldable pub set_pending : List Action → Dict Bool → Dict Bool
set_pending [] d = d
set_pending (action ∷ actions) d = set_pending actions (set action.uuid false d)

-- `wait_until_action_state`
unfoldable pub wait_until_action_state :
    List String
    → Outcome (List Action)
    → Outcome (List Action)
    → List (Outcome (List Action))
    → Outcome WaitProgress
unfolding attempt attempts_from
wait_until_action_state expected listed first later = do
  actions ← listed
  let start : WaitProgress = record {
    completed = set_pending actions [];
    nb_completed = 0;
    shown = [];
  }
  attempts_from later (attempt expected (length actions))
      (attempt expected (length actions) first start)
