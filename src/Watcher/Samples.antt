-- ===== src/Watcher/Samples.antt =====
-- A wait for two actions, of which one is completed at the second attempt.
use snap_openstack.Dict.{get, set}
use snap_openstack.Prelude.{
  ◌≡◌, refl, true, false, [], ◌∷◌, List, return, raise, io_error, any, String, ◌≤◌,
  sunbeam_exception, watcher_action_failed, string_eq,
}
use snap_openstack.Watcher.{
  Action, WaitProgress, wait_until_action_state, create_audit, exec_plans, set_pending,
}
use snap_openstack.Watcher.Counts.{up_to, wait_until_action_state-shown}
use snap_openstack.Watcher.Waiting.{seen_in, wait_until_action_state-seen}

abbrev both_pending : List Action
both_pending =
    record { uuid = "a"; state = "PENDING" } ∷ record { uuid = "b"; state = "PENDING" } ∷ []

abbrev one_done : List Action
one_done =
    record { uuid = "a"; state = "SUCCEEDED" } ∷ record { uuid = "b"; state = "ONGOING" } ∷ []

abbrev both_done : List Action
both_done =
    record { uuid = "a"; state = "SUCCEEDED" } ∷ record { uuid = "b"; state = "SKIPPED" } ∷ []

abbrev expected : List String
expected = "SUCCEEDED" ∷ "SKIPPED" ∷ []

abbrev done : WaitProgress
done = record { completed = ("a", true) ∷ ("b", true) ∷ []; nb_completed = 2; shown = 1 ∷ 2 ∷ [] }

wait_done :
    wait_until_action_state expected
      (return both_pending)
      (return one_done)
      (raise io_error ∷ return both_done ∷ [])
    ≡ return done
unfolding wait_until_action_state get set_pending set
wait_done = refl

wait_given_up :
    wait_until_action_state expected (return both_pending) (return one_done) (return one_done ∷ [])
    ≡ raise sunbeam_exception
unfolding wait_until_action_state get set_pending set
wait_given_up = refl

-- A failed action ends the wait at once.
wait_failed :
    wait_until_action_state expected
      (return both_pending)
      (return (record { uuid = "a"; state = "FAILED" } ∷ []))
      (return both_done ∷ [])
    ≡ raise watcher_action_failed
unfolding wait_until_action_state get set_pending set
wait_failed = refl

-- An action that was not listed at the start counts too: the wait ends while the second is pending.
wait_counts_others :
    wait_until_action_state expected
      (return both_pending)
      (return (
        record { uuid = "a"; state = "SUCCEEDED" }
        ∷ record { uuid = "b"; state = "PENDING" }
        ∷ record { uuid = "c"; state = "SUCCEEDED" }
        ∷ []))
      []
    ≡ return (record {
      completed = ("a", true) ∷ ("b", false) ∷ ("c", true) ∷ [];
      nb_completed = 2;
      shown = 1 ∷ 2 ∷ [];
    })
unfolding wait_until_action_state get set_pending set
wait_counts_others = refl

create_audit_failed :
    create_audit (return "audit") (return "PENDING") (return "FAILED" ∷ []) (return [])
    ≡ raise sunbeam_exception
unfolding create_audit
create_audit_failed = refl

create_audit_succeeded :
    create_audit
      (return "audit")
      (return "PENDING")
      (return "SUCCEEDED" ∷ [])
      (return (record { uuid = "plan"; state = "RECOMMENDED" } ∷ []))
    ≡ return "audit"
unfolding create_audit
create_audit_succeeded = refl

exec_plans_skips :
    exec_plans
      (λ u. return tt)
      (record { uuid = "p"; state = "SUCCEEDED" }
        ∷ record { uuid = "q"; state = "RECOMMENDED" }
        ∷ [])
    ≡ ("q" ∷ [], return tt)
unfolding exec_plans
exec_plans_skips = refl

wait_until_action_state-shown_example : (done.shown ≡ up_to 2) × (2 ≤ 2)
wait_until_action_state-shown_example =
    wait_until_action_state-shown expected both_pending (return one_done)
      (raise io_error ∷ return both_done ∷ []) wait_done

wait_until_action_state-seen_example :
    any (seen_in expected "b") (return one_done ∷ raise io_error ∷ return both_done ∷ []) ≡ true
wait_until_action_state-seen_example =
    wait_until_action_state-seen expected both_pending (return one_done)
      (raise io_error ∷ return both_done ∷ []) "b"
      ((refl, (refl, tt)), (tt, ((refl, (refl, tt)), tt))) wait_done refl
