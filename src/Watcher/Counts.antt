-- ===== src/Watcher/Counts.antt =====
-- The count of completed actions, and what the status shows of it.
use snap_openstack.Prelude.{
  ℕ, zero, suc, ◌≤◌, String, ◌≡◌, refl, ap, ◌∙◌, Bool, true, false, List, [], ◌∷◌, ◌++◌, length,
  ◌==◌, string_eq, return, Bool-cases, inl, inr, arith, Outcome, sym, All, raise,
}
use snap_openstack.Dict.{Dict, get, set}
use snap_openstack.Watcher.Keeping.{Shows, attempts-keep}
use snap_openstack.Watcher.{
  Action, WaitProgress, sum_values, is_completed, complete, wait_until_action_state, set_pending,
}

pub sum_values-set :
    (k : String) (d : Dict Bool)
    → is_completed (get k d) ≡ false
    → sum_values (set k true d) ≡ suc (sum_values d)
unfolding sum_values set get is_completed
sum_values-set k [] h = refl
sum_values-set k ((j, b) ∷ d) h = elim (Bool-cases (j == k)) [
  | inl same ↦ let e : b ≡ false = rw same at h in rw (same, e) (omega arith)
  | inr other ↦
      let e : is_completed (get k d) ≡ false = rw other at h in
      rw other (omega (arith, sum_values-set k d e))
]

pub sum_values-bound : (d : Dict Bool) → sum_values d ≤ length d
unfolding sum_values
sum_values-bound [] = ground arith
sum_values-bound ((k, true) ∷ d) = omega (arith, sum_values-bound d)
sum_values-bound ((k, false) ∷ d) = omega (arith, sum_values-bound d)

-- 1, 2, ... up to a number.
unfoldable pub up_to : ℕ → List ℕ
up_to zero = []
up_to (suc n) = up_to n ++ (suc n ∷ [])

-- The number of completed actions is the sum, and every number up to it was shown once, in order.
abbrev pub IsCounted : WaitProgress → Type 0
IsCounted p = (p.nb_completed ≡ sum_values p.completed) × (p.shown ≡ up_to p.nb_completed)

complete-IsCounted :
    (uuid : String) (p : WaitProgress)
    → is_completed (get uuid p.completed) ≡ false
    → IsCounted p
    → IsCounted (complete uuid p)
unfolding complete up_to
complete-IsCounted uuid p fresh h =
    let e = sum_values-set uuid p.completed fresh in
    let f : p.shown ≡ up_to (sum_values p.completed) = h.1 ∙ ap up_to h.0 in (refl, rw (e, f) refl)

sum_values-set-false :
    (k : String) (d : Dict Bool) → sum_values d ≡ 0 → sum_values (set k false d) ≡ 0
unfolding sum_values set
sum_values-set-false k [] h = refl
sum_values-set-false k ((j, true) ∷ d) h = omega (arith, h)
sum_values-set-false k ((j, false) ∷ d) h = elim (Bool-cases (j == k)) [
  | inl same ↦ rw same (omega (arith, h))
  | inr other ↦ rw other (omega (arith, sum_values-set-false k d (omega (arith, h))))
]

-- Every answer of the client is admitted.
All_polls :
    (expected : List String) (polls : List (Outcome (List Action)))
    → All
        (Shows expected IsCounted (λ a. Unit) (λ a p c d h. complete-IsCounted a.uuid p d.0 h))
        polls
All_polls expected [] = tt
All_polls expected (return actions ∷ polls) = (All_actions actions, All_polls expected polls)
  where
    All_actions : (actions : List Action) → All (λ a. Unit {0}) actions
    All_actions [] = tt
    All_actions (a ∷ actions) = (tt, All_actions actions)
All_polls expected (raise e ∷ polls) = (tt, All_polls expected polls)

pub sum_values-set_pending :
    (actions : List Action) (d : Dict Bool)
    → sum_values d ≡ 0
    → sum_values (set_pending actions d) ≡ 0
unfolding set_pending
sum_values-set_pending [] d h = h
sum_values-set_pending (a ∷ actions) d h =
    sum_values-set_pending actions (set a.uuid false d) (sum_values-set-false a.uuid d h)

-- When the wait for the actions returns, the status has shown the numbers 1, 2, ... up to the number of
-- completed actions, each once and in this order, and that number is not less than the number of actions
-- that were listed at the start.
pub wait_until_action_state-shown :
    (expected : List String) (listed : List Action) (first : Outcome (List Action))
    (later : List (Outcome (List Action))) {p : WaitProgress}
    → wait_until_action_state expected (return listed) first later ≡ return p
    → (p.shown ≡ up_to p.nb_completed) × (length listed ≤ p.nb_completed)
unfolding wait_until_action_state up_to
wait_until_action_state-shown expected listed first later {p} e =
    let polls = All_polls expected (first ∷ later) in
    let (counted, enough) =
      attempts-keep expected IsCounted (λ a. Unit) (λ a p c d h. complete-IsCounted a.uuid p d.0 h)
        (length listed) _ first later polls.0 polls.1
        (sym (sum_values-set_pending listed [] refl), refl) e in
    (counted.1, ground (arith, enough))
