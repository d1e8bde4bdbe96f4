-- ===== src/Watcher/Keeping.antt =====
-- What every completion of an action keeps, a wait keeps.
use snap_openstack.Prelude.{
  ℕ, String, ◌≡◌, subst, refl, true, false, List, [], ◌∷◌, elem, ◌==◌, string_eq, ◌⊎◌, inl, inr,
  Outcome, return, raise, >>=-eq-return, ltb, Bool-cases, All, Exception, watcher_action_failed,
}
use snap_openstack.Dict.{get}
use snap_openstack.Watcher.{
  Action, WaitProgress, is_completed, complete, visit_action, visit_actions, Attempt, succeeded,
  failed, again, attempt, judge_attempt, settle_error, attempts_from,
}

-- The action is completed by this turn of the loop.
abbrev pub IsCompletion : List String → Action → WaitProgress → Type 0
IsCompletion expected action p =
    (is_completed (get action.uuid p.completed) ≡ false) × (elem action.state expected ≡ true)

visit_action-cases :
    (expected : List String) (action : Action) (p : WaitProgress) {q : WaitProgress}
    → visit_action expected action p ≡ return q
    → (p ≡ q) ⊎ (IsCompletion expected action p × (complete action.uuid p ≡ q))
unfolding visit_action
visit_action-cases expected action p {q} e =
    elim (Bool-cases (is_completed (get action.uuid p.completed))) [
      | inl done ↦ inl (cc (rw done at e))
      | inr fresh ↦ elim (Bool-cases (action.state == "FAILED")) [
        | inl bad ↦ cc (rw (fresh, bad) at e)
        | inr on ↦ elim (Bool-cases (elem action.state expected)) [
          | inl seen ↦ inr ((fresh, seen), cc (rw (fresh, on, seen) at e))
          | inr waiting ↦ inl (cc (rw (fresh, on, waiting) at e))
        ]
      ]
    ]

-- An invariant of the completions, of the actions that have a property.
module _ (expected : List String) (I : WaitProgress → Type 0) (C : Action → Type 0)
    (keeps : (a : Action) (p : WaitProgress)
      → C a
      → IsCompletion expected a p
      → I p
      → I (complete a.uuid p)) where
  visit_action-keeps :
      (a : Action) (p : WaitProgress) {q : WaitProgress}
      → C a
      → visit_action expected a p ≡ return q
      → I p
      → I q
  visit_action-keeps a p c e h = elim (visit_action-cases expected a p e) [
    | inl same ↦ subst I same h
    | inr done ↦ subst I done.1 (keeps a p c done.0 h)
  ]

  visit_actions-keeps :
      (actions : List Action) (p : WaitProgress) {q : WaitProgress}
      → All C actions
      → visit_actions expected actions p ≡ return q
      → I p
      → I q
  unfolding visit_actions
  visit_actions-keeps [] p {q} c e h = let k : p ≡ q = cc e in subst I k h
  visit_actions-keeps (a ∷ actions) p c e h =
      let (r, f, g) = >>=-eq-return (visit_action expected a p) _ e in
      visit_actions-keeps actions r c.1 g (visit_action-keeps a p c.0 f h)

  -- An answer of the client that lists only such actions.
  abbrev pub Shows : Outcome (List Action) → Type 0
  Shows (return actions) = All C actions
  Shows (raise e) = Unit

  abbrev Kept : ℕ → Attempt → Type 0
  Kept n (succeeded p) = I p × (ltb p.nb_completed n ≡ false)
  Kept n (failed e) = Unit
  Kept n (again e p) = I p

  settle_error-Kept : (n : ℕ) (e : Exception) (p : WaitProgress) → I p → Kept n (settle_error e p)
  unfolding settle_error
  settle_error-Kept n e p h = elim e as (λ x. Kept n (settle_error x p)) [
    | watcher_action_failed ↦ tt
    | _ ↦ h
  ]

  judge_attempt-Kept :
      (n : ℕ) (p : WaitProgress) (o : Outcome WaitProgress)
      → I p
      → ((q : WaitProgress) → o ≡ return q → I q)
      → Kept n (judge_attempt n p o)
  unfolding judge_attempt
  judge_attempt-Kept n p (raise e) h k = settle_error-Kept n e p h
  judge_attempt-Kept n p (return q) h k = elim (Bool-cases (ltb q.nb_completed n)) [
    | inl early ↦ rw early (k q refl)
    | inr done ↦ rw done (k q refl, done)
  ]

  attempt-Kept :
      (n : ℕ) (poll : Outcome (List Action)) (p : WaitProgress)
      → Shows poll
      → I p
      → Kept n (attempt expected n poll p)
  unfolding attempt
  attempt-Kept n (raise e) p s h = settle_error-Kept n e p h
  attempt-Kept n (return actions) p s h =
      judge_attempt-Kept n p (visit_actions expected actions p) h
        (λ q e. visit_actions-keeps actions p s e h)

  attempts_from-keeps :
      (n : ℕ) (later : List (Outcome (List Action))) (a : Attempt) {q : WaitProgress}
      → All Shows later
      → Kept n a
      → attempts_from later (attempt expected n) a ≡ return q
      → I q × (ltb q.nb_completed n ≡ false)
  unfolding attempts_from
  attempts_from-keeps n later (succeeded p) s h e =
      subst (λ r. I r × (ltb r.nb_completed n ≡ false)) (cc e) h
  attempts_from-keeps n later (failed x) s h e = cc
  attempts_from-keeps n [] (again x p) s h e = cc
  attempts_from-keeps n (poll ∷ later) (again x p) s h e =
      attempts_from-keeps n later (attempt expected n poll p) s.1 (attempt-Kept n poll p s.0 h) e

  pub attempts-keep :
      (n : ℕ) (p : WaitProgress) (first : Outcome (List Action))
      (later : List (Outcome (List Action))) {q : WaitProgress}
      → Shows first
      → All Shows later
      → I p
      → attempts_from later (attempt expected n) (attempt expected n first p) ≡ return q
      → I q × (ltb q.nb_completed n ≡ false)
  attempts-keep n p first later s t h e =
      attempts_from-keeps n later (attempt expected n first p) t (attempt-Kept n first p s h) e
