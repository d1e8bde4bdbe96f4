-- ===== src/Watcher/Waiting.antt =====
-- A wait that returns has seen every action in an expected state.
use snap_openstack.Prelude.{
  ◌+◌, suc, ◌≤◌, String, ◌≡◌, refl, ap, sym, ◌∙◌, subst, Bool, true, false, ◌||◌, ◌&&◌, List, [],
  ◌∷◌, length, elem, ◌==◌, string_eq, Outcome, return, raise, Bool-cases, inl, inr, arith, eq_iff,
  All, any,
}
use snap_openstack.Dict.{Dict, get, set, has, keys, get-set, has-set}
use snap_openstack.Watcher.{
  Action, WaitProgress, sum_values, is_completed, complete, wait_until_action_state, set_pending,
}
use snap_openstack.Watcher.Keeping.{Shows, attempts-keep, IsCompletion}
use snap_openstack.Watcher.Counts.{sum_values-bound, sum_values-set_pending}

keys-set : (k : String) (v : Bool) (d : Dict Bool) → has k d ≡ true → keys (set k v d) ≡ keys d
unfolding keys set
keys-set k v [] h = cc
keys-set k v ((j, w) ∷ d) h = elim (Bool-cases (j == k)) [
  | inl same ↦ rw same refl
  | inr other ↦ rw other (ap (λ l. j ∷ l) (keys-set k v d (rw other at h)))
]

length-set : (k : String) (v : Bool) (d : Dict Bool) → length (set k v d) ≤ suc (length d)
unfolding set
length-set k v [] = ground arith
length-set k v ((j, w) ∷ d) = elim (Bool-cases (j == k)) [
  | inl same ↦ rw same (omega arith)
  | inr other ↦ rw other (omega (arith, length-set k v d))
]

length-keys : (d : Dict Bool) → length (keys d) ≡ length d
unfolding keys
length-keys [] = refl
length-keys ((k, b) ∷ d) = omega (arith, length-keys d)

-- Where as many values are true as there are keys, all are.
all_completed :
    (u : String) (d : Dict Bool)
    → length d ≤ sum_values d
    → has u d ≡ true
    → is_completed (get u d) ≡ true
unfolding sum_values get keys is_completed
all_completed u [] h k = cc
all_completed u ((j, true) ∷ d) h k = elim (Bool-cases (j == u)) [
  | inl same ↦ rw same refl
  | inr other ↦ rw other (all_completed u d (omega (arith, h)) (rw other at k))
]
all_completed u ((j, false) ∷ d) h k =
    let impossible : ⊥ = omega (arith, h, sum_values-bound d) in elim impossible [ ]

length-set_pending :
    (actions : List Action) (d : Dict Bool)
    → length (set_pending actions d) ≤ length actions + length d
unfolding set_pending
length-set_pending [] d = omega arith
length-set_pending (a ∷ actions) d =
    omega (arith, length-set_pending actions (set a.uuid false d), length-set a.uuid false d)

has-set_pending :
    (u : String) (actions : List Action) (d : Dict Bool)
    → has u (set_pending actions d) ≡ (has u d || any (λ a. a.uuid == u) actions)
unfolding set_pending
has-set_pending u [] d = ground arith
has-set_pending u (a ∷ actions) d =
    ground (arith, has-set_pending u actions (set a.uuid false d), has-set a.uuid u false d)

none_completed :
    (u : String) (actions : List Action) (d : Dict Bool)
    → is_completed (get u d) ≡ false
    → is_completed (get u (set_pending actions d)) ≡ false
unfolding set_pending is_completed
none_completed u [] d h = h
none_completed u (a ∷ actions) d h = none_completed u actions (set a.uuid false d) (
    rw (get-set a.uuid u false d)
      (elim (Bool-cases (a.uuid == u)) [ inl same ↦ rw same refl | inr other ↦ rw other h ]))

-- An answer of the client shows the action in an expected state.
unfoldable pub seen_in : List String → String → Outcome (List Action) → Bool
seen_in expected u (raise e) = false
seen_in expected u (return actions) = any (λ a. a.uuid == u && elem a.state expected) actions

-- An answer lists only actions that were listed at the start.
abbrev pub IsKnown : List Action → Outcome (List Action) → Type 0
IsKnown listed (raise e) = Unit
IsKnown listed (return actions) = All (λ a. any (λ b. b.uuid == a.uuid) listed ≡ true) actions

module _ (expected : List String) (listed : List Action) (W : String → Type 0) where
  abbrev start : Dict Bool
  start = set_pending listed []

  -- The keys stay, the count is right, and what is completed is witnessed.
  abbrev IsWitnessed : WaitProgress → Type 0
  IsWitnessed p =
      (keys p.completed ≡ keys start)
      × (p.nb_completed ≡ sum_values p.completed)
      × ((u : String) → is_completed (get u p.completed) ≡ true → W u)

  abbrev IsWitness : Action → Type 0
  IsWitness a = (has a.uuid start ≡ true) × (elem a.state expected ≡ true → W a.uuid)

  complete-IsWitnessed :
      (a : Action) (p : WaitProgress)
      → IsWitness a
      → IsCompletion expected a p
      → IsWitnessed p
      → IsWitnessed (complete a.uuid p)
  unfolding complete is_completed
  complete-IsWitnessed a p c d h =
      let there : has a.uuid p.completed ≡ true = ap (elem a.uuid) h.0 ∙ c.0 in
      (
        keys-set a.uuid true p.completed there ∙ h.0,
        refl,
        λ u e. elim (Bool-cases (a.uuid == u)) [
          | inl same ↦ subst W ((eq_iff a.uuid u).0 same) (c.1 d.1)
          | inr other ↦ h.2 u (rw (get-set a.uuid u true p.completed, other) at e)
        ],
      )

  abbrev WShows : Outcome (List Action) → Type 0
  WShows = Shows expected IsWitnessed IsWitness complete-IsWitnessed

  actions-IsWitness :
      (actions : List Action)
      → All (λ a. any (λ b. b.uuid == a.uuid) listed ≡ true) actions
      → ((u : String) → any (λ a. a.uuid == u && elem a.state expected) actions ≡ true → W u)
      → All IsWitness actions
  actions-IsWitness [] k w = tt
  actions-IsWitness (a ∷ actions) k w = (
    (
      ground (arith, has-set_pending a.uuid listed [], k.0),
      λ e. w a.uuid (ground (arith, eq_iff a.uuid a.uuid, e)),
    ),
    actions-IsWitness actions k.1 (λ u e. w u (ground (arith, e))),
  )

  polls-WShows :
      (polls : List (Outcome (List Action)))
      → All (IsKnown listed) polls
      → ((u : String) → any (seen_in expected u) polls ≡ true → W u)
      → All WShows polls
  unfolding seen_in
  polls-WShows [] k w = tt
  polls-WShows (raise e ∷ polls) k w = (tt, polls-WShows polls k.1 w)
  polls-WShows (return actions ∷ polls) k w = (
    actions-IsWitness actions k.0 (λ u e. w u (ground (arith, e))),
    polls-WShows polls k.1 (λ u e. w u (ground (arith, e))),
  )

-- When the wait for the actions returns, each action that was listed at the start has been seen in an
-- expected state by one of the attempts, if no attempt lists an action that was not listed at the start.
pub wait_until_action_state-seen :
    (expected : List String) (listed : List Action) (first : Outcome (List Action))
    (later : List (Outcome (List Action))) {p : WaitProgress} (u : String)
    → All (IsKnown listed) (first ∷ later)
    → wait_until_action_state expected (return listed) first later ≡ return p
    → any (λ a. a.uuid == u) listed ≡ true
    → any (seen_in expected u) (first ∷ later) ≡ true
unfolding wait_until_action_state get
wait_until_action_state-seen expected listed first later {p} u known e h =
    let W : String → Type 0 = λ u. any (seen_in expected u) (first ∷ later) ≡ true in
    let shows = polls-WShows expected listed W (first ∷ later) known (λ u e. e) in
    let none_yet : (v : String) → is_completed (get v (set_pending listed [])) ≡ true → W v =
      λ v e. let no = none_completed v listed [] refl in cc in
    let (witnessed, enough) =
      attempts-keep expected (IsWitnessed expected listed W) (IsWitness expected listed W)
        (complete-IsWitnessed expected listed W) (length listed) _ first later shows.0 shows.1
        (refl, sym (sum_values-set_pending listed [] refl), none_yet) e in
    let same : length p.completed ≡ length (set_pending listed []) =
      sym (length-keys p.completed) ∙ ap length witnessed.0 ∙ length-keys (set_pending listed []) in
    let nb : length listed ≤ p.nb_completed = ground (arith, enough) in
    let full : length p.completed ≤ sum_values p.completed =
      omega (arith, nb, same, length-set_pending listed [], witnessed.1) in
    let there : has u p.completed ≡ true =
      ap (elem u) witnessed.0 ∙ (ground (arith, has-set_pending u listed [], h)) in
    witnessed.2 u (all_completed u p.completed full there)
