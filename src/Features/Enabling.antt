-- ===== src/Features/Enabling.antt =====
-- Enabling a feature leaves the requirements of the enabled features met, however it ends.
use snap_openstack.Prelude.{
  ◌>>◌, return, ◌==◌, string_eq, zero, if◌then◌else◌, none, lower_ascii, sym, ◌∙◌, ap, subst,
  eq_iff, guard-eq-return, List, String, ◌≡◌, refl, Bool, true, false, ◌&&◌, some, List, [], ◌∷◌,
  any, elem, string_eq, Outcome, return, raise, guard, Bool-cases, Option-cases, inl, inr, arith,
  >>=-eq-return, All, ap, ◌∙◌, sym,
}
use snap_openstack.Features.{
  check_enablement_requirements, enable_requirements, Requirement, Feature, State, Called,
  is_enabled, is_member, then_call, checked, first_enabled, check_group, require_group,
  invalid_requirement, find, require_found, require_one, enable_requirements, require_feature,
  Option, is_true, enable_feature, ℕ, update_feature_info, suc,
}
use snap_openstack.Features.Met.{
  Covers, All-Covers, Keeps, is_met, is_met_or_optional, IsSatisfied, is_met-Keeps, find-name,
  is_enabled-update, All-Keeps,
}

module _ (features : List Feature) (groups : List String)
    (needed : Feature → List Requirement) where
  -- A call keeps what is enabled and leaves the requirements met; if it returns, more holds.
  abbrev pub Sound : State → Called → (State → Type 0) → Type 0
  Sound state call Then =
      IsSatisfied features groups needed call.0
      × Keeps state call.0
      × (call.1 ≡ return tt → Then call.0)

  checked-Sound :
      (state : State) (o : Outcome (Unit {0})) (Then : State → Type 0)
      → IsSatisfied features groups needed state
      → (o ≡ return tt → Then state)
      → Sound state (checked state o) Then
  unfolding checked
  checked-Sound state o Then h k = (h, λ name e. e, k)

  then_call-Sound :
      (state : State) (call : Called) (next : State → Called) (First Then : State → Type 0)
      → Sound state call First
      → ((mid : State)
          → IsSatisfied features groups needed mid
          → First mid
          → Sound mid (next mid) Then)
      → Sound state (then_call call next) Then
  unfolding then_call
  then_call-Sound state (mid, return t) next First Then h k =
      let (s, keeps, more) = k mid h.0 (h.2 refl) in (s, λ name e. keeps name (h.1 name e), more)
  then_call-Sound state (mid, raise x) next First Then h k = (h.0, h.1, λ e. cc)

  if-Sound :
      (b : Bool) (state : State) (x y : Called) (Then : State → Type 0)
      → Sound state x Then
      → Sound state y Then
      → Sound state (if b then x else y) Then
  if-Sound true state x y Then h k = h
  if-Sound false state x y Then h k = k

  first_enabled-member :
      (name : String) (state : State) (fs : List Feature) {f : Feature}
      → first_enabled features groups name state fs ≡ some f
      → any (λ g. is_member name g && is_enabled g.name state) fs ≡ true
  unfolding first_enabled
  first_enabled-member name state [] h = cc
  first_enabled-member name state (g ∷ fs) h =
      elim (Bool-cases (is_member name g && is_enabled g.name state)) [
        | inl here ↦ ground (arith, here)
        | inr on ↦ ground (arith, first_enabled-member name state fs (rw on at h))
      ]

  require_group-met :
      (requirement : Requirement) (state : State)
      → elem requirement.name groups ≡ true
      → require_group features groups requirement state ≡ return tt
      → is_met_or_optional features groups state requirement ≡ true
  unfolding require_group check_group is_met_or_optional is_met
  require_group-met requirement state g h =
      let (t, e, k) =
        >>=-eq-return (guard (any (is_member requirement.name) features) invalid_requirement) _ h in
      elim (Option-cases (first_enabled features groups requirement.name state features)) [
        | inl nobody ↦ let o = guard-eq-return requirement.optional _ (rw nobody at k) in rw o refl
        | inr found ↦
            rw g (ground (arith, first_enabled-member requirement.name state features found.1))
      ]

  -- What `enable_feature` is to do for the features that are required.
  abbrev pub Enables : (Feature → State → Called) → Type 0
  Enables enable_one =
      (f : Feature) (state : State)
      → find f.name features ≡ some f
      → IsSatisfied features groups needed state
      → Sound state (enable_one f state) (λ after. is_enabled f.name after ≡ true)

  module _ (automatic : String → Outcome (Unit {0})) (enable_one : Feature → State → Called)
      (enables : Enables enable_one) where
    abbrev Meets : Requirement → State → Type 0
    Meets requirement after = is_met_or_optional features groups after requirement ≡ true

    abbrev pub AllMet : List Requirement → State → Type 0
    AllMet requirements after =
        All (λ r. is_met_or_optional features groups after r ≡ true) requirements

    require_found-Sound :
        (is_on optional : Bool) (requirement : Requirement) (f : Feature) (state : State)
        → elem requirement.name groups ≡ false
        → requirement.name ≡ f.name
        → is_enabled f.name state ≡ is_on
        → requirement.optional ≡ optional
        → find f.name features ≡ some f
        → IsSatisfied features groups needed state
        → Sound state
            (require_found features groups automatic enable_one is_on optional requirement f state)
            (Meets requirement)
    unfolding require_found is_met_or_optional is_met
    require_found-Sound true optional requirement f state g n e o r h =
        checked-Sound state _ (Meets requirement) h (λ k. rw (g, n, e) (ground arith))
    require_found-Sound false true requirement f state g n e o r h =
        checked-Sound state _ (Meets requirement) h (λ k. rw o refl)
    require_found-Sound false false requirement f state g n e o r h =
        then_call-Sound state _ _ (λ s. Unit) (Meets requirement)
          (checked-Sound state _ (λ s. Unit) h (λ k. tt))
          (λ mid m t.
            let (s, keeps, on) = enables f mid r m in
            (s, keeps, λ k. rw (g, n, on k) (ground arith)))

    require_feature-Sound :
        (requirement : Requirement) (state : State) (o : Option Feature)
        → find requirement.name features ≡ o
        → elem requirement.name groups ≡ false
        → IsSatisfied features groups needed state
        → Sound state
            (require_feature features groups automatic enable_one requirement state o)
            (Meets requirement)
    unfolding require_feature
    require_feature-Sound requirement state none e g h =
        checked-Sound state _ (Meets requirement) h (λ k. cc)
    require_feature-Sound requirement state (some f) e g h =
        let n = find-name requirement.name features e in
        let r : find f.name features ≡ some f = ap (λ m. find m features) n ∙ e in
        if-Sound f.toggles state _ _ (Meets requirement)
          (require_found-Sound (is_enabled f.name state) requirement.optional requirement f state g
            (sym n) refl refl r h)
          (checked-Sound state _ (Meets requirement) h (λ k. cc))

    require_one-Sound :
        (requirement : Requirement) (state : State)
        → IsSatisfied features groups needed state
        → Sound state
            (require_one features groups automatic enable_one requirement state)
            (Meets requirement)
    unfolding require_one
    require_one-Sound requirement state h = elim (Bool-cases (elem requirement.name groups)) [
      | inl group ↦
          rw group (
            checked-Sound state _ (Meets requirement) h (require_group-met requirement state group))
      | inr feature ↦ rw feature (require_feature-Sound requirement state _ refl feature h)
    ]

    pub enable_requirements-Sound :
        (requirements : List Requirement) (state : State)
        → IsSatisfied features groups needed state
        → Sound state
            (enable_requirements features groups automatic enable_one requirements state)
            (AllMet requirements)
    unfolding enable_requirements
    enable_requirements-Sound [] state h = checked-Sound state _ (λ s. Unit) h (λ k. tt)
    enable_requirements-Sound (r ∷ rs) state h =
        then_call-Sound state (require_one features groups automatic enable_one r state) _ (Meets r)
          (AllMet (r ∷ rs)) (require_one-Sound r state h)
          (λ mid m first.
            let (s, keeps, others) = enable_requirements-Sound rs mid m in
            (s, keeps, λ k. (is_met-Keeps features groups mid _ r keeps first, others k)))

  update-Sound :
      (self : Feature) (state : State)
      → find self.name features ≡ some self
      → IsSatisfied features groups needed state
      → All (λ r. is_met_or_optional features groups state r ≡ true) (needed self)
      → Sound state
          (update_feature_info "true" self state, return tt)
          (λ after. is_enabled self.name after ≡ true)
  unfolding is_true lower_ascii
  update-Sound self state r h met =
      let after = update_feature_info "true" self state in
      let keeps : Keeps state after =
        λ name e. ground (arith, is_enabled-update "true" self name state, e) in
      (
        λ f found toggles on. elim (Bool-cases (self.name == f.name)) [
          | inl same ↦
              let e : some self ≡ some f =
                sym r ∙ ap (λ n. find n features) ((eq_iff self.name f.name).0 same) ∙ found in
              let k : self ≡ f = cc e in
              subst (λ g. All (λ q. is_met_or_optional features groups after q ≡ true) (needed g)) k
                (All-Keeps features groups state after (needed self) keeps met)
          | inr other ↦
              let before : is_enabled f.name state ≡ true =
                sym (is_enabled-update "true" self f.name state ∙ rw other refl) ∙ on in
              All-Keeps features groups state after (needed f) keeps (h f found toggles before)
        ],
        keeps,
        λ e.
            rw (is_enabled-update "true" self self.name state, (eq_iff self.name self.name).1 refl)
              refl,
      )

  module _ (requirements : Feature → List Requirement)
      (preflight automatic run_plans : String → Outcome (Unit {0}))
      (covers : Covers requirements needed) where
    -- However the enabling of a feature ends, what is needed of all enabled features is met, but for optional
    -- requirements, if it was before, and what was enabled is enabled; if it returns, the feature is enabled.
    pub enable_feature-Sound :
        (fuel : ℕ) (self : Feature) (state : State)
        → find self.name features ≡ some self
        → IsSatisfied features groups needed state
        → Sound state
            (enable_feature features groups requirements preflight automatic run_plans fuel self
              state)
            (λ after. is_enabled self.name after ≡ true)
    unfolding enable_feature
    enable_feature-Sound zero self state r h = (h, λ name e. e, λ e. cc)
    enable_feature-Sound (suc fuel) self state r h =
        let one : Feature → State → Called =
          enable_feature features groups requirements preflight automatic run_plans fuel in
        let enables : Enables one = λ f s found sat. enable_feature-Sound fuel f s found sat in
        let met = AllMet automatic one enables (requirements self) in
        let on : State → Type 0 = λ after. is_enabled self.name after ≡ true in
        let finish : State → Called = λ done. (update_feature_info "true" self done, return tt) in
        let run : State → Called =
          λ ready. then_call (checked ready (run_plans self.name)) finish in
        let require = enable_requirements features groups automatic one (requirements self) in
        let check =
          preflight self.name
          >> check_enablement_requirements features groups requirements false self state in
        then_call-Sound state (checked state check) (λ start. then_call (require start) run)
          (λ s. Unit) on (checked-Sound state check (λ s. Unit) h (λ k. tt))
          (λ start m t.
            then_call-Sound start (require start) run met on
              (enable_requirements-Sound automatic one enables (requirements self) start m)
              (λ ready k first.
                then_call-Sound ready (checked ready (run_plans self.name)) finish met on
                  (checked-Sound ready (run_plans self.name) met k (λ e. first))
                  (λ done d all.
                    update-Sound self done r d
                      (All-Covers _ (requirements self) (needed self) (covers self) all))))
