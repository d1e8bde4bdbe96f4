-- ===== src/Features/Disabling.antt =====
-- Disabling a feature leaves the requirements of the enabled features met.
use snap_openstack.Prelude.{
  String, ◌≡◌, refl, ap, sym, ◌∙◌, true, false, ◌&&◌, some, List, [], ◌∷◌, any, elem, ◌==◌,
  string_eq, Outcome, return, raise, ◌>>◌, >>=-eq-return, Bool-cases, inl, inr, arith, eq_iff, All,
  lower_ascii,
}
use snap_openstack.Features.{
  Requirement, Feature, State, is_enabled, is_true, update_feature_info, find, is_member, is_group,
  then_call, checked, concerns, check_requirements, check_features, check_enablement_requirements,
  disable_feature,
}
use snap_openstack.Features.Met.{
  Covers, All-Covers, is_enabled-update, IsRegistry, is_met, is_met_or_optional, IsSatisfied,
  All-find,
}

module _ (features : List Feature) (groups : List String) where
  -- No requirement of the feature concerns the other one.
  abbrev IsFree : Feature → List Requirement → Type 0
  IsFree self requirements = All (λ r. concerns features groups self r ≡ false) requirements

  check_requirements-IsFree :
      (self : Feature) (requirements : List Requirement)
      → check_requirements features groups true self requirements ≡ return tt
      → IsFree self requirements
  unfolding check_requirements
  check_requirements-IsFree self [] h = tt
  check_requirements-IsFree self (r ∷ rs) h = elim (Bool-cases (concerns features groups self r)) [
    | inl hit ↦ cc (rw hit at h)
    | inr clear ↦ (clear, check_requirements-IsFree self rs (rw clear at h))
  ]

  module _ (requirements : Feature → List Requirement) where
    -- As a property of a feature: if it is enabled, its requirements do not concern the other one.
    abbrev IsUnconcerned : Feature → State → Feature → Type 0
    IsUnconcerned self state f =
        f.toggles ≡ true → is_enabled f.name state ≡ true → IsFree self (requirements f)

    check_features-IsUnconcerned :
        (self : Feature) (state : State) (fs : List Feature)
        → check_features features groups requirements true self state fs ≡ return tt
        → All (IsUnconcerned self state) fs
    unfolding check_features
    check_features-IsUnconcerned self state [] h = tt
    check_features-IsUnconcerned self state (f ∷ fs) h =
        elim (Bool-cases (f.toggles && is_enabled f.name state)) [
          | inl on ↦
              let (t, e, k) =
                >>=-eq-return (check_requirements features groups true self (requirements f)) _
                  (rw on at h) in
              (
                λ a b. check_requirements-IsFree self (requirements f) e,
                check_features-IsUnconcerned self state fs k,
              )
          | inr off ↦ (
            λ a b. (let bad : true ≡ false = ground (arith, off, a, b) in cc),
            check_features-IsUnconcerned self state fs (rw off at h),
          )
        ]

  any-update :
      (self : Feature) (r : Requirement) (state : State) (fs : List Feature)
      → find self.name features ≡ some self
      → is_group self.group r.name ≡ false
      → All (λ f. find f.name features ≡ some f) fs
      → any (λ f. is_member r.name f && is_enabled f.name state) fs ≡ true
      → any
          (λ f. is_member r.name f && is_enabled f.name (update_feature_info "false" self state))
          fs
        ≡ true
  unfolding is_member
  any-update self r state [] here clear registry h = cc
  any-update self r state (f ∷ fs) here clear registry h = elim (Bool-cases (self.name == f.name)) [
    | inl same ↦
        let e : some self ≡ some f =
          sym here ∙ ap (λ n. find n features) ((eq_iff self.name f.name).0 same) ∙ registry.0 in
        let k : self ≡ f = cc e in
        let not_here : is_group f.group r.name ≡ false =
          ap (λ g. is_group g.group r.name) (sym k) ∙ clear in
        ground (arith, not_here, h, any-update self r state fs here clear registry.1)
    | inr other ↦
        let e : is_enabled f.name (update_feature_info "false" self state)
            ≡ is_enabled f.name state =
          is_enabled-update "false" self f.name state ∙ rw other refl in
        ground (arith, e, h, any-update self r state fs here clear registry.1)
  ]

  is_met-update :
      (self : Feature) (r : Requirement) (state : State)
      → find self.name features ≡ some self
      → IsRegistry features
      → concerns features groups self r ≡ false
      → is_met_or_optional features groups state r ≡ true
      → is_met_or_optional features groups (update_feature_info "false" self state) r ≡ true
  unfolding is_met_or_optional is_met concerns
  is_met-update self r state here registry clear h = elim (Bool-cases (elem r.name groups)) [
    | inl group ↦
        let apart : is_group self.group r.name ≡ false = ground (arith, clear, group) in
        ground (arith, group, h, any-update self r state features here apart registry)
    | inr feature ↦
        let other : self.name == r.name ≡ false =
          ground (arith, clear, feature, eq_iff self.name r.name, eq_iff r.name self.name) in
        let e : is_enabled r.name (update_feature_info "false" self state)
            ≡ is_enabled r.name state =
          is_enabled-update "false" self r.name state ∙ rw other refl in
        ground (arith, feature, e, h)
  ]

  All-update :
      (self : Feature) (rs : List Requirement) (state : State)
      → find self.name features ≡ some self
      → IsRegistry features
      → IsFree self rs
      → All (λ r. is_met_or_optional features groups state r ≡ true) rs
      → All
          (λ r.
            is_met_or_optional features groups (update_feature_info "false" self state) r ≡ true)
          rs
  All-update self [] state here registry free h = tt
  All-update self (r ∷ rs) state here registry free h = (
    is_met-update self r state here registry free.0 h.0,
    All-update self rs state here registry free.1 h.1,
  )

  update-IsSatisfied :
      (requirements needed : Feature → List Requirement)
      → Covers requirements needed
      → (self : Feature) (state : State) → find self.name features ≡ some self
      → IsRegistry features
      → All (IsUnconcerned requirements self state) features
      → IsSatisfied features groups needed state
      → IsSatisfied features groups needed (update_feature_info "false" self state)
  unfolding is_true lower_ascii
  update-IsSatisfied requirements needed covers self state here registry free h f found toggles on =
      let e = is_enabled-update "false" self f.name state in
      let before : is_enabled f.name state ≡ true = ground (arith, e, on) in
      All-update self (needed f) state here registry
        (All-Covers _ (requirements f) (needed f) (covers f) (
          All-find (IsUnconcerned requirements self state) f.name features free found toggles
            before))
        (h f found toggles before)

  module _ (requirements : Feature → List Requirement)
      (preflight automatic run_plans : String → Outcome (Unit {0}))
      (needed : Feature → List Requirement) (covers : Covers requirements needed) where
    -- However the disabling of a registered feature ends, what is needed of all enabled features is met, but
    -- for optional requirements, if it was before.
    pub disable_feature-IsSatisfied :
        (self : Feature) (state : State)
        → find self.name features ≡ some self
        → IsRegistry features
        → IsSatisfied features groups needed state
        → IsSatisfied features groups needed
            (disable_feature features groups requirements preflight automatic run_plans self
              state).0
    unfolding disable_feature checked then_call check_enablement_requirements
    disable_feature-IsSatisfied self state here registry h =
        by_check
          (preflight self.name
            >> check_features features groups requirements true self state features)
          (run_plans self.name) self state here registry h
          (λ e.
            let (t, a, k) = >>=-eq-return (preflight self.name) _ e in
            check_features-IsUnconcerned requirements self state features k)
      where
        by_check :
            (check run : Outcome (Unit {0})) (self : Feature) (state : State)
            → find self.name features ≡ some self
            → IsRegistry features
            → IsSatisfied features groups needed state
            → (check ≡ return tt → All (IsUnconcerned requirements self state) features)
            → IsSatisfied features groups needed
                (then_call (checked state check) (λ start.
                  then_call
                    (checked start run)
                    (λ done. (update_feature_info "false" self done, return tt)))).0
        by_check (return t) (return u) self state here registry h k =
            update-IsSatisfied requirements needed covers self state here registry (k refl) h
        by_check (return t) (raise e) self state here registry h k = h
        by_check (raise e) run self state here registry h k = h
