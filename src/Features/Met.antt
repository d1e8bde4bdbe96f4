-- ===== src/Features/Met.antt =====
-- When the requirements of the enabled features are met.
use snap_openstack.Prelude.{
  String, ◌≡◌, ap, sym, ◌∙◌, subst, Bool, true, ◌||◌, ◌&&◌, some, List, [], ◌∷◌, any, elem, ◌==◌,
  string_eq, if◌then◌else◌, Bool-cases, inl, inr, arith, eq_iff, All,
}
use snap_openstack.Dict.{get-set}
use snap_openstack.Features.{
  Requirement, Feature, State, is_enabled, info_enabled, is_true, update_feature_info, find,
  is_member,
}

-- Enabling writes the name's own entry only.
pub is_enabled-update :
    (enabled : String) (feature : Feature) (name : String) (state : State)
    → is_enabled name (update_feature_info enabled feature state)
      ≡ (if feature.name == name then is_true (some enabled) else is_enabled name state)
unfolding is_enabled update_feature_info info_enabled
is_enabled-update enabled feature name state = ground (
  arith,
  get-set feature.name name (record { enabled = some enabled; version = some feature.version })
      state,
)

pub find-name :
    (name : String) (features : List Feature) {f : Feature}
    → find name features ≡ some f
    → f.name ≡ name
unfolding find
find-name name [] h = cc
find-name name (feature ∷ features) {f} h = elim (Bool-cases (feature.name == name)) [
  | inl same ↦
      let e : feature ≡ f = cc (rw same at h) in
      ap (λ g. g.name) (sym e) ∙ (eq_iff feature.name name).0 same
  | inr other ↦ find-name name features (rw other at h)
]

pub All-find {κ} :
    (P : Feature → Type κ) (name : String) (features : List Feature) {f : Feature}
    → All P features
    → find name features ≡ some f
    → P f
unfolding find
All-find P name [] a h = cc
All-find P name (feature ∷ features) {f} a h = elim (Bool-cases (feature.name == name)) [
  | inl same ↦ let e : feature ≡ f = cc (rw same at h) in subst P e a.0
  | inr other ↦ All-find P name features a.1 (rw other at h)
]

-- Features are kept under their names, of which no two are the same.
abbrev pub IsRegistry : List Feature → Type 0
IsRegistry features = All (λ f. find f.name features ≡ some f) features

-- The element is one of the list.
pub data IsIn (r : Requirement) : List Requirement → Type 0 where
  here : (rs : List Requirement) → IsIn r (r ∷ rs)
  there : (q : Requirement) (rs : List Requirement) → IsIn r rs → IsIn r (q ∷ rs)

-- The requirements are among those that a call is answered.
abbrev pub Covers : (requirements needed : Feature → List Requirement) → Type 0
Covers requirements needed = (f : Feature) → All (λ r. IsIn r (requirements f)) (needed f)

All-IsIn :
    (P : Requirement → Type 0) {r : Requirement} (rs : List Requirement)
    → IsIn r rs
    → All P rs
    → P r
All-IsIn P _ (here rs) a = a.0
All-IsIn P _ (there q rs i) a = All-IsIn P rs i a.1

pub All-Covers :
    (P : Requirement → Type 0) (all_of some_of : List Requirement)
    → All (λ r. IsIn r all_of) some_of
    → All P all_of
    → All P some_of
All-Covers P all_of [] c a = tt
All-Covers P all_of (r ∷ rs) c a = (All-IsIn P all_of c.0 a, All-Covers P all_of rs c.1 a)

-- What is enabled stays enabled.
abbrev pub Keeps : State → State → Type 0
Keeps state after = (name : String) → is_enabled name state ≡ true → is_enabled name after ≡ true

module _ (features : List Feature) (groups : List String) where
  -- The required feature is enabled, or one of the required group.
  unfoldable pub is_met : State → Requirement → Bool
  is_met state requirement =
      if elem requirement.name groups
      then any (λ f. is_member requirement.name f && is_enabled f.name state) features
      else is_enabled requirement.name state

  unfoldable pub is_met_or_optional : State → Requirement → Bool
  unfolding is_met
  is_met_or_optional state requirement = requirement.optional || is_met state requirement

  -- What is `needed` of each enabled feature is met, but for optional requirements.
  abbrev pub IsSatisfied : (Feature → List Requirement) → State → Type 0
  IsSatisfied needed state =
      (f : Feature)
      → find f.name features ≡ some f
      → f.toggles ≡ true
      → is_enabled f.name state ≡ true
      → All (λ r. is_met_or_optional state r ≡ true) (needed f)

  any-Keeps :
      (name : String) (fs : List Feature) (state after : State)
      → Keeps state after
      → any (λ f. is_member name f && is_enabled f.name state) fs ≡ true
      → any (λ f. is_member name f && is_enabled f.name after) fs ≡ true
  any-Keeps name [] state after k h = cc
  any-Keeps name (f ∷ fs) state after k h =
      ground (arith, k f.name, any-Keeps name fs state after k)

  pub is_met-Keeps :
      (state after : State) (requirement : Requirement)
      → Keeps state after
      → is_met_or_optional state requirement ≡ true
      → is_met_or_optional after requirement ≡ true
  unfolding is_met_or_optional is_met
  is_met-Keeps state after requirement k h =
      ground (arith, k requirement.name, any-Keeps requirement.name features state after k)

  pub All-Keeps :
      (state after : State) (requirements : List Requirement)
      → Keeps state after
      → All (λ r. is_met_or_optional state r ≡ true) requirements
      → All (λ r. is_met_or_optional after r ≡ true) requirements
  All-Keeps state after [] k h = tt
  All-Keeps state after (r ∷ rs) k h =
      (is_met-Keeps state after r k h.0, All-Keeps state after rs k h.1)
