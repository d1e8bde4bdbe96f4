-- ===== src/Gates/Requires.antt =====
-- What the validation of the gates' requirements means.
use snap_openstack.Prelude.{
  String, ◌≡◌, refl, ◌∙◌, Bool, true, false, not, ◌&&◌, ◌||◌, some, List, [], ◌∷◌, ◌++◌, map, all,
  keep, elem, return, raise, feature_gate_error, arith, eq_iff, ◌==◌, string_eq, Bool-cases, inl,
  inr, subst,
}
use snap_openstack.Dict
use snap_openstack.Dict.{Dict}
use snap_openstack.Gates.{
  GateConfig, Snap, gate_states, is_on, violations, is_empty, validate_feature_gate_config,
}

is_empty-append : {A : Type 0} (xs ys : List A) → is_empty (xs ++ ys) ≡ (is_empty xs && is_empty ys)
unfolding is_empty
is_empty-append [] ys = refl
is_empty-append (x ∷ xs) ys = refl

is_empty-map-keep :
    {A B : Type 0} (f : A → B) (p : A → Bool) (xs : List A)
    → is_empty (map f (keep (λ x. not (p x)) xs)) ≡ all p xs
unfolding is_empty
is_empty-map-keep f p [] = refl
is_empty-map-keep f p (x ∷ xs) = ground (arith, is_empty-map-keep f p xs)

all-elem :
    (p : String → Bool) (x : String) (xs : List String)
    → all p xs ≡ true
    → elem x xs ≡ true
    → p x ≡ true
all-elem p x [] h e = cc
all-elem p x (y ∷ ys) h e = elim (Bool-cases (y == x)) [
  | inl same ↦ subst (λ z. p z ≡ true) ((eq_iff y x).0 same) (ground arith)
  | inr other ↦ all-elem p x ys (ground arith) (rw other at e)
]

-- A gate that is on has all that it requires on.
abbrev is_met : Dict Bool → String × GateConfig → Bool
is_met states g = not (is_on g.0 states) || all (λ dep. is_on dep states) g.1.requires

is_empty-violations :
    (gates : Dict GateConfig) (states : Dict Bool)
    → is_empty (violations gates states) ≡ all (is_met states) gates
unfolding violations is_empty
is_empty-violations [] states = refl
is_empty-violations ((key, gate) ∷ gates) states = elim (Bool-cases (is_on key states)) [
  | inl on ↦ rw on (
      is_empty-append (map (λ dep. (key, dep)) (keep (λ dep. not (is_on dep states)) gate.requires))
        (violations gates states)
      ∙ rw (
        is_empty-map-keep {B = String × String} (λ dep. (key, dep)) (λ dep. is_on dep states)
            gate.requires,
        is_empty-violations gates states,
      ))
  | inr off ↦ rw off (is_empty-violations gates states)
]

all-get :
    (p : String × GateConfig → Bool) (key : String) (gate : GateConfig) (gates : Dict GateConfig)
    → all p gates ≡ true
    → Dict.get key gates ≡ some gate
    → p (key, gate) ≡ true
unfolding Dict.get
all-get p key gate [] h e = cc
all-get p key gate ((k, g) ∷ gates) h e = elim (Bool-cases (k == key)) [
  | inl same ↦
      let e' : some g ≡ some gate = rw same at e in
      let q : (k, g) ≡ (key, gate) = cc ((eq_iff k key).0 same, e') in
      subst (λ x. p x ≡ true) q (ground arith)
  | inr other ↦ all-get p key gate gates (ground arith) (rw other at e)
]

-- `Requires gates a b`: gate `a` requires gate `b`, itself or by way of other gates.
pub data Requires (gates : Dict GateConfig) (a : String) : String → Type 0 where
  direct :
      (gate : GateConfig) (b : String)
      → Dict.get a gates ≡ some gate
      → elem b gate.requires ≡ true
      → Requires gates a b
  through :
      (gate : GateConfig) (b c : String)
      → Requires gates a b
      → Dict.get b gates ≡ some gate
      → elem c gate.requires ≡ true
      → Requires gates a c

module _ (gates : Dict GateConfig) (states : Dict Bool)
    (met : all (is_met states) gates ≡ true) where
  requirement-on :
      (a b : String) (gate : GateConfig)
      → is_on a states ≡ true
      → Dict.get a gates ≡ some gate
      → elem b gate.requires ≡ true
      → is_on b states ≡ true
  requirement-on a b gate on there needed =
      all-elem (λ dep. is_on dep states) b gate.requires
        (ground (arith, all-get (is_met states) a gate gates met there)) needed

  Requires-on : {a b : String} → Requires gates a b → is_on a states ≡ true → is_on b states ≡ true
  Requires-on {a} (direct gate b there needed) on = requirement-on a b gate on there needed
  Requires-on (through gate b c path there needed) on =
      requirement-on b c gate (Requires-on path on) there needed

validate-met :
    (gates : Dict GateConfig) (snap : Snap) (states : Dict Bool)
    → gate_states gates snap ≡ return states
    → validate_feature_gate_config gates snap ≡ return tt
    → all (is_met states) gates ≡ true
unfolding validate_feature_gate_config
validate-met gates snap states known valid = ground (arith, known, is_empty-violations gates states)

-- Once the validation of the gates accepts a configuration, each gate that an enabled gate requires,
-- itself or by way of other gates, is enabled too.
pub validate-Requires :
    (gates : Dict GateConfig) (snap : Snap) (states : Dict Bool) (a b : String)
    → gate_states gates snap ≡ return states
    → validate_feature_gate_config gates snap ≡ return tt
    → Requires gates a b
    → is_on a states ≡ true
    → is_on b states ≡ true
validate-Requires gates snap states a b known valid path on =
    Requires-on gates states (validate-met gates snap states known valid) path on

-- The validation refuses a configuration in which a gate is enabled and one that it requires is not.
pub validate-refuses :
    (gates : Dict GateConfig) (snap : Snap) (states : Dict Bool) (a b : String) (gate : GateConfig)
    → gate_states gates snap ≡ return states
    → Dict.get a gates ≡ some gate
    → elem b gate.requires ≡ true
    → is_on a states ≡ true
    → is_on b states ≡ false
    → validate_feature_gate_config gates snap ≡ raise feature_gate_error
unfolding validate_feature_gate_config
validate-refuses gates snap states a b gate known there needed on off =
    rw known (elim (Bool-cases (all (is_met states) gates)) [
      | inl met ↦
          let b_on : is_on b states ≡ true =
            requirement-on gates states met a b gate on there needed in
          cc
      | inr unmet ↦ rw (is_empty-violations gates states, unmet)
    ])
