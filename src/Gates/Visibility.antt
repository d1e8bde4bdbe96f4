-- ===== src/Gates/Visibility.antt =====
-- The readings of a gate agree with each other.
use snap_openstack.Prelude.{
  String, ◌≡◌, refl, Bool, true, false, Option, some, [], ◌∷◌, Outcome, return, >>=-eq-return,
  arith, eq_iff, ◌==◌, string_eq, if◌then◌else◌, Bool-cases, inl, inr, subst,
}
use snap_openstack.Dict
use snap_openstack.Dict.{Dict}
use snap_openstack.Gates.{
  GateConfig, Snap, snap_flag, is_unknown_key, is_snap_error, is_available, is_feature_gate_enabled,
  gate_states, is_on, GateReader, is_enabled_item, Gated, check_gated, Value,
}
use snap_openstack.Gates.Listing.{check_gate_enabled}

-- What the states of the gates say of one gate.
abbrev state_of : GateConfig → Outcome Bool → Outcome Bool
state_of gate flag = if gate.generally_available then return true else flag

gate_states-get :
    (key : String) (gate : GateConfig) (gates : Dict GateConfig) (snap : Snap) (states : Dict Bool)
    → gate_states gates snap ≡ return states
    → Dict.get key gates ≡ some gate
    → (b : Bool) × (state_of gate (snap_flag is_unknown_key (snap key)) ≡ return b)
      × (Dict.get key states ≡ some b)
unfolding Dict.get gate_states
gate_states-get key gate [] snap states h e = cc
gate_states-get key gate ((k, g) ∷ gates) snap states h e =
    let (b, one, rest) = >>=-eq-return (state_of g (snap_flag is_unknown_key (snap k))) _ h in
    let (bs, others, done) = >>=-eq-return (gate_states gates snap) _ rest in
    let q : (k, b) ∷ bs ≡ states = cc in
    rw (← q) (elim (Bool-cases (k == key)) [
      | inl same ↦
          let e' : some g ≡ some gate = rw same at e in
          let p : (k, g) ≡ (key, gate) = cc ((eq_iff k key).0 same, e') in
          let at =
            subst {A = String × GateConfig}
              (λ x. state_of x.1 (snap_flag is_unknown_key (snap x.0)) ≡ return b) p one in
          (b, at, rw same refl)
      | inr other ↦
          let (c, at, there) = gate_states-get key gate gates snap bs others (rw other at e) in
          (c, at, rw other there)
    ])

-- A caught exception counts as false.
snap_flag-both :
    (o : Outcome Value) (b : Bool)
    → snap_flag is_unknown_key o ≡ return b
    → snap_flag is_snap_error o ≡ return b
unfolding snap_flag is_unknown_key is_snap_error
snap_flag-both o b h = ground arith

-- Where the states of all gates can be read, each gate's own reading agrees with its state.
is_feature_gate_enabled-is_on :
    (gates : Dict GateConfig) (snap : Snap) (states : Dict Bool) (key : String) (gate : GateConfig)
    → gate_states gates snap ≡ return states
    → Dict.get key gates ≡ some gate
    → is_feature_gate_enabled gates (return snap) key ≡ return (is_on key states)
unfolding is_feature_gate_enabled is_available is_on
is_feature_gate_enabled-is_on gates snap states key gate h there =
    let (b, at, e) = gate_states-get key gate gates snap states h there in
    rw (is_feature_gate_enabled, is_available, is_on, there, e)
      (ground (arith, at, snap_flag-both (snap key) b))

-- A gate that the listing of the gates shows as unlocked does not hide its feature, where the enabled
-- items can be read.
check_gated-unlocked :
    (item : Gated) (client : Option GateReader) (snap : Snap) (config_key : Option String)
    (listed : Bool)
    → is_enabled_item client config_key item.name ≡ return listed
    → check_gate_enabled client snap item.gate_key ≡ true
    → check_gated item client snap config_key ≡ return false
unfolding check_gated check_gate_enabled snap_flag
check_gated-unlocked item client snap config_key listed h unlocked = rw h (ground arith)
