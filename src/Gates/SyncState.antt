-- ===== src/Gates/SyncState.antt =====
-- The cluster's gates after they are written from the snap's configuration.
use snap_openstack.Prelude.{
  String, ◌≡◌, refl, ◌∙◌, ◌⊎◌, Bool, true, false, ◌&&◌, Outcome, return, raise, not_found, arith,
  eq_iff, ◌==◌, string_eq, if◌then◌else◌, Bool-cases, inl, inr, subst, sym, ap,
}
use snap_openstack.Dict.{Dict}
use snap_openstack.Value.{Fields, end, field, truthy}
use snap_openstack.Gates.{GateConfig, is_empty}
use snap_openstack.Gates.Sync.{
  GateClient, gate_key_of, check_dependencies, create_gate, change_gate, same_flag, write_gate,
  is_written, sync_gates, sync_feature_gates, flatten_dict,
}

-- A cluster that answers: a gate is there or it is not, one that is there can be updated and one that
-- is not can be added.
pub record IsGateClient {ℓ} {W : Type ℓ} (client : GateClient W) : Type ℓ where
  pub answers :
      (k : String) (w : W)
      → (client.get_feature_gate k w ≡ raise not_found)
        ⊎ ((b : Bool) × (client.get_feature_gate k w ≡ return b))
  pub updated :
      (k : String) (b c : Bool) (w : W)
      → client.get_feature_gate k w ≡ return b
      → (w' : W) × (client.update_feature_gate k c w ≡ return w')
        × ((j : String)
            → client.get_feature_gate j w'
              ≡ (if k == j then return c else client.get_feature_gate j w))
  pub added :
      (k : String) (c : Bool) (w : W)
      → client.get_feature_gate k w ≡ raise not_found
      → (w' : W) × (client.add_feature_gate k c w ≡ return w')
        × ((j : String)
            → client.get_feature_gate j w'
              ≡ (if k == j then return c else client.get_feature_gate j w))

module _ {ℓ} {W : Type ℓ} (client : GateClient W) (lawful : IsGateClient client) where
  get-change_gate :
      (k : String) (b c : Bool) (w : W) (j : String)
      → client.get_feature_gate k w ≡ return b
      → client.get_feature_gate j (change_gate client k b c w)
        ≡ (if k == j then return c else client.get_feature_gate j w)
  unfolding change_gate same_flag
  get-change_gate k b c w j there =
      let (w', e, law) = lawful.updated k b c w there in
      elim (Bool-cases (same_flag b c)) [
        | inl same ↦
            let p : b ≡ c = ground arith in
            rw (change_gate, same)
              (elim (Bool-cases (k == j)) [
                | inl q ↦ rw q (
                    subst (λ x. client.get_feature_gate x w ≡ return c) ((eq_iff k j).0 q)
                      (there ∙ ap return p))
                | inr q ↦ rw q
              ])
        | inr differs ↦ rw (change_gate, differs, e) (law j)
      ]

  get-write_gate :
      (k : String) (c : Bool) (w : W) (j : String)
      → client.get_feature_gate j (write_gate client k c w)
        ≡ (if k == j then return c else client.get_feature_gate j w)
  unfolding write_gate create_gate
  get-write_gate k c w j = elim (lawful.answers k w) [
    | inl absent ↦
        let (w', e, law) = lawful.added k c w absent in
        rw (write_gate, absent, create_gate, e) (law j)
    | inr (b, there) ↦ rw (write_gate, there) (get-change_gate k b c w j there)
  ]

-- What is left at the gate `j`, from what stands there: the last item that names it and is written.
unfoldable pub settled :
    Dict GateConfig → (flattened : Fields) → Fields → String → Outcome Bool → Outcome Bool
settled gates flattened end j old = old
settled gates flattened (field k v items) j old =
    settled gates flattened items j
      (if is_written gates flattened k v && gate_key_of k == j then return (truthy v) else old)

module _ {ℓ} {W : Type ℓ} (client : GateClient W) (gates : Dict GateConfig)
    (lawful : IsGateClient client) where
  get-sync_gates :
      (flattened items : Fields) (w : W) (j : String)
      → client.get_feature_gate j (sync_gates client gates flattened items w)
        ≡ settled gates flattened items j (client.get_feature_gate j w)
  unfolding sync_gates settled
  get-sync_gates flattened end w j = refl
  get-sync_gates flattened (field k v items) w j =
      elim (Bool-cases (is_written gates flattened k v)) [
        | inl written ↦ rw written (
            get-sync_gates flattened items (write_gate client (gate_key_of k) (truthy v) w) j
            ∙ ap (settled gates flattened items j)
                (get-write_gate client lawful (gate_key_of k) (truthy v) w j))
        | inr skipped ↦ rw skipped (get-sync_gates flattened items w j)
      ]

-- Where the cluster answers, the synchronisation leaves each gate with the truth value of the last item
-- of the flattened configuration that names it and is written, and as it was if there is none. An item
-- is written unless it is true and a gate that it requires is missing.
pub sync_feature_gates-settled {ℓ} :
    {W : Type ℓ} (client : GateClient W) (gates : Dict GateConfig) (options : Fields) (w : W)
    (j : String)
    → IsGateClient client
    → client.get_feature_gate j (sync_feature_gates client gates (return options) w)
      ≡ settled gates (flatten_dict options) (flatten_dict options) j (client.get_feature_gate j w)
unfolding sync_feature_gates
sync_feature_gates-settled client gates options w j lawful =
    get-sync_gates client gates lawful (flatten_dict options) (flatten_dict options) w j

settled-required :
    (gates : Dict GateConfig) (flattened items : Fields) (j : String) (old : Outcome Bool)
    → is_empty (check_dependencies gates j flattened) ≡ false
    → settled gates flattened items j old ≡ return true
    → old ≡ return true
unfolding settled is_written
settled-required gates flattened end j old missing h = h
settled-required gates flattened (field k v items) j old missing h =
    let earlier = settled-required gates flattened items j _ missing h in
    elim (Bool-cases (gate_key_of k == j)) [
      | inl same ↦
          let missing' : is_empty (check_dependencies gates (gate_key_of k) flattened) ≡ false =
            subst (λ x. is_empty (check_dependencies gates x flattened) ≡ false)
              ((eq_iff j (gate_key_of k)).0
                ((eq_iff j _).1 (sym ((eq_iff (gate_key_of k) j).0 same))))
              missing in
          ground arith
      | inr other ↦ ground arith
    ]

-- Where the cluster answers, the synchronisation enables no gate while the configuration lacks a gate
-- that it requires: a gate that is enabled afterwards was enabled before.
pub sync_feature_gates-required {ℓ} :
    {W : Type ℓ} (client : GateClient W) (gates : Dict GateConfig) (options : Fields) (w : W)
    (j : String)
    → IsGateClient client
    → is_empty (check_dependencies gates j (flatten_dict options)) ≡ false
    → client.get_feature_gate j (sync_feature_gates client gates (return options) w) ≡ return true
    → client.get_feature_gate j w ≡ return true
sync_feature_gates-required client gates options w j lawful missing h =
    settled-required gates (flatten_dict options) (flatten_dict options) j _ missing
      (sym (sync_feature_gates-settled client gates options w j lawful) ∙ h)
