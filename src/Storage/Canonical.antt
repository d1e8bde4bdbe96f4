-- ===== src/Storage/Canonical.antt =====
-- The first of the stored configuration items is the canonical source.
use snap_openstack.Prelude.{
  sym, Outcome, String, ◌≡◌, refl, ◌∙◌, false, none, some, List, [], ◌∷◌, return, raise, arith,
  eq_iff, ◌==◌, string_eq, Bool-cases, inl, inr, subst, Option-cases, sym,
}
use snap_openstack.Value.{
  Value, null, bool, int, str, list, dict, object, Fields, end, field, get_field, set_field,
}
use snap_openstack.Value.Laws.{get_field-set_field}
use snap_openstack.Config.{Store, read_config}
use snap_openstack.Storage.{
  add_missing, stored_entry, add_item, add_read, add_items, load_stored_tfvars,
}

-- A value stays, and a dictionary keeps its entries.
abbrev pub Keeps : Value → Value → Type 0
Keeps (dict d) new =
    (r : Fields) × (new ≡ dict r)
    × ((f : String) (v : Value) → get_field f d ≡ some v → get_field f r ≡ some v)
Keeps old new = new ≡ old

add_missing-get :
    (f : String) (v : Value) (d u : Fields)
    → get_field f d ≡ some v
    → get_field f (add_missing d u) ≡ some v
unfolding add_missing
add_missing-get f v d end h = h
add_missing-get f v d (field k w u) h = elim (Option-cases (get_field k d)) [
  | inr (x, there) ↦ rw (add_missing, there) (add_missing-get f v d u h)
  | inl absent ↦
      let differs : k == f ≡ false = ground (arith, eq_iff k f, absent_at k f d absent v h) in
      rw (add_missing, absent)
        (add_missing-get f v (set_field k w d) u (get_field-set_field k f w d ∙ rw differs h))
]
  where
    absent_at :
        (k f : String) (d : Fields)
        → get_field k d ≡ none
        → (v : Value) → get_field f d ≡ some v
        → k == f ≡ false
    absent_at k f d absent v h = elim (Bool-cases (k == f)) [
      | inl same ↦
          let e : get_field f d ≡ none =
            subst (λ x. get_field x d ≡ none) ((eq_iff k f).0 same) absent in
          let bad : none ≡ some v = sym e ∙ h in cc
      | inr other ↦ other
    ]

stored_entry-Keeps : (old v : Value) → Keeps old (stored_entry (some old) v)
unfolding stored_entry
stored_entry-Keeps (dict d) (dict u) = (add_missing d u, refl, λ f v h. add_missing-get f v d u h)
stored_entry-Keeps (dict d) null = (d, refl, λ f v h. h)
stored_entry-Keeps (dict d) (bool b) = (d, refl, λ f v h. h)
stored_entry-Keeps (dict d) (int z) = (d, refl, λ f v h. h)
stored_entry-Keeps (dict d) (str s) = (d, refl, λ f v h. h)
stored_entry-Keeps (dict d) (list vs) = (d, refl, λ f v h. h)
stored_entry-Keeps (dict d) (object c e) = (d, refl, λ f v h. h)
stored_entry-Keeps null v = refl
stored_entry-Keeps (bool b) v = refl
stored_entry-Keeps (int z) v = refl
stored_entry-Keeps (str s) v = refl
stored_entry-Keeps (list vs) v = refl
stored_entry-Keeps (object c d) v = refl

Keeps-refl : (v : Value) → Keeps v v
Keeps-refl (dict d) = (d, refl, λ f v h. h)
Keeps-refl null = refl
Keeps-refl (bool b) = refl
Keeps-refl (int z) = refl
Keeps-refl (str s) = refl
Keeps-refl (list vs) = refl
Keeps-refl (object c d) = refl

Keeps-trans : (u v w : Value) → Keeps u v → Keeps v w → Keeps u w
Keeps-trans (dict d) v w (r, e, h) k =
    let (q, e', h') = subst (λ x. Keeps x w) e k in (q, e', λ f x there. h' f x (h f x there))
Keeps-trans null v w h k = subst (λ x. Keeps x w) h k
Keeps-trans (bool b) v w h k = subst (λ x. Keeps x w) h k
Keeps-trans (int z) v w h k = subst (λ x. Keeps x w) h k
Keeps-trans (str s) v w h k = subst (λ x. Keeps x w) h k
Keeps-trans (list vs) v w h k = subst (λ x. Keeps x w) h k
Keeps-trans (object c d) v w h k = subst (λ x. Keeps x w) h k

-- What is there is kept by the further entries and items.
abbrev KeptIn : String → Value → Fields → Type 0
KeptIn j old d = (w : Value) × (get_field j d ≡ some w) × Keeps old w

add_item-KeptIn :
    (j : String) (old : Value) (stored config : Fields)
    → KeptIn j old stored
    → KeptIn j old (add_item stored config)
unfolding add_item
add_item-KeptIn j old stored end h = h
add_item-KeptIn j old stored (field k v config) (w, there, kept) =
    elim (Bool-cases (k == "_computed_keys")) [
      | inl passed ↦ rw (add_item, passed) (add_item-KeptIn j old stored config (w, there, kept))
      | inr entry ↦ elim (Bool-cases (k == j)) [
        | inl same ↦
            let at_k : get_field k stored ≡ some w =
              subst (λ x. get_field x stored ≡ some w) (sym ((eq_iff k j).0 same)) there in
            rw (add_item, entry, at_k)
              (add_item-KeptIn j old (set_field k (stored_entry (some w) v) stored) config (
                stored_entry (some w) v,
                get_field-set_field k j (stored_entry (some w) v) stored ∙ rw same refl,
                Keeps-trans old w (stored_entry (some w) v) kept (stored_entry-Keeps w v),
              ))
        | inr other ↦
            rw (add_item, entry)
              (add_item-KeptIn j old (set_field k (stored_entry (get_field k stored) v) stored)
                config
                (
                  w,
                  get_field-set_field k j (stored_entry (get_field k stored) v) stored
                      ∙ rw other there,
                  kept,
                ))
      ]
    ]

add_items-KeptIn :
    (j : String) (old : Value) (store : Store) (stored : Fields) (keys : List String)
    → KeptIn j old stored
    → KeptIn j old (add_items store stored keys)
unfolding add_items add_read
add_items-KeptIn j old store stored [] h = h
add_items-KeptIn j old store stored (key ∷ keys) h =
    add_items-KeptIn j old store (add_read (read_config key store) stored) keys
      (add_read-KeptIn (read_config key store))
  where
    add_read-KeptIn : (o : Outcome Fields) → KeptIn j old (add_read o stored)
    add_read-KeptIn (raise e) = h
    add_read-KeptIn (return config) = add_item-KeptIn j old stored config h

add_item-new :
    (j : String) (v : Value) (stored config : Fields)
    → j == "_computed_keys" ≡ false
    → get_field j stored ≡ none
    → get_field j config ≡ some v
    → KeptIn j v (add_item stored config)
unfolding add_item get_field
add_item-new j v stored end named absent there = cc
add_item-new j v stored (field k x config) named absent there = elim (Bool-cases (k == j)) [
  | inl same ↦
      let e : some x ≡ some v = rw same at there in
      let x_v : x ≡ v = cc in
      let k_j = (eq_iff k j).0 same in
      let entry : k == "_computed_keys" ≡ false =
        subst (λ y. y == "_computed_keys" ≡ false) (sym k_j) named in
      let at_k : get_field k stored ≡ none =
        subst (λ y. get_field y stored ≡ none) (sym k_j) absent in
      rw (add_item, entry, at_k)
        (add_item-KeptIn j v (set_field k x stored) config (
          x,
          get_field-set_field k j x stored ∙ rw same refl,
          subst (λ y. Keeps y x) x_v (Keeps-refl x),
        ))
  | inr other ↦
      let later : get_field j config ≡ some v = rw other at there in
      elim (Bool-cases (k == "_computed_keys")) [
        | inl passed ↦ rw (add_item, passed) (add_item-new j v stored config named absent later)
        | inr entry ↦
            rw (add_item, entry)
              (add_item-new j v (set_field k (stored_entry (get_field k stored) x) stored) config
                named
                (get_field-set_field k j (stored_entry (get_field k stored) x) stored
                  ∙ rw other absent)
                later)
      ]
]

-- What the first of the configuration items says of a variable is kept, whatever the further items say:
-- the value itself, and of a dictionary each of its entries. Only the list of computed variables is left
-- out.
pub load_stored_tfvars-first :
    (store : Store) (key : String) (keys : List String) (config : Fields) (j : String) (v : Value)
    → read_config key store ≡ return config
    → get_field j config ≡ some v
    → j == "_computed_keys" ≡ false
    → (w : Value) × (get_field j (load_stored_tfvars store (key ∷ keys)) ≡ some w) × Keeps v w
unfolding load_stored_tfvars add_items add_read get_field
load_stored_tfvars-first store key keys config j v first there named =
    let start = add_item-new j v end config named refl there in
    rw (load_stored_tfvars, add_items, first, add_read)
      (add_items-KeptIn j v store (add_item end config) keys start)
