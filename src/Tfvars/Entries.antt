-- ===== src/Tfvars/Entries.antt =====
-- What the dictionary operations on variables leave at one variable.
use snap_openstack.Prelude.{
  NoRepeat, String, ◌≡◌, refl, ◌∙◌, Bool, false, Option, none, some, List, [], ◌∷◌, elem, or_else,
  arith, eq_iff, ◌==◌, string_eq, if◌then◌else◌, Bool-cases, inl, inr, subst,
}
use snap_openstack.Dict
use snap_openstack.Dict.{Dict}
use snap_openstack.Value.{Value, Fields, end, field, get_field, set_field, has_field, IsDict}
use snap_openstack.Value.Laws.{get_field-set_field, set_field-IsDict, get_field-none}
use snap_openstack.Tfvars.{
  add_name, charm_config_keys, applied, apply_tfvars, merged_override, set_some,
  merge_manifest_into_override,
}

-- The entry of a variable after `apply_tfvars`, from its entries in the target and in the source.
abbrev pub applied_entry : Bool → Option Value → Option Value → Option Value
applied_entry charm_config old none = old
applied_entry charm_config old (some v) = some (applied charm_config old v)

module _ (config_keys : List String) (j : String) where
  applied_entry-step :
      (k : String) (v : Value) (target source : Fields)
      → has_field k source ≡ false
      → applied_entry
          (elem j config_keys)
          (get_field j (set_field k (applied (elem k config_keys) (get_field k target) v) target))
          (get_field j source)
        ≡ applied_entry (elem j config_keys) (get_field j target) (get_field j (field k v source))
  unfolding get_field
  applied_entry-step k v target source fresh = elim (Bool-cases (k == j)) [
    | inl same ↦
        let p = (eq_iff k j).0 same in
        let absent : get_field j source ≡ none =
          get_field-none j source (subst (λ x. has_field x source ≡ false) p fresh) in
        rw (same, absent)
          (get_field-set_field k j (applied (elem k config_keys) (get_field k target) v) target
            ∙ rw same (
                subst
                  (λ x.
                    some (applied (elem k config_keys) (get_field k target) v)
                    ≡ some (applied (elem x config_keys) (get_field x target) v))
                  p refl))
    | inr other ↦
        rw
          (
            get_field-set_field k j (applied (elem k config_keys) (get_field k target) v) target,
            other,
          )
          refl
  ]

  pub get_field-apply_tfvars :
      (target source : Fields)
      → IsDict source
      → get_field j (apply_tfvars config_keys target source)
        ≡ applied_entry (elem j config_keys) (get_field j target) (get_field j source)
  unfolding apply_tfvars get_field
  get_field-apply_tfvars target end h = refl
  get_field-apply_tfvars target (field k v source) h =
      get_field-apply_tfvars
        (set_field k (applied (elem k config_keys) (get_field k target) v) target) source h.1
      ∙ applied_entry-step k v target source h.0

add_name-NoRepeat : (k : String) (ks : List String) → NoRepeat ks → NoRepeat (add_name k ks)
unfolding add_name
add_name-NoRepeat k ks h = elim (Bool-cases (elem k ks)) [ inl t ↦ rw t h | inr f ↦ rw f (f, h) ]

pub charm_config_keys-NoRepeat : (charms : Dict (Dict String)) → NoRepeat (charm_config_keys charms)
unfolding charm_config_keys
charm_config_keys-NoRepeat [] = tt
charm_config_keys-NoRepeat ((charm, attributes) ∷ charms) =
    add_config_key (Dict.get "config" attributes) (charm_config_keys-NoRepeat charms)
  where
    add_config_key :
        (o : Option String)
        → NoRepeat (charm_config_keys charms)
        → NoRepeat (elim o [
          | none ↦ charm_config_keys charms
          | some key ↦
              if key == ""
              then charm_config_keys charms
              else add_name key (charm_config_keys charms)
        ])
    add_config_key none h = h
    add_config_key (some key) h = elim (Bool-cases (key == "")) [
      | inl t ↦ rw t h
      | inr f ↦ rw f (add_name-NoRepeat key (charm_config_keys charms) h)
    ]

-- The entry of a key in the caller's dictionary after `merge_manifest_into_override`.
abbrev pub merged_entry : Bool → Option Value → Option Value → Option Value
merged_entry charm_config o m = if charm_config then or_else (merged_override o m) o else o

get_field-set_some :
    (key j : String) (o : Option Value) (d : Fields)
    → get_field j (set_some key o d)
      ≡ (if key == j then or_else o (get_field j d) else get_field j d)
unfolding set_some
get_field-set_some key j none d = ground arith
get_field-set_some key j (some v) d = get_field-set_field key j v d

set_some-IsDict :
    (key : String) (o : Option Value) (d : Fields) → IsDict d → IsDict (set_some key o d)
unfolding set_some
set_some-IsDict key none d h = h
set_some-IsDict key (some v) d h = set_field-IsDict key v d h

module _ (j : String) (manifest : Fields) where
  merged_entry-step :
      (key : String) (ks : List String) (override : Fields)
      → elem key ks ≡ false
      → merged_entry
          (elem j ks)
          (get_field j (
            set_some key
              (merged_override (get_field key override) (get_field key manifest))
              override))
          (get_field j manifest)
        ≡ merged_entry (elem j (key ∷ ks)) (get_field j override) (get_field j manifest)
  merged_entry-step key ks override fresh =
      let o = merged_override (get_field key override) (get_field key manifest) in
      elim (Bool-cases (key == j)) [
        | inl same ↦
            let p = (eq_iff key j).0 same in
            let fresh' : elem j ks ≡ false = subst (λ x. elem x ks ≡ false) p fresh in
            rw (fresh', get_field-set_some key j o override, same)
              (subst
                (λ x.
                  or_else o (get_field j override)
                  ≡ or_else (merged_override (get_field x override) (get_field x manifest))
                      (get_field j override))
                p refl)
        | inr other ↦ rw (get_field-set_some key j o override, other) refl
      ]

  pub get_field-merge_manifest_into_override :
      (ks : List String) (override : Fields)
      → NoRepeat ks
      → get_field j (merge_manifest_into_override ks override manifest)
        ≡ merged_entry (elem j ks) (get_field j override) (get_field j manifest)
  unfolding merge_manifest_into_override
  get_field-merge_manifest_into_override [] override h = refl
  get_field-merge_manifest_into_override (key ∷ ks) override h =
      get_field-merge_manifest_into_override ks
        (set_some key (merged_override (get_field key override) (get_field key manifest)) override)
        h.1
      ∙ merged_entry-step key ks override h.0

pub merge_manifest_into_override-IsDict :
    (manifest : Fields) (ks : List String) (override : Fields)
    → IsDict override
    → IsDict (merge_manifest_into_override ks override manifest)
unfolding merge_manifest_into_override
merge_manifest_into_override-IsDict manifest [] override h = h
merge_manifest_into_override-IsDict manifest (key ∷ ks) override h =
    merge_manifest_into_override-IsDict manifest ks _ (
      set_some-IsDict key (merged_override (get_field key override) (get_field key manifest))
        override h)
