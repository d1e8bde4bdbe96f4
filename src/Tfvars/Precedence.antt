-- ===== src/Tfvars/Precedence.antt =====
-- Which of the three sources gives a variable its value.
use snap_openstack.Prelude.{
  String, ◌≡◌, refl, ◌∙◌, ap, true, false, Option, none, some, [], elem, or_else, arith, string_eq,
}
use snap_openstack.Value.{Value, dict, Fields, end, field, get_field, update_fields, truthy, IsDict}
use snap_openstack.Value.Laws.{
  update_fields-or_else, update_fields-IsDict, truthy-update_fields, truthy-set_field,
}
use snap_openstack.Manifest.{Manifest}
use snap_openstack.Tfvars.{
  VarMap, charm_config_keys, get_tfvars, applied, merged_override, merge_manifest_into_override,
  apply_tfvars, set_field,
}
use snap_openstack.Tfvars.Steps.{Loaded, combine_tfvars}
use snap_openstack.Tfvars.Entries.{
  applied_entry, get_field-apply_tfvars, merged_entry, charm_config_keys-NoRepeat,
  get_field-merge_manifest_into_override, merge_manifest_into_override-IsDict,
}
use snap_openstack.Tfvars.Sources.{get_tfvars-IsTrueDict}

module _ (vars : VarMap) (manifest : Manifest) (loaded : Loaded) (override : Fields)
    (distinct : IsDict override) where
  -- The entry of a variable in the result, from its entries in the three sources.
  get_field-combine_tfvars :
      (j : String)
      → let b = elem j (charm_config_keys vars.charms) in
        let m = get_field j (get_tfvars vars manifest []) in
        get_field j (combine_tfvars vars manifest loaded override).tfvars
        ≡ applied_entry b
            (applied_entry b (get_field j loaded.tfvars) m)
            (merged_entry b (get_field j override) m)
  unfolding combine_tfvars
  get_field-combine_tfvars j =
      let ks = charm_config_keys vars.charms in
      let from_manifest = get_tfvars vars manifest [] in
      get_field-apply_tfvars ks j (apply_tfvars ks loaded.tfvars from_manifest)
        (merge_manifest_into_override ks override from_manifest)
        (merge_manifest_into_override-IsDict from_manifest ks override distinct)
      ∙ rw (
        get_field-apply_tfvars ks j loaded.tfvars from_manifest
            (get_tfvars-IsTrueDict vars manifest []).distinct,
        get_field-merge_manifest_into_override j from_manifest ks override
            (charm_config_keys-NoRepeat vars.charms),
      )

applied_entry-plain : (old o : Option Value) → applied_entry false old o ≡ or_else o old
unfolding applied
applied_entry-plain old none = refl
applied_entry-plain old (some v) = refl

-- A variable that is not the configuration of a charm has the value that the caller gives, else the
-- one from the manifest, else the stored one that was kept.
pub combine_tfvars-plain :
    (vars : VarMap) (manifest : Manifest) (loaded : Loaded) (override : Fields) (j : String)
    → IsDict override
    → elem j (charm_config_keys vars.charms) ≡ false
    → get_field j (combine_tfvars vars manifest loaded override).tfvars
      ≡ or_else
          (get_field j override)
          (or_else (get_field j (get_tfvars vars manifest [])) (get_field j loaded.tfvars))
combine_tfvars-plain vars manifest loaded override j distinct plain =
    get_field-combine_tfvars vars manifest loaded override distinct j
    ∙ rw (plain, applied_entry-plain, applied_entry-plain) refl

-- The dictionary that is stored, or an empty one.
abbrev pub dict_or_empty : Option Value → Fields
dict_or_empty (some (dict d)) = d
dict_or_empty _ = end

-- A configuration `u` on top of what stands there.
after : Option Value → Fields → Fields
after (some (dict d)) u = update_fields d u
after _ u = u

applied-dict :
    (old : Option Value) (u : Fields)
    → truthy (dict u) ≡ true
    → applied true old (dict u) ≡ dict (after old u)
unfolding applied after truthy
applied-dict old end h = cc
applied-dict (some (dict d)) (field k v u) h = refl
applied-dict _ (field k v u) h = refl

get_field-after :
    (f : String) (old : Option Value) (u : Fields)
    → IsDict u
    → get_field f (after old u) ≡ or_else (get_field f u) (get_field f (dict_or_empty old))
unfolding after get_field
get_field-after f (some (dict d)) u h = update_fields-or_else f d u h
get_field-after f _ u h = ground arith

truthy-update_fields-right :
    (d u : Fields) → truthy (dict u) ≡ true → truthy (dict (update_fields d u)) ≡ true
unfolding update_fields truthy
truthy-update_fields-right d end h = cc
truthy-update_fields-right d (field k v u) h =
    truthy-update_fields (set_field k v d) u (truthy-set_field k v d)

or_else-absorb :
    (a b c : Option Value) → or_else (or_else a b) (or_else a c) ≡ or_else a (or_else b c)
or_else-absorb none none c = refl
or_else-absorb none (some b) c = refl
or_else-absorb (some a) b c = refl

-- The configuration of a charm, where the manifest and the caller both give one: each of its options
-- has the value from the manifest, else the caller's, else the stored one that was kept.
pub combine_tfvars-charm_config :
    (vars : VarMap) (manifest : Manifest) (loaded : Loaded) (override m o : Fields) (j : String)
    → IsDict override
    → IsDict m
    → IsDict o
    → elem j (charm_config_keys vars.charms) ≡ true
    → get_field j (get_tfvars vars manifest []) ≡ some (dict m)
    → get_field j override ≡ some (dict o)
    → (r : Fields) × (get_field j (combine_tfvars vars manifest loaded override).tfvars
        ≡ some (dict r))
      × ((f : String)
          → get_field f r
            ≡ or_else
                (get_field f m)
                (or_else (get_field f o) (get_field f (dict_or_empty (get_field j loaded.tfvars)))))
unfolding merged_override
combine_tfvars-charm_config vars manifest loaded override m o j distinct dm do' config in_manifest
      in_override =
    let old = get_field j loaded.tfvars in
    let full : truthy (dict m) ≡ true =
      (get_tfvars-IsTrueDict vars manifest []).true_at j (dict m) in_manifest in
    let u = update_fields o m in
    let full_u : truthy (dict u) ≡ true = truthy-update_fields-right o m full in
    (
      after (some (dict (after old m))) u,
      get_field-combine_tfvars vars manifest loaded override distinct j
          ∙ rw (config, in_manifest, in_override, applied-dict old m full)
              (ap some (applied-dict (some (dict (after old m))) u full_u)),
      λ f.
          get_field-after f (some (dict (after old m))) u (update_fields-IsDict o m do')
          ∙ rw (update_fields-or_else f o m dm, get_field-after f old m dm)
              (or_else-absorb (get_field f m) (get_field f o) (get_field f (dict_or_empty old))),
    )
