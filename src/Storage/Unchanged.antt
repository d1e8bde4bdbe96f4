-- ===== src/Storage/Unchanged.antt =====
-- What a check without findings means, and when a manifest is stored.
use snap_openstack.Prelude.{
  String, ◌≡◌, refl, ◌∙◌, ap, Bool, true, false, ◌||◌, some, List, [], ◌∷◌, ◌++◌, arith, eq_iff,
  ◌==◌, string_eq, if◌then◌else◌, Bool-cases, inl, inr, subst, sym,
}
use snap_openstack.Dict
use snap_openstack.Dict.{Dict}
use snap_openstack.Value.{Value, dict, Fields, end, field, get_field}
use snap_openstack.Manifest.{CharmManifest, Manifest, find_charm}
use snap_openstack.Config.{Store}
use snap_openstack.Tfvars.{VarMap}
use snap_openstack.Storage.{
  load_stored_tfvars, is_changed, is_modified, modified_attribute, modified_charm, modified_charms,
  check_storage_modifications, same_value,
}

append-empty : (xs ys : List String) → xs ++ ys ≡ [] → (xs ≡ []) × (ys ≡ [])
append-empty [] ys h = (refl, h)
append-empty (x ∷ xs) ys h = cc

is_changed-same :
    (k : String) (v w : Value) (d stored : Fields)
    → is_changed d stored ≡ false
    → get_field k d ≡ some v
    → get_field k stored ≡ some w
    → same_value w v ≡ true
unfolding is_changed get_field
is_changed-same k v w end stored h there before = cc
is_changed-same k v w (field j x d) stored h there before = elim (Bool-cases (j == k)) [
  | inl same ↦
      let e : some x ≡ some v = rw same at there in
      let x_v : x ≡ v = cc in
      let at_j : get_field j stored ≡ some w =
        subst (λ y. get_field y stored ≡ some w) (sym ((eq_iff j k).0 same)) before in
      subst (λ y. same_value w y ≡ true) x_v (ground (arith, at_j))
  | inr other ↦ is_changed-same k v w d stored (ground arith) (rw other at there) before
]

modified_charms-charm :
    (stored : Fields) (manifest : Manifest) (charms : Dict (Dict String)) (charm : String)
    (attributes : Dict String)
    → modified_charms stored manifest charms ≡ []
    → Dict.get charm charms ≡ some attributes
    → modified_charm stored (find_charm charm manifest) attributes ≡ []
unfolding modified_charms Dict.get
modified_charms-charm stored manifest [] charm attributes h there = cc
modified_charms-charm stored manifest ((c, own) ∷ charms) charm attributes h there =
    let (here, later) =
      append-empty (modified_charm stored (find_charm c manifest) own)
        (modified_charms stored manifest charms) h in
    elim (Bool-cases (c == charm)) [
      | inl same ↦
          let e : some own ≡ some attributes = rw same at there in
          let own_attributes : own ≡ attributes = cc in
          let moved : modified_charm stored (find_charm charm manifest) own ≡ [] =
            subst (λ x. modified_charm stored (find_charm x manifest) own ≡ [])
              ((eq_iff c charm).0 same) here in
          subst (λ x. modified_charm stored (find_charm charm manifest) x ≡ []) own_attributes moved
      | inr other ↦
          modified_charms-charm stored manifest charms charm attributes later (rw other at there)
    ]

modified_attribute-same :
    (stored extra : Fields) (attributes : Dict String) (attribute name : String) (d s : Fields)
    (k : String) (v w : Value)
    → modified_attribute stored extra attributes attribute ≡ []
    → Dict.get attribute attributes ≡ some name
    → name == "" ≡ false
    → get_field attribute extra ≡ some (dict d)
    → get_field name stored ≡ some (dict s)
    → get_field k d ≡ some v
    → get_field k s ≡ some w
    → same_value w v ≡ true
unfolding modified_attribute is_modified
modified_attribute-same stored extra attributes attribute name d s k v w h there named new old given
      before =
    let h' : (if is_changed d s then name ∷ [] else []) ≡ [] =
      rw (modified_attribute, there, named, new, old, is_modified) at h in
    is_changed-same k v w d s (ground (arith, h')) given before

-- The attributes of a charm that hold volumes.
abbrev pub is_storage_attribute : String → Bool
is_storage_attribute attribute = "storage" == attribute || "storage-map" == attribute

-- If the check of the storage reports nothing, then each volume that a charm has both in the manifest and
-- in the stored variables has the same size in both.
pub check_storage_modifications-same :
    (store : Store) (manifest : Manifest) (vars : VarMap) (key : String) (extra : List String)
    (charm attribute name volume : String) (attributes : Dict String) (c : CharmManifest)
    (d s : Fields) (v w : Value)
    → check_storage_modifications store manifest vars key extra ≡ []
    → Dict.get charm vars.charms ≡ some attributes
    → find_charm charm manifest ≡ some c
    → is_storage_attribute attribute ≡ true
    → Dict.get attribute attributes ≡ some name
    → name == "" ≡ false
    → get_field attribute c.model_extra ≡ some (dict d)
    → get_field name (load_stored_tfvars store (key ∷ extra)) ≡ some (dict s)
    → get_field volume d ≡ some v
    → get_field volume s ≡ some w
    → same_value w v ≡ true
unfolding check_storage_modifications modified_charm
check_storage_modifications-same store manifest vars key extra charm attribute name volume
      attributes c d s v w clean there found storage mapped named new old given before =
    let stored = load_stored_tfvars store (key ∷ extra) in
    let of_charm : modified_charm stored (some c) attributes ≡ [] =
      ap (λ o. modified_charm stored o attributes) (sym found)
      ∙ modified_charms-charm stored manifest vars.charms charm attributes clean there in
    let (sizes, maps) =
      append-empty (modified_attribute stored c.model_extra attributes "storage") _ of_charm in
    elim (Bool-cases ("storage" == attribute)) [
      | inl first ↦
          modified_attribute-same stored c.model_extra attributes attribute name d s volume v w
            (subst (λ a. modified_attribute stored c.model_extra attributes a ≡ [])
              ((eq_iff "storage" attribute).0 first) sizes)
            mapped named new old given before
      | inr other ↦
          modified_attribute-same stored c.model_extra attributes attribute name d s volume v w
            (subst (λ a. modified_attribute stored c.model_extra attributes a ≡ [])
              ((eq_iff "storage-map" attribute).0 (ground arith)) maps)
            mapped named new old given before
    ]
