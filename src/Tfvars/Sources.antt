-- ===== src/Tfvars/Sources.antt =====
-- The variables that the manifest gives.
use snap_openstack.Prelude.{
  String, ◌≡◌, Bool, true, false, Option, none, some, List, [], ◌∷◌, arith, string_eq,
  if◌then◌else◌, Bool-cases, inl, inr,
}
use snap_openstack.Dict.{Dict}
use snap_openstack.Value.{Value, Fields, end, get_field, set_field, truthy, IsDict}
use snap_openstack.Value.Laws.{get_field-set_field, set_field-IsDict}
use snap_openstack.Manifest.{CharmManifest, Manifest, find_charm}
use snap_openstack.Tfvars.{VarMap, is_wanted, charm_tfvars, add_tfvars, get_tfvars}

-- A dictionary with distinct keys whose values are all true.
pub record IsTrueDict (d : Fields) : Type 0 where
  pub distinct : IsDict d
  pub true_at : (j : String) (v : Value) → get_field j d ≡ some v → truthy v ≡ true

IsTrueDict-end : IsTrueDict end
unfolding get_field
IsTrueDict-end = record { distinct = tt; true_at = λ j v h. cc }

set_field-IsTrueDict :
    (k : String) (v : Value) (d : Fields)
    → truthy v ≡ true
    → IsTrueDict d
    → IsTrueDict (set_field k v d)
set_field-IsTrueDict k v d t h = record {
  distinct = set_field-IsDict k v d h.distinct;
  true_at = λ j w e. ground (arith, get_field-set_field k j v d, h.true_at j w);
}

-- One attribute of the loop of `charm_tfvars`.
abbrev add_attribute : String → Option Value → Fields → Fields
add_attribute name o tfvars = elim o [
  | none ↦ tfvars
  | some v ↦ if truthy v then set_field name v tfvars else tfvars
]

add_attribute-IsTrueDict :
    (name : String) (o : Option Value) (d : Fields)
    → IsTrueDict d
    → IsTrueDict (add_attribute name o d)
add_attribute-IsTrueDict name none d h = h
add_attribute-IsTrueDict name (some v) d h = elim (Bool-cases (truthy v)) [
  | inl t ↦ rw t (set_field-IsTrueDict name v d t h)
  | inr f ↦ rw f h
]

charm_tfvars-IsTrueDict :
    (dump : Fields) (attributes : Dict String) (d : Fields)
    → IsTrueDict d
    → IsTrueDict (charm_tfvars dump attributes d)
unfolding charm_tfvars
charm_tfvars-IsTrueDict dump [] d h = h
charm_tfvars-IsTrueDict dump ((attribute, name) ∷ attributes) d h =
    charm_tfvars-IsTrueDict dump attributes _
      (add_attribute-IsTrueDict name (get_field attribute dump) d h)

abbrev add_charm : Bool → Option CharmManifest → Dict String → Fields → Fields
add_charm wanted o attributes tfvars =
    if wanted
    then (elim o [ none ↦ tfvars | some c ↦ charm_tfvars c.dump attributes tfvars ])
    else tfvars

add_charm-IsTrueDict :
    (wanted : Bool) (o : Option CharmManifest) (attributes : Dict String) (d : Fields)
    → IsTrueDict d
    → IsTrueDict (add_charm wanted o attributes d)
add_charm-IsTrueDict true none attributes d h = h
add_charm-IsTrueDict true (some c) attributes d h = charm_tfvars-IsTrueDict c.dump attributes d h
add_charm-IsTrueDict false o attributes d h = h

add_tfvars-IsTrueDict :
    (manifest : Manifest) (charms : Dict (Dict String)) (wanted : List String) (d : Fields)
    → IsTrueDict d
    → IsTrueDict (add_tfvars manifest charms wanted d)
unfolding add_tfvars
add_tfvars-IsTrueDict manifest [] wanted d h = h
add_tfvars-IsTrueDict manifest ((charm, attributes) ∷ charms) wanted d h =
    add_tfvars-IsTrueDict manifest charms wanted _
      (add_charm-IsTrueDict (is_wanted charm wanted) (find_charm charm manifest) attributes d h)

-- The manifest gives each variable once, and only true values.
pub get_tfvars-IsTrueDict :
    (vars : VarMap) (manifest : Manifest) (wanted : List String)
    → IsTrueDict (get_tfvars vars manifest wanted)
unfolding get_tfvars
get_tfvars-IsTrueDict vars manifest wanted =
    add_tfvars-IsTrueDict manifest vars.charms wanted end IsTrueDict-end
