-- ===== src/Manifest/Validate.antt =====
-- What a manifest that passes the validation against the defaults can add to them.
use snap_openstack.Prelude.{
  String, ◌≡◌, true, [], ◌∷◌, return, arith, eq_iff, ◌==◌, string_eq, >>=-eq-return, Bool-cases,
  inl, inr, subst,
}
use snap_openstack.Dict.{Dict, has, keys, update, has-update}
use snap_openstack.Manifest.{
  SoftwareConfig, Manifest, Validation, known_keys, validate_software, validate_against_default,
  merge,
}
use snap_openstack.Manifest.Overlay.{merge-tables}

has-known_keys :
    {A B : Type 0} (k : String) (given : Dict A) (known : Dict B)
    → known_keys given known ≡ true
    → has k given ≡ true
    → has k known ≡ true
unfolding keys
has-known_keys k [] known h e = cc
has-known_keys k ((j, v) ∷ given) known h e = elim (Bool-cases (j == k)) [
  | inl same ↦ subst (λ x. has x known ≡ true) ((eq_iff j k).0 same) (ground arith)
  | inr other ↦ has-known_keys k given known (ground arith) (rw other at e)
]

has-update_known :
    {A : Type 0} (k : String) (default : Dict A) (given : Dict A)
    → known_keys given default ≡ true
    → has k (update default given) ≡ has k default
has-update_known k default given h = elim (Bool-cases (has k given)) [
  | inl there ↦ ground (arith, has-update k default given, has-known_keys k given default h there)
  | inr absent ↦ ground (arith, has-update k default given)
]

validate_software-known :
    (s default : SoftwareConfig)
    → validate_software s default ≡ return tt
    → (known_keys s.terraform default.terraform ≡ true)
      × (known_keys s.charms default.charms ≡ true)
unfolding validate_software
validate_software-known s default e = ground arith

-- Where a manifest passes the validation against the default manifest, merging it over the default one
-- gives core software with exactly the charms and the terraform plans of the default manifest.
pub merge-validated :
    (validation : Validation) (m default merged : Manifest) (k : String)
    → validate_against_default m default ≡ return tt
    → merge validation default m ≡ return merged
    → (has k merged.core.software.charms ≡ has k default.core.software.charms)
      × (has k merged.core.software.terraform ≡ has k default.core.software.terraform)
unfolding validate_against_default
merge-validated validation m default merged k valid e =
    let (_, software, _) =
      >>=-eq-return (validate_software m.core.software default.core.software) _ valid in
    let (plans, charms) = validate_software-known m.core.software default.core.software software in
    let tables = merge-tables validation default m merged e in
    (rw tables.0 (has-update_known k _ _ charms), rw tables.1 (has-update_known k _ _ plans))
