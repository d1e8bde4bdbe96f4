-- ===== src/Manifest/Overlay.antt =====
-- The core software of a merged manifest.
use snap_openstack.Prelude.{String, ◌≡◌, refl, some, [], ◌∷◌, return, >>=-eq-return, arith}
use snap_openstack.Dict.{Dict, get, set, update, Distinct, get-update, get-none}
use snap_openstack.Merge.{merge_dict}
use snap_openstack.Manifest.{
  CharmManifest, SoftwareConfig, Manifest, Validation, merge_models, merge_software, merge_core,
  merge_entries, merge, find_charm,
}

pub merge_models-eq-update {ℓ} : {A : Type ℓ} (d u : Dict A) → merge_models d u ≡ update d u
unfolding merge_models update
merge_models-eq-update d [] = refl
merge_models-eq-update d ((k, v) ∷ u) = merge_models-eq-update (set k v d) u

module _ (validation : Validation) where
  merge_software-tables :
      (s other merged : SoftwareConfig)
      → merge_software validation s other ≡ return merged
      → (merged.charms ≡ update s.charms other.charms)
        × (merged.terraform ≡ update s.terraform other.terraform)
  unfolding merge_software
  merge_software-tables s other merged e =
      let (d, _, rest) = >>=-eq-return (merge_dict s.juju other.juju) _ e in
      let (juju, _, done) = >>=-eq-return (validation.juju d) _ rest in
      let q : record {
        juju = juju;
        charms = merge_models s.charms other.charms;
        terraform = merge_models s.terraform other.terraform;
      }
          ≡ merged =
        cc in
      rw (← q) (
        merge_models-eq-update s.charms other.charms,
        merge_models-eq-update s.terraform other.terraform,
      )

  pub merge-tables :
      (m other merged : Manifest)
      → merge validation m other ≡ return merged
      → (merged.core.software.charms ≡ update m.core.software.charms other.core.software.charms)
        × (merged.core.software.terraform
            ≡ update m.core.software.terraform other.core.software.terraform)
  unfolding merge merge_core
  merge-tables m other merged e =
      let (core, built, rest) = >>=-eq-return (merge_core validation m.core other.core) _ e in
      let (fs, _, done) =
        >>=-eq-return (merge_entries validation m.features other.features) _ rest in
      let (d, _, rest₂) = >>=-eq-return (merge_dict m.core.config other.core.config) _ built in
      let (config, _, rest₃) = >>=-eq-return (validation.core d) _ rest₂ in
      let (software, one, built') =
        >>=-eq-return (merge_software validation m.core.software other.core.software) _ rest₃ in
      let q : record { config = config; software = software } ≡ core = cc in
      let p : record { core = core; features = fs; storage = other.storage } ≡ merged = cc in
      rw (← p) (rw (← q) (merge_software-tables m.core.software other.core.software software one))

-- In a merged manifest a charm that the second manifest's core software names is found as the second
-- manifest gives it, whatever the first one and the features say of it.
pub find_charm-merge :
    (validation : Validation) (m other merged : Manifest) (charm : String) (c : CharmManifest)
    → merge validation m other ≡ return merged
    → Distinct other.core.software.charms
    → get charm other.core.software.charms ≡ some c
    → find_charm charm merged ≡ some c
unfolding find_charm
find_charm-merge validation m other merged charm c e distinct there =
    let at : get charm merged.core.software.charms ≡ some c =
      rw (merge-tables validation m other merged e).0 (
        ground (
          arith,
          get-update charm m.core.software.charms other.core.software.charms distinct,
          there,
          get-none charm other.core.software.charms,
        )) in
    rw (at, find_charm)
