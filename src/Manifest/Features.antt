-- ===== src/Manifest/Features.antt =====
-- The features of a manifest, looked up and merged.
use snap_openstack.Prelude.{
  String, ◌≡◌, refl, Option, none, some, [], ◌∷◌, ◌++◌, return, >>=-eq-return, arith, eq_iff, ◌==◌,
  string_eq, Bool-cases, inl, inr, subst,
}
use snap_openstack.Dict.{Dict, get}
use snap_openstack.Manifest.{
  FeatureEntry, feature, group, Manifest, Validation, get_features, get_feature, merge_entry,
  merge_entries, merge_core, merge,
}

get-append {ℓ} :
    {V : Type ℓ} (k : String) (d e : Dict V)
    → get k (d ++ e) ≡ (elim (get k d) [ some v ↦ some v | none ↦ get k e ])
unfolding get
get-append k [] e = refl
get-append k ((j, v) ∷ d) e = ground (arith, get-append k d e)

-- The lookup of a feature by its name finds the first one of that name among all features of the
-- manifest, in the order in which `get_features` lists them.
get_feature-eq-get :
    (name : String) (fs : Dict FeatureEntry) → get_feature name fs ≡ get name (get_features fs)
unfolding get_feature get_features get
get_feature-eq-get name [] = refl
get_feature-eq-get name ((n, feature f) ∷ fs) = ground (arith, get_feature-eq-get name fs)
get_feature-eq-get name ((n, group g) ∷ fs) =
    ground (arith, get_feature-eq-get name fs, get-append name g (get_features fs))

module _ (validation : Validation) where
  -- The merged entry of one name, from the entries of that name on the two sides.
  abbrev pub MergedFeature :
      Option FeatureEntry → Option FeatureEntry → Option FeatureEntry → Type 0
  MergedFeature none other new = new ≡ none
  MergedFeature (some entry) other new =
      (w : FeatureEntry) × (merge_entry validation entry other ≡ return w) × (new ≡ some w)

  merge_entries-MergedFeature :
      (name : String) (fs other merged : Dict FeatureEntry)
      → merge_entries validation fs other ≡ return merged
      → MergedFeature (get name fs) (get name other) (get name merged)
  unfolding merge_entries get
  merge_entries-MergedFeature name [] other merged e = ground arith
  merge_entries-MergedFeature name ((n, entry) ∷ fs) other merged e =
      let (w, one, rest) = >>=-eq-return (merge_entry validation entry (get n other)) _ e in
      let (ws, others, done) = >>=-eq-return (merge_entries validation fs other) _ rest in
      let q : (n, w) ∷ ws ≡ merged = cc in
      elim (Bool-cases (n == name)) [
        | inl same ↦
            let p = (eq_iff n name).0 same in
            rw (← q) (
              rw same
                (w, subst (λ x. merge_entry validation entry (get x other) ≡ return w) p one, refl))
        | inr differs ↦ rw (← q) (rw differs (merge_entries-MergedFeature name fs other ws others))
      ]

-- When manifests merge, each feature of the merged manifest comes from the feature of that name in the
-- first manifest: merged with the one of that name in the second, or as it is if the second has none.
-- A feature that only the second manifest names is dropped. The storage is that of the second.
pub merge-MergedFeature :
    (validation : Validation) (m other merged : Manifest) (name : String)
    → merge validation m other ≡ return merged
    → MergedFeature validation
        (get name m.features)
        (get name other.features)
        (get name merged.features)
      × (merged.storage ≡ other.storage)
unfolding merge
merge-MergedFeature validation m other merged name e =
    let (core, _, rest) = >>=-eq-return (merge_core validation m.core other.core) _ e in
    let (fs, features, done) =
      >>=-eq-return (merge_entries validation m.features other.features) _ rest in
    let q : record { core = core; features = fs; storage = other.storage } ≡ merged = cc in
    rw (← q)
      (merge_entries-MergedFeature validation name m.features other.features fs features, refl)
