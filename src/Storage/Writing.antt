-- ===== src/Storage/Writing.antt =====
-- When `AddManifestStep` stores a manifest.
use snap_openstack.Prelude.{
  ◌≡◌, refl, ◌⊎◌, inl, inr, false, Option, none, some, Outcome, return, raise, not_found,
  unavailable, yaml_error, io_error, Bool-cases,
}
use snap_openstack.Value.{Value, null}
use snap_openstack.Plan.{ResultType, completed, skipped}
use snap_openstack.Storage.{same_value, Sources, chosen, decide, after_reading, is_skip}

-- The content is news for the cluster: it has no manifest, or another one.
abbrev pub IsNews : Outcome Value → Option Value → Type 0
IsNews latest o =
    (content : Value) × (o ≡ some content)
    × ((latest ≡ raise not_found)
        ⊎ ((old : Value) × (latest ≡ return old) × (same_value old content ≡ false)))

decide-IsNews :
    (c : Option Value) (embedded : Value) (latest : Outcome Value) (o : Option Value)
    → decide c embedded latest ≡ return (completed, o)
    → IsNews latest o
unfolding decide
decide-IsNews (some content) embedded (return old) o h =
    elim (Bool-cases (same_value old content)) [
      | inl same ↦
          let h' : ◌≡◌ {A = Outcome (ResultType × Option Value)} (return (skipped, some content))
              (return (completed, o)) =
            rw (decide, same) at h in
          cc
      | inr differs ↦
          let h' : ◌≡◌ {A = Outcome (ResultType × Option Value)} (return (completed, some content))
              (return (completed, o)) =
            rw (decide, differs) at h in
          (content, cc, inr (old, refl, differs))
    ]
decide-IsNews none embedded (return old) o h = cc
decide-IsNews (some content) embedded (raise not_found) o h = (content, cc, inl refl)
decide-IsNews none null (raise not_found) o h = cc
decide-IsNews none embedded (raise not_found) o h = (embedded, cc, inl refl)
decide-IsNews none embedded (raise yaml_error) o h = cc
decide-IsNews c embedded (raise unavailable) o h = cc
decide-IsNews c embedded (raise e) o h = cc

after_reading-IsNews :
    (r : Outcome (Option Value × Value)) (latest : Outcome Value) (o : Option Value)
    → after_reading r latest ≡ return (completed, o)
    → IsNews latest o
unfolding after_reading
after_reading-IsNews (return (c, embedded)) latest o h = decide-IsNews c embedded latest o h
after_reading-IsNews (raise yaml_error) latest o h = cc
after_reading-IsNews (raise io_error) latest o h = cc
after_reading-IsNews (raise e) latest o h = cc

-- The step that stores a manifest runs only with a content to store, and only if the cluster has no
-- manifest or one that differs from the content.
pub is_skip-IsNews :
    (s : Sources) (o : Option Value) → is_skip s ≡ return (completed, o) → IsNews s.latest o
unfolding is_skip
is_skip-IsNews s o h = after_reading-IsNews (chosen s) s.latest o h
