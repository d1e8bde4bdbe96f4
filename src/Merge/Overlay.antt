-- ===== src/Merge/Overlay.antt =====
-- What a merge is, without the code's way to compute it: the entry of each key, at every depth.
use snap_openstack.Prelude.{
  String, ◌≡◌, refl, false, true, Option, none, some, return, ◌==◌, string_eq, >>=-eq-return,
  Bool-cases, inl, inr, subst, sym, if◌then◌else◌,
}
use snap_openstack.Value.{
  Value, null, bool, int, str, list, dict, object, Fields, end, field, get_field, truthy, IsDict,
}
use snap_openstack.Merge.{merge_key, merge_value, merge_dict, merge_into}
use snap_openstack.Merge.Lookup.{is_mapping, MergedEntry, merge_dict-MergedEntry}
use snap_openstack.Merge.Idempotence.{IsDocument, AreDocuments}

mutual
  -- A true value, the value over it, and what they come to.
  pub data Overlaid : Value → Value → Value → Type 0 where
    replaced : (old new : Value) → is_mapping new ≡ false → truthy new ≡ true → Overlaid old new new
    kept : (old new : Value) → is_mapping new ≡ false → truthy new ≡ false → Overlaid old new old
    unchanged : (old : Value) → Overlaid old (dict end) old
    merged :
        (d u m : Fields)
        → ((k : String) → OverlaidEntry (get_field k d) (get_field k u) (get_field k m))
        → Overlaid (dict d) (dict u) (dict m)

  -- The entries of a key in the two dictionaries and in the merged one.
  pub data OverlaidEntry : Option Value → Option Value → Option Value → Type 0 where
    only_old : (old : Option Value) → OverlaidEntry old none old
    only_new : (new : Value) → OverlaidEntry none (some new) (some new)
    over_false :
        (old new : Value) → truthy old ≡ false → OverlaidEntry (some old) (some new) (some new)
    over_true :
        (old new w : Value)
        → truthy old ≡ true
        → Overlaid old new w
        → OverlaidEntry (some old) (some new) (some w)

-- Where the new value is no mapping.
plain_case :
    (old new w : Value)
    → is_mapping new ≡ false
    → return (if truthy new then new else old) ≡ return w
    → Overlaid old new w
plain_case old new w plain h = elim (Bool-cases (truthy new)) [
  | inl t ↦
      let h' : return new ≡ return w = rw t at h in
      let e : new ≡ w = cc in subst (λ x. Overlaid old new x) e (replaced old new plain t)
  | inr f ↦
      let h' : return old ≡ return w = rw f at h in
      let e : old ≡ w = cc in subst (λ x. Overlaid old new x) e (kept old new plain f)
]

-- The entry of one key, from what the merge of its two values is.
entry-Overlaid :
    (o : Option Value) (v w : Value)
    → ((old : Value) → merge_value old v ≡ return w → Overlaid old v w)
    → merge_key (λ old. merge_value old v) o v ≡ return w
    → OverlaidEntry o (some v) (some w)
unfolding merge_key
entry-Overlaid none v w law h =
    let e : v ≡ w = cc in subst (λ x. OverlaidEntry none (some v) (some x)) e (only_new v)
entry-Overlaid (some old) v w law h = elim (Bool-cases (truthy old)) [
  | inl t ↦ over_true old v w t (law old (rw t at h))
  | inr f ↦
      let h' : return v ≡ return w = rw f at h in
      let e : v ≡ w = cc in
      subst (λ x. OverlaidEntry (some old) (some v) (some x)) e (over_false old v f)
]

from_merged :
    (old new merged_entry : Option Value)
    → ((v : Value) → new ≡ some v → (o w : Value) → merge_value o v ≡ return w → Overlaid o v w)
    → MergedEntry old new merged_entry
    → OverlaidEntry old new merged_entry
from_merged old none m law e = subst (λ x. OverlaidEntry old none x) (sym e) (only_old old)
from_merged old (some v) m law (w, e, at) =
    subst (λ x. OverlaidEntry old (some v) x) (sym at)
      (entry-Overlaid old v w (λ o. law v refl o w) e)

dict-Overlaid :
    (old : Value) (u : Fields) (w : Value)
    → IsDict u
    → ((k : String) (v : Value)
        → get_field k u ≡ some v
        → (o x : Value) → merge_value o v ≡ return x
        → Overlaid o v x)
    → merge_into (λ d. merge_dict d u) u old ≡ return w
    → Overlaid old (dict u) w
unfolding merge_into merge_dict
dict-Overlaid (dict d) u w h law e =
    let (m, merge, same) = >>=-eq-return (merge_dict d u) _ e in
    let k : dict m ≡ w = cc in
    subst (λ x. Overlaid (dict d) (dict u) x) k
      (merged d u m (λ j.
        from_merged (get_field j d) (get_field j u) (get_field j m) (law j)
          (merge_dict-MergedEntry j d u m h merge)))
dict-Overlaid old end w h law e =
    let k : old ≡ w = cc in subst (λ x. Overlaid old (dict end) x) k (unchanged old)
dict-Overlaid old (field j v u) w h law e = cc

mutual
  unfolding merge_value IsDocument get_field

  value-Overlaid :
      (old v w : Value) → IsDocument v → merge_value old v ≡ return w → Overlaid old v w
  value-Overlaid old (dict u) w d h =
      dict-Overlaid old u w d.0 (λ k v e o x m. entries-Overlaid k u v d.1 e o x m) h
  value-Overlaid old null w d h = plain_case old null w refl h
  value-Overlaid old (bool b) w d h = plain_case old (bool b) w refl h
  value-Overlaid old (int n) w d h = plain_case old (int n) w refl h
  value-Overlaid old (str t) w d h = plain_case old (str t) w refl h
  value-Overlaid old (list vs) w d h = plain_case old (list vs) w refl h
  value-Overlaid old (object c f) w d h = plain_case old (object c f) w refl h

  -- Each entry of the second dictionary.
  entries-Overlaid :
      (k : String) (u : Fields) (v : Value)
      → AreDocuments u
      → get_field k u ≡ some v
      → (old w : Value) → merge_value old v ≡ return w
      → Overlaid old v w
  entries-Overlaid k end v d h old w e = cc
  entries-Overlaid k (field j x u) v d h old w e = elim (Bool-cases (j == k)) [
    | inl same ↦
        let p : some x ≡ some v = rw same at h in
        let q : x ≡ v = cc in
        subst (λ z. Overlaid old z w) q
          (value-Overlaid old x w d.0 (subst (λ z. merge_value old z ≡ return w) (sym q) e))
    | inr other ↦ entries-Overlaid k u v d.1 (rw other at h) old w e
  ]

-- Where the keys of the second dictionary are distinct at every depth and the merge does not raise, the merged
-- dictionary has at each key, at every depth: the old entry where the second dictionary has none; the new one where
-- the old one is missing or false; of a true old value and a mapping their merge, or the old value where the mapping
-- is empty; and over a true old value any other new value where that is true, and else the old value.
pub merge_dict-Overlaid :
    (d u m : Fields)
    → IsDocument (dict u)
    → merge_dict d u ≡ return m
    → Overlaid (dict d) (dict u) (dict m)
unfolding merge_value merge_into
merge_dict-Overlaid d u m h e = value-Overlaid (dict d) (dict u) (dict m) h (rw e refl)
