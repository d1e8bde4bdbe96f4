-- ===== src/Merge/Lookup.antt =====
-- What `merge_dict` leaves at a key.
use snap_openstack.Prelude.{
  String, ◌≡◌, ◌||◌, false, true, Option, none, some, return, arith, eq_iff, ◌==◌, string_eq,
  >>=-eq-return, Bool-cases, inl, subst, ◌∙◌, inr, Bool, ap,
}
use snap_openstack.Value.{
  Value, null, bool, int, str, list, dict, object, Fields, end, field, get_field, set_field,
  has_field, truthy, IsDict,
}
use snap_openstack.Value.Laws.{get_field-set_field, has_field-set_field, get_field-none}
use snap_openstack.Merge.{merge_key, merge_value, merge_dict, merge_into}

-- The entry `new` of the merged dictionary, from those of the two dictionaries.
abbrev pub MergedEntry : Option Value → Option Value → Option Value → Type 0
MergedEntry old none new = new ≡ old
MergedEntry old (some v) new =
    (w : Value) × (merge_key (λ o. merge_value o v) old v ≡ return w) × (new ≡ some w)

MergedEntry-step :
    (j k : String) (d u m : Fields) (v w : Value)
    → has_field k u ≡ false
    → merge_key (λ o. merge_value o v) (get_field k d) v ≡ return w
    → MergedEntry (get_field j (set_field k w d)) (get_field j u) (get_field j m)
    → MergedEntry (get_field j d) (get_field j (field k v u)) (get_field j m)
unfolding get_field
MergedEntry-step j k d u m v w fresh e rest = elim (Bool-cases (k == j)) [
  | inl same ↦
      let p = (eq_iff k j).0 same in
      let absent : get_field j u ≡ none =
        get_field-none j u (subst (λ x. has_field x u ≡ false) p fresh) in
      let kept : get_field j m ≡ get_field j (set_field k w d) = rw absent at rest in
      rw same (
        w,
        subst (λ x. merge_key (λ o. merge_value o v) (get_field x d) v ≡ return w) p e,
        kept ∙ get_field-set_field k j w d ∙ rw same,
      )
  | inr other ↦
      let same : get_field j (set_field k w d) ≡ get_field j d =
        get_field-set_field k j w d ∙ rw other in
      rw other (rw same at rest)
]

-- Where the keys of the second dictionary are distinct and the merge does not raise, each key of the
-- result has the entry that the two entries of that key give, whatever stands at the other keys: the
-- old one if the second dictionary lacks the key, and else what `merge_key` makes of the two.
pub merge_dict-MergedEntry :
    (j : String) (d u m : Fields)
    → IsDict u
    → merge_dict d u ≡ return m
    → MergedEntry (get_field j d) (get_field j u) (get_field j m)
unfolding merge_dict get_field
merge_dict-MergedEntry j d end m h e = ground arith
merge_dict-MergedEntry j d (field k v u) m h e =
    let (w, entry, rest) =
      >>=-eq-return (merge_key (λ old. merge_value old v) (get_field k d) v)
        (λ w. merge_dict (set_field k w d) u) e in
    MergedEntry-step j k d u m v w h.0 entry
      (merge_dict-MergedEntry j (set_field k w d) u m h.1 rest)

-- The merged dictionary has exactly the keys of the two.
pub has_field-merge_dict :
    (j : String) (d u m : Fields)
    → merge_dict d u ≡ return m
    → has_field j m ≡ (has_field j d || has_field j u)
unfolding merge_dict
has_field-merge_dict j d end m e = ground arith
has_field-merge_dict j d (field k v u) m e =
    let (w, entry, rest) =
      >>=-eq-return (merge_key (λ old. merge_value old v) (get_field k d) v)
        (λ w. merge_dict (set_field k w d) u) e in
    ground (arith, has_field-merge_dict j (set_field k w d) u m rest, has_field-set_field k j w d)

merge_into-end : (old w : Value) → merge_into (λ d. merge_dict d end) end old ≡ return w → w ≡ old
unfolding merge_into merge_dict
merge_into-end (dict d) w e = ground arith
merge_into-end _ w e = ground arith

merge_value-falsy : (old v w : Value) → truthy v ≡ false → merge_value old v ≡ return w → w ≡ old
unfolding truthy merge_value
merge_value-falsy old (dict end) w h e = merge_into-end old w e
merge_value-falsy old (dict (field k v u)) w h e = cc
merge_value-falsy old null w h e = ground arith
merge_value-falsy old (bool b) w h e = ground arith
merge_value-falsy old (int n) w h e = ground arith
merge_value-falsy old (str t) w h e = ground arith
merge_value-falsy old (list vs) w h e = ground arith
merge_value-falsy old (object c d) w h e = ground arith

-- A false value (None, False, 0, "", an empty list or dictionary) in the second dictionary never
-- takes the place of a true one in the first.
pub merge_dict-falsy :
    (j : String) (d u m : Fields) (old v : Value)
    → IsDict u
    → merge_dict d u ≡ return m
    → get_field j d ≡ some old
    → truthy old ≡ true
    → get_field j u ≡ some v
    → truthy v ≡ false
    → get_field j m ≡ some old
unfolding merge_key
merge_dict-falsy j d u m old v h e there kept new falsy =
    let entry : MergedEntry (some old) (some v) (get_field j m) =
      rw (there, new) at (merge_dict-MergedEntry j d u m h e) in
    let (w, merged, at) = entry in
    let merged' : merge_value old v ≡ return w = rw kept at merged in
    at ∙ ap some (merge_value-falsy old v w falsy merged')

abbrev pub is_mapping : Value → Bool
is_mapping (dict d) = true
is_mapping _ = false

merge_value-truthy :
    (old v w : Value)
    → is_mapping v ≡ false
    → truthy v ≡ true
    → merge_value old v ≡ return w
    → w ≡ v
unfolding merge_value
merge_value-truthy old (dict u) w n h e = cc
merge_value-truthy old _ w n h e = ground arith

merge_key-truthy :
    (o : Option Value) (v w : Value)
    → is_mapping v ≡ false
    → truthy v ≡ true
    → merge_key (λ old. merge_value old v) o v ≡ return w
    → w ≡ v
unfolding merge_key
merge_key-truthy none v w n h e = ground arith
merge_key-truthy (some old) v w n h e = elim (Bool-cases (truthy old)) [
  | inl t ↦ merge_value-truthy old v w n h (rw t at e)
  | inr f ↦ let e' : return v ≡ return w = rw f at e in ground arith
]

-- A true value that is no mapping always wins over what the first dictionary has.
pub merge_dict-truthy :
    (j : String) (d u m : Fields) (v : Value)
    → IsDict u
    → merge_dict d u ≡ return m
    → get_field j u ≡ some v
    → is_mapping v ≡ false
    → truthy v ≡ true
    → get_field j m ≡ some v
merge_dict-truthy j d u m v h e new plain true_ =
    let entry : MergedEntry (get_field j d) (some v) (get_field j m) =
      rw new at (merge_dict-MergedEntry j d u m h e) in
    let (w, merged, at) = entry in
    at ∙ ap some (merge_key-truthy (get_field j d) v w plain true_ merged)
