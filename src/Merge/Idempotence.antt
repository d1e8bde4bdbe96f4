-- ===== src/Merge/Idempotence.antt =====
-- Merging a document into itself.
use snap_openstack.Prelude.{
  String, ◌≡◌, refl, false, some, Outcome, return, arith, eq_iff, string_eq, ◌>>=◌, Bool-cases, ◌∙◌,
  inl, inr,
}
use snap_openstack.Value.{
  Value, null, bool, int, str, list, dict, object, Fields, end, field, get_field, set_field,
  has_field, truthy, IsDict,
}
use snap_openstack.Merge.Lookup.{is_mapping}
use snap_openstack.Merge.{merge_key, merge_into, merge_value, merge_dict}

-- The keys are distinct in a dictionary and in the dictionaries that it holds, at every depth.
unfoldable mutual
  pub IsDocument : Value → Type 0
  IsDocument (dict d) = IsDict d × AreDocuments d
  IsDocument _ = Unit

  pub AreDocuments : Fields → Type 0
  AreDocuments end = Unit
  AreDocuments (field k v d) = IsDocument v × AreDocuments d

-- The entries of `u` stand in `d`.
abbrev Sub : Fields → Fields → Type 0
Sub end d = Unit
Sub (field k v u) d = (get_field k d ≡ some v) × Sub u d

Sub-field :
    (k : String) (v : Value) (u d : Fields) → has_field k u ≡ false → Sub u d → Sub u (field k v d)
unfolding get_field
Sub-field k v end d h s = tt
Sub-field k v (field j w u) d h s =
    (ground (arith, eq_iff k j, eq_iff j k), Sub-field k v u d (ground arith) s.1)

Sub-self : (d : Fields) → IsDict d → Sub d d
unfolding get_field
Sub-self end h = tt
Sub-self (field k v d) h = (ground (arith, eq_iff k k), Sub-field k v d d h.0 (Sub-self d h.1))

set_field-same :
    (k : String) (v : Value) (d : Fields) → get_field k d ≡ some v → set_field k v d ≡ d
unfolding get_field set_field
set_field-same k v end h = cc
set_field-same k v (field j w d) h = ground (arith, set_field-same k v d)

merge_key_self :
    (merge : Value → Outcome Value) (v : Value)
    → merge v ≡ return v
    → merge_key merge (some v) v ≡ return v
unfolding merge_key
merge_key_self merge v h = elim (Bool-cases (truthy v)) [ inl t ↦ rw t h | inr f ↦ rw f ]

-- The equations of the two functions, for proofs that keep them shut.
merge_dict-field :
    (d u : Fields) (k : String) (v : Value)
    → merge_dict d (field k v u) ≡ (
        merge_key (λ old. merge_value old v) (get_field k d) v >>= λ w.
        merge_dict (set_field k w d) u)
unfolding merge_dict
merge_dict-field d u k v = refl

merge_value-dict :
    (d u : Fields) → merge_value (dict d) (dict u) ≡ (merge_dict d u >>= λ m. return (dict m))
unfolding merge_value merge_into
merge_value-dict d u = refl

merge_value-plain : (v : Value) → is_mapping v ≡ false → merge_value v v ≡ return v
unfolding merge_value
merge_value-plain (dict d) h = cc
merge_value-plain _ h = ground arith

merge_dict-step :
    (d u : Fields) (k : String) (v : Value)
    → merge_value v v ≡ return v
    → get_field k d ≡ some v
    → merge_dict d u ≡ return d
    → merge_dict d (field k v u) ≡ return d
merge_dict-step d u k v self there rest =
    rw merge_dict-field (
      rw (there, merge_key_self (λ old. merge_value old v) v self, set_field-same k v d there) rest)

mutual
  unfolding IsDocument AreDocuments merge_dict

  merge_value_self : (v : Value) → IsDocument v → merge_value v v ≡ return v
  merge_value_self (dict d) h = merge_value-dict d d ∙ rw (merge_dict-Sub d d (Sub-self d h.0) h.1)
  merge_value_self null h = merge_value-plain null refl
  merge_value_self (bool b) h = merge_value-plain (bool b) refl
  merge_value_self (int n) h = merge_value-plain (int n) refl
  merge_value_self (str s) h = merge_value-plain (str s) refl
  merge_value_self (list vs) h = merge_value-plain (list vs) refl
  merge_value_self (object c d) h = merge_value-plain (object c d) refl

  merge_dict-Sub : (u d : Fields) → Sub u d → AreDocuments u → merge_dict d u ≡ return d
  merge_dict-Sub end d s h = refl
  merge_dict-Sub (field k v u) d s h =
      merge_dict-step d u k v (merge_value_self v h.0) s.0 (merge_dict-Sub u d s.1 h.1)

-- Merging a document, with distinct keys at every depth, into itself raises nothing and changes
-- nothing.
merge_dict_self : (d : Fields) → IsDocument (dict d) → merge_dict d d ≡ return d
unfolding IsDocument
merge_dict_self d h = merge_dict-Sub d d (Sub-self d h.0) h.1
