-- ===== src/Value/Laws.antt =====
-- Reading back what was written into a dictionary.
use snap_openstack.Prelude.{
  String, ◌≡◌, refl, ◌||◌, some, arith, eq_iff, ◌==◌, string_eq, if◌then◌else◌, false, none,
  Bool-cases, inl, inr, or_else, true, ◌∙◌,
}
use snap_openstack.Value.{
  Value, Fields, end, field, get_field, str, set_field, has_field, update_fields, IsDict, truthy,
  dict,
}

pub get_field-set_field :
    (k j : String) (v : Value) (d : Fields)
    → get_field j (set_field k v d) ≡ (if k == j then some v else get_field j d)
unfolding get_field set_field
get_field-set_field k j v end = refl
get_field-set_field k j v (field i w d) =
    ground (arith, eq_iff k j, eq_iff i k, eq_iff i j, get_field-set_field k j v d)

pub has_field-set_field :
    (k j : String) (v : Value) (d : Fields)
    → has_field j (set_field k v d) ≡ (k == j || has_field j d)
unfolding set_field
has_field-set_field k j v end = refl
has_field-set_field k j v (field i w d) =
    ground (arith, eq_iff k j, eq_iff i k, eq_iff i j, has_field-set_field k j v d)

pub set_field-IsDict : (k : String) (v : Value) (d : Fields) → IsDict d → IsDict (set_field k v d)
unfolding set_field
set_field-IsDict k v end h = (refl, tt)
set_field-IsDict k v (field i w d) h = elim (Bool-cases (i == k)) [
  | inl same ↦ rw same h
  | inr other ↦ rw other (fresh other, set_field-IsDict k v d h.1)
]
  where
    fresh : i == k ≡ false → has_field i (set_field k v d) ≡ false
    fresh other = ground (arith, eq_iff k i, eq_iff i k, h.0, has_field-set_field k i v d)

pub get_field-none : (k : String) (d : Fields) → has_field k d ≡ false → get_field k d ≡ none
unfolding get_field
get_field-none k end h = refl
get_field-none k (field j v d) h = ground (arith, get_field-none k d)

-- `update` with the entries of a dictionary: they win, and the other keys keep their values.
pub get_field-update_fields :
    (j : String) (d u : Fields)
    → IsDict u
    → get_field j (update_fields d u) ≡ (if has_field j u then get_field j u else get_field j d)
unfolding get_field update_fields
get_field-update_fields j d end h = refl
get_field-update_fields j d (field k v u) h = ground (
  arith,
  get_field-update_fields j (set_field k v d) u h.1,
  get_field-set_field k j v d,
  eq_iff k j,
  get_field-none j u,
)

pub has_field→get_field :
    (k : String) (d : Fields) → has_field k d ≡ true → (v : Value) × (get_field k d ≡ some v)
unfolding get_field
has_field→get_field k end h = cc
has_field→get_field k (field j v d) h = elim (Bool-cases (j == k)) [
  | inl same ↦ (v, rw same)
  | inr other ↦ rw other (has_field→get_field k d (rw other at h))
]

-- The same law with the values in the order in which they win.
pub update_fields-or_else :
    (j : String) (d u : Fields)
    → IsDict u
    → get_field j (update_fields d u) ≡ or_else (get_field j u) (get_field j d)
update_fields-or_else j d u h = elim (Bool-cases (has_field j u)) [
  | inl there ↦
      let (v, e) = has_field→get_field j u there in get_field-update_fields j d u h ∙ rw (there, e)
  | inr absent ↦ get_field-update_fields j d u h ∙ rw (absent, get_field-none j u absent)
]

pub update_fields-IsDict : (d u : Fields) → IsDict d → IsDict (update_fields d u)
unfolding update_fields
update_fields-IsDict d end h = h
update_fields-IsDict d (field k v u) h =
    update_fields-IsDict (set_field k v d) u (set_field-IsDict k v d h)

pub truthy-set_field :
    (k : String) (v : Value) (d : Fields) → truthy (dict (set_field k v d)) ≡ true
unfolding set_field truthy
truthy-set_field k v end = refl
truthy-set_field k v (field j w d) = ground arith

pub truthy-update_fields :
    (d u : Fields) → truthy (dict d) ≡ true → truthy (dict (update_fields d u)) ≡ true
unfolding update_fields
truthy-update_fields d end h = h
truthy-update_fields d (field k v u) h =
    truthy-update_fields (set_field k v d) u (truthy-set_field k v d)

pub truthy-str : (s : String) → s == "" ≡ false → truthy (str s) ≡ true
unfolding truthy
truthy-str s full = rw full refl
