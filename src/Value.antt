-- ===== src/Value.antt =====
-- Values of YAML and JSON documents and of Python dictionaries, as the configuration code of
-- sunbeam-python/sunbeam passes them round. A dictionary is an association list in the order of
-- insertion; it is a type of its own beside the values, `Fields`. An `object` is an instance of a
-- class (a pydantic model): always true, and no mapping. Floating-point numbers are left out.
pub mod Laws
use snap_openstack.Prelude.{
  ℕ, zero, String, ◌≡◌, Bool, true, false, not, ◌||◌, Option, none, some, ◌==◌, string_eq,
  if◌then◌else◌,
}

-- `negsuc n` is -(n + 1).
pub data ℤ : Type 0 where
  pos : ℕ → ℤ
  negsuc : ℕ → ℤ

mutual
  pub data Value : Type 0 where
    null : Value
    bool : Bool → Value
    int : ℤ → Value
    str : String → Value
    list : Items → Value
    dict : Fields → Value
    object : String → Fields → Value

  pub data Items : Type 0 where
    nil : Items
    cons : Value → Items → Items

  pub data Fields : Type 0 where
    end : Fields
    field : String → Value → Fields → Fields

-- `d.get(k)`
unfoldable pub get_field : String → Fields → Option Value
get_field k end = none
get_field k (field j v d) = if j == k then some v else get_field k d

-- `d[k] = v`
unfoldable pub set_field : String → Value → Fields → Fields
set_field k v end = field k v end
set_field k v (field j w d) = if j == k then field j v d else field j w (set_field k v d)

-- `k in d`
abbrev pub has_field : String → Fields → Bool
has_field k end = false
has_field k (field j v d) = j == k || has_field k d

-- `d.update(u)`
unfoldable pub update_fields : Fields → Fields → Fields
update_fields d end = d
update_fields d (field k v u) = update_fields (set_field k v d) u

-- Python's truth value.
unfoldable pub truthy : Value → Bool
truthy null = false
truthy (bool b) = b
truthy (int (pos zero)) = false
truthy (int _) = true
truthy (str s) = not (s == "")
truthy (list nil) = false
truthy (list (cons v vs)) = true
truthy (dict end) = false
truthy (dict (field k v d)) = true
truthy (object c d) = true

-- The keys of a dictionary that Python built are distinct.
abbrev pub IsDict : Fields → Type 0
IsDict end = Unit
IsDict (field k v d) = (has_field k d ≡ false) × IsDict d
