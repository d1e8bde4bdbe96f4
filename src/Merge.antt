-- ===== src/Merge.antt =====
-- sunbeam-python/sunbeam/utils.py: `merge_dict`, which overlays a nested dictionary with another. The
-- call `d.get` of the code raises AttributeError where `d` is no mapping.
pub mod Lookup
pub mod Idempotence
mod Overlay
mod Samples
use snap_openstack.Prelude.{
  Option, none, some, Outcome, return, raise, attribute_error, ◌>>=◌, if◌then◌else◌,
}
use snap_openstack.Value.{Value, dict, Fields, end, field, get_field, set_field, truthy}

-- An entry that is missing or false is set. Only one that is there and true is merged with the value.
unfoldable pub merge_key : (merge : Value → Outcome Value) → Option Value → Value → Outcome Value
merge_key merge none v = return v
merge_key merge (some old) v = if truthy old then merge old else return v

-- `merge_dict(old, u)` for an old value that may be no mapping: with no entry in `u` the loop does not
-- look at it.
unfoldable pub merge_into : (merge : Fields → Outcome Fields) → (u : Fields) → Value → Outcome Value
merge_into merge u (dict d) = merge d >>= λ m. return (dict m)
merge_into merge end old = return old
merge_into merge (field k v u) old = raise attribute_error

unfoldable mutual
  -- Mappings are merged, and any other value takes the place of a true one only if it is true.
  pub merge_value : Value → Value → Outcome Value
  merge_value old (dict u) = merge_into (λ d. merge_dict d u) u old
  merge_value old v = return (if truthy v then v else old)

  -- The new first dictionary: the code updates it in place and returns it.
  pub merge_dict : Fields → Fields → Outcome Fields
  merge_dict d end = return d
  merge_dict d (field k v u) =
      merge_key (λ old. merge_value old v) (get_field k d) v >>= λ w. merge_dict (set_field k w d) u
