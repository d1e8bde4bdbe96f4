-- ===== src/Pci/Nics.antt =====
-- sunbeam-python/sunbeam/provider/common/nic_utils.py: the list of the devices that nova may use and the
-- devices that the user excluded on each node. A function that changes them in place returns the new ones.
use snap_openstack.Prelude.{
  String, Bool, true, false, ◌||◌, Option, none, some, List, [], ◌∷◌, ◌++◌, elem, ◌==◌, string_eq,
  if◌then◌else◌, Outcome, return, raise, ◌>>=◌, value_error, erase_0x,
}
use snap_openstack.Value.{Value, Fields, end, field, get_field, null, str, dict}
use snap_openstack.Dict.{Dict, get, set}
use snap_openstack.Pci.{Device, pci_device_spec, device_match}

-- What the functions read of an entry of `list-nics`, or of a device: a device that is no network card
-- has no parent.
pub record Nic : Type 0 where
  pub pci_address : String
  pub vendor_id : String
  pub product_id : String
  pub pf_pci_address : Option String

-- `pci_allowedlist` and `excluded_devices`
pub record Lists : Type 0 where
  pub pci_allowedlist : List Value
  pub excluded_devices : Dict (List String)

unfoldable pub or_none : Option (List String) → List String
or_none none = []
or_none (some xs) = xs

-- `excluded_devices.get(node_name) or []`
unfoldable pub node_excluded : String → Dict (List String) → List String
unfolding or_none
node_excluded node excluded = or_none (get node excluded)

-- `xs.remove(x)`, where `x` is there: the first occurrence.
unfoldable pub remove_first : String → List String → List String
remove_first x [] = []
remove_first x (y ∷ ys) = if y == x then ys else y ∷ remove_first x ys

unfoldable pub device_of : Nic → Device
device_of nic = record {
  vendor_id = erase_0x nic.vendor_id;
  product_id = erase_0x nic.product_id;
  address = nic.pci_address;
  parent_addr = nic.pf_pci_address;
}

-- `spec_dict.get("physical_network")`
unfoldable pub physical_network : Fields → Value
physical_network spec = elim (get_field "physical_network" spec) [ none ↦ null | some v ↦ v ]

-- The value of the first spec that matches ends the loop.
unfoldable pub or_next : Outcome (Option Value) → Option Value → Outcome (Option Value)
or_next rest (some physnet) = return (some physnet)
or_next rest none = rest

unfoldable pub is_found : Option Value → Outcome Bool
is_found none = return false
is_found (some v) = return true

unfoldable pub new_pci_spec : Nic → Value
new_pci_spec device = dict (
    field "address" (str device.pci_address) (
      field "vendor_id" (str (erase_0x device.vendor_id))
        (field "product_id" (str (erase_0x device.product_id)) end)))

unfoldable pub new_sriov_spec : Nic → Value → Value
new_sriov_spec nic physnet = dict (
    field "address" (str nic.pci_address) (
      field "vendor_id" (str (erase_0x nic.vendor_id)) (
        field "product_id" (str (erase_0x nic.product_id)) (field "physical_network" physnet end))))

unfoldable pub new_managed_spec : Nic → Value
new_managed_spec nic = dict (
    field "address" (str nic.pci_address) (
      field "vendor_id" (str (erase_0x nic.vendor_id)) (
        field "product_id" (str (erase_0x nic.product_id))
          (field "physical_network" null (field "remote_managed" (str "true") end)))))

unfoldable pub add_spec : Value → Lists → Bool → Lists
add_spec spec lists true = lists
add_spec spec lists false = record lists { pci_allowedlist = lists.pci_allowedlist ++ (spec ∷ []) }

-- The address is taken off the excluded devices of its node.
unfoldable pub readmit : String → String → Lists → Lists
unfolding node_excluded remove_first
readmit node address lists =
    let here = node_excluded node lists.excluded_devices in
    if elem address here
    then record lists {
      excluded_devices = set node (remove_first address here) lists.excluded_devices;
    }
    else lists

unfoldable pub lower_none : (String → String) → Option String → Value
lower_none lower none = null
lower_none lower (some physnet) =
    if physnet == "" || elem (lower physnet) ("none" ∷ "null" ∷ "no-physnet" ∷ [])
    then null
    else str physnet

unfoldable pub add_unless : Value → Lists → Option Value → Lists
add_unless spec lists (some v) = lists
add_unless spec lists none = record lists { pci_allowedlist = lists.pci_allowedlist ++ (spec ∷ []) }

-- The lists after a call, and how it ended.
abbrev pub Admission : Type 0
Admission = Lists × Outcome (Unit {0})

unfoldable pub add_searched : Value → Lists → Outcome (Option Value) → Admission
unfolding add_unless
add_searched spec lists (return allowedlisted) = (add_unless spec lists allowedlisted, return tt)
add_searched spec lists (raise e) = (lists, raise e)

unfoldable pub add_once : String → List String → List String
add_once x xs = if elem x xs then xs else xs ++ (x ∷ [])

-- A node without an entry has no excluded devices, so one `set` makes the entry.
unfoldable pub exclude_sriov_nic : String → Nic → Lists → Lists
unfolding add_once node_excluded
exclude_sriov_nic node nic lists = record lists {
  excluded_devices =
      set node (add_once nic.pci_address (node_excluded node lists.excluded_devices))
        lists.excluded_devices;
}

module _ (compile : String → Option (String → Bool)) where
  -- One turn of the loop over the specs.
  unfoldable pub spec_match : Device → Value → Outcome (Option Value)
  unfolding physical_network
  spec_match dev (dict spec) = do
    pci_spec ← pci_device_spec compile spec
    matches ← device_match pci_spec dev
    return (if matches then some (physical_network spec) else none)
  spec_match dev _ = raise value_error

  unfoldable pub first_match : Device → List Value → Outcome (Option Value)
  unfolding spec_match or_next
  first_match dev [] = return none
  first_match dev (spec ∷ specs) =
      let rest = first_match dev specs in spec_match dev spec >>= or_next rest

  -- The pair of `is_sriov_nic_allowedlisted`: nothing for `(False, None)`, the network for `(True, _)`.
  unfoldable pub is_sriov_nic_allowedlisted : String → Nic → Lists → Outcome (Option Value)
  unfolding device_of first_match
  is_sriov_nic_allowedlisted node nic lists =
      if elem nic.pci_address (node_excluded node lists.excluded_devices)
      then return none
      else first_match (device_of nic) lists.pci_allowedlist

  -- A device that is no network card has no parent address.
  unfoldable pub is_pci_device_allowedlisted : String → Nic → Lists → Outcome Bool
  unfolding device_of first_match is_found
  is_pci_device_allowedlisted node device lists =
      if elem device.pci_address (node_excluded node lists.excluded_devices)
      then return false
      else first_match (record (device_of device) { parent_addr = none }) lists.pci_allowedlist
        >>= is_found

  unfoldable pub allowedlist_pci_passthrough_device : String → Nic → Lists → Outcome Lists
  unfolding is_pci_device_allowedlisted new_pci_spec add_spec
  allowedlist_pci_passthrough_device node device lists =
      if elem device.pci_address (node_excluded node lists.excluded_devices)
      then return lists
      else do
        allowedlisted ← is_pci_device_allowedlisted node device lists
        return (add_spec (new_pci_spec device) lists allowedlisted)

  -- The part that the two functions for virtual and physical functions share: the address stays taken off the excluded
  -- devices where the search raises.
  unfoldable pub admit : String → Nic → Value → Lists → Admission
  unfolding readmit is_sriov_nic_allowedlisted add_searched
  admit node nic spec lists =
      let readmitted = readmit node nic.pci_address lists in
      add_searched spec readmitted (is_sriov_nic_allowedlisted node nic readmitted)

  -- `lower` is the method of texts.
  unfoldable pub allowedlist_sriov_nic :
      (String → String) → String → Nic → Option String → Lists → Admission
  unfolding admit new_sriov_spec lower_none
  allowedlist_sriov_nic lower node nic physnet lists =
      admit node nic (new_sriov_spec nic (lower_none lower physnet)) lists

  unfoldable pub record_remote_managed_vf : String → Nic → Lists → Admission
  unfolding admit new_managed_spec
  record_remote_managed_vf node nic lists = admit node nic (new_managed_spec nic) lists
