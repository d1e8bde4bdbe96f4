-- ===== src/Pci.antt =====
-- sunbeam-python/sunbeam/devspec.py: the specifications of PCI devices and what they match. What the
-- module `re` does is a parameter: `compile` gives the test that a pattern makes of the beginning of a
-- text, or nothing for a pattern that is not well formed.
pub mod Nics
mod Addresses
mod Allowed
mod Excluded
mod Admitted
mod Reached
mod Samples
use snap_openstack.Prelude.{
  ℕ, String, Bool, true, false, ◌&&◌, ◌||◌, Option, none, some, List, [], ◌∷◌, ◌==◌, string_eq,
  if◌then◌else◌, Outcome, return, raise, ◌>>=◌, other_error, type_error, attribute_error, strip,
  split, partition, int_16, format_hex, Signed,
}
use snap_openstack.Value.{Value, Fields, get_field, truthy, str, dict}

abbrev pub any : String
any = "*"

abbrev formatted : ℕ → Option Signed → Outcome String
formatted width none = raise other_error
formatted width (some n) = return (format_hex width n)

abbrev or_any : String → String
or_any s = if s == "" then any else s

abbrev parse_stripped : ℕ → String → Outcome String
parse_stripped width s = if s == any then return s else formatted width (int_16 s)

-- The format is given by its width: `%04x`, `%02x`, `%01x`.
unfoldable pub parse_hex : ℕ → String → Outcome String
parse_hex width value = parse_stripped width (or_any (strip value))

pub record PciAddress : Type 0 where
  pub domain : String
  pub bus : String
  pub slot : String
  pub function : String

unfoldable parse_fields : String → String → String → String → Outcome PciAddress
unfolding parse_hex
parse_fields domain bus slot function = do
  d ← parse_hex 4 domain
  b ← parse_hex 2 bus
  s ← parse_hex 2 slot
  f ← parse_hex 1 function
  return (record { domain = d; bus = b; slot = s; function = f })

unfoldable split_address : String → List String → Outcome PciAddress
unfolding parse_fields
split_address function (domain ∷ bus ∷ slot ∷ []) = parse_fields domain bus slot function
split_address function _ = raise other_error

unfoldable split_function : List String → Outcome PciAddress
unfolding split_address
split_function (domain_bus_slot ∷ function ∷ []) =
    split_address function (split b':' domain_bus_slot)
split_function _ = raise other_error

-- `PciAddress(address)`
unfoldable pub pci_address : String → Outcome PciAddress
unfolding split_function
pci_address address = split_function (split b'.' address)

-- A part of a glob spec: the domain, the bus and the slot.
unfoldable glob_parts : List String → Outcome (String × String × String)
glob_parts [] = return (any, any, any)
glob_parts (slot ∷ []) = return (any, any, slot)
glob_parts (bus ∷ slot ∷ []) = return (any, bus, slot)
glob_parts (domain ∷ bus ∷ slot ∷ []) = return (domain, bus, slot)
glob_parts _ = raise other_error

-- The part before the first dot; the test says whether it is empty.
unfoldable glob_address : Bool → String → Outcome PciAddress
unfolding glob_parts parse_hex
glob_address true domain_bus_slot =
    return (record { domain = any; bus = any; slot = any; function = any })
glob_address false domain_bus_slot = do
  parts ← glob_parts (split b':' domain_bus_slot)
  d ← parse_hex 4 parts.0
  b ← parse_hex 2 parts.1
  s ← parse_hex 2 parts.2
  return (record { domain = d; bus = b; slot = s; function = any })

-- The part behind the first dot; the test says whether it is empty.
unfoldable glob_function : Bool → String → PciAddress → Outcome PciAddress
unfolding parse_hex
glob_function true function spec = return spec
glob_function false function spec = do
  f ← parse_hex 1 function
  return (record spec { function = f })

-- `PciAddressGlobSpec(address)`
unfoldable pub glob_spec : String → Outcome PciAddress
unfolding glob_address glob_function
glob_spec address =
    let parts = partition b'.' address in
    glob_address (parts.0 == "") parts.0 >>= glob_function (parts.1 == "") parts.1

-- `PciAddressGlobSpec.match`
unfoldable pub glob_match : PciAddress → PciAddress → Bool
glob_match spec address =
    (spec.domain == any || spec.domain == address.domain)
    && (spec.bus == any || spec.bus == address.bus)
    && (spec.slot == any || spec.slot == address.slot)
    && (spec.function == any || spec.function == address.function)

pub record PciAddressRegexSpec : Type 0 where
  pub domain_re : String → Bool
  pub bus_re : String → Bool
  pub slot_re : String → Bool
  pub function_re : String → Bool

-- `PciAddressRegexSpec.match`
unfoldable pub regex_match : PciAddressRegexSpec → PciAddress → Bool
regex_match spec address =
    spec.domain_re address.domain
    && spec.bus_re address.bus
    && spec.slot_re address.slot
    && spec.function_re address.function

pub data AddressSpec : Type 0 where
  glob : PciAddress → AddressSpec
  regex : PciAddressRegexSpec → AddressSpec

unfoldable pub address_spec_match : AddressSpec → PciAddress → Bool
unfolding glob_match regex_match
address_spec_match (glob spec) address = glob_match spec address
address_spec_match (regex spec) address = regex_match spec address

pub record PciDeviceSpec : Type 0 where
  pub vendor_id : String
  pub product_id : String
  pub address_spec : AddressSpec

-- What `PciDeviceSpec.match` reads of a device.
pub record Device : Type 0 where
  pub vendor_id : String
  pub product_id : String
  pub address : String
  pub parent_addr : Option String

-- `dev_spec.get(key) or default`, where an absent key is `None`.
unfoldable pub text_or : String → String → Fields → Value
text_or default key spec = elim (get_field key spec) [
  | none ↦ str default
  | some v ↦ if truthy v then v else str default
]

-- Only a text has `strip`.
unfoldable pub parse_id : Value → Outcome String
unfolding parse_hex
parse_id (str s) = parse_hex 4 s
parse_id _ = raise attribute_error

module _ (compile : String → Option (String → Bool)) where
  unfoldable compile_text : Option (String → Bool) → Outcome (String → Bool)
  compile_text none = raise other_error
  compile_text (some p) = return p

  -- `re.compile(address.get(key, ".*"))`
  unfoldable compile_value : Option Value → Outcome (String → Bool)
  unfolding compile_text
  compile_value none = compile_text (compile ".*")
  compile_value (some (str pattern)) = compile_text (compile pattern)
  compile_value (some _) = raise type_error

  -- `PciAddressRegexSpec(address)`
  unfoldable pub regex_spec : Fields → Outcome PciAddressRegexSpec
  unfolding compile_value
  regex_spec address = do
    d ← compile_value (get_field "domain" address)
    b ← compile_value (get_field "bus" address)
    s ← compile_value (get_field "slot" address)
    f ← compile_value (get_field "function" address)
    return (record { domain_re = d; bus_re = b; slot_re = s; function_re = f })

  unfoldable pub address_spec : Value → Outcome AddressSpec
  unfolding glob_spec regex_spec
  address_spec (str address) = do spec ← glob_spec address; return (glob spec)
  address_spec (dict address) = do spec ← regex_spec address; return (regex spec)
  address_spec _ = raise other_error

  -- `PciDeviceSpec(dev_spec)`
  unfoldable pub pci_device_spec : Fields → Outcome PciDeviceSpec
  unfolding text_or parse_id address_spec
  pci_device_spec dev_spec = do
    vendor ← parse_id (text_or any "vendor_id" dev_spec)
    product ← parse_id (text_or any "product_id" dev_spec)
    address ← address_spec (text_or "*:*:*.*" "address" dev_spec)
    return (record { vendor_id = vendor; product_id = product; address_spec = address })

unfoldable own_match : AddressSpec → String → Bool → Outcome Bool
unfolding pci_address address_spec_match
own_match spec address true = return true
own_match spec address false = do a ← pci_address address; return (address_spec_match spec a)

unfoldable named_parent_match : Bool → AddressSpec → String → Outcome Bool
unfolding pci_address address_spec_match
named_parent_match true spec parent = return false
named_parent_match false spec parent = do a ← pci_address parent; return (address_spec_match spec a)

unfoldable parent_match : AddressSpec → Option String → Outcome Bool
unfolding named_parent_match
parent_match spec none = return false
parent_match spec (some parent) = named_parent_match (parent == "") spec parent

-- `PciDeviceSpec._address_match`
unfoldable pub address_match : AddressSpec → String → Option String → Outcome Bool
unfolding own_match parent_match
address_match spec address parent = parent_match spec parent >>= own_match spec address

-- `PciDeviceSpec.match`: all three tests are made before the first one decides.
unfoldable pub device_match : PciDeviceSpec → Device → Outcome Bool
unfolding address_match
device_match spec dev = do
  matches ← address_match spec.address_spec dev.address dev.parent_addr
  return (
      (spec.vendor_id == any || spec.vendor_id == dev.vendor_id)
      && (spec.product_id == any || spec.product_id == dev.product_id)
      && matches)
