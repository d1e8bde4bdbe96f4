-- ===== src/Pci/Samples.antt =====
-- Two network cards on two nodes.
use snap_openstack.Dict.{set, get}
use snap_openstack.Prelude.{
  value_error, String, Bool, ◌≡◌, refl, true, Option, none, some, [], ◌∷◌, return, raise, string_eq,
  other_error, inl, lstrip, rstrip, erase_0x, int_16, partition, split, format_hex,
}
use snap_openstack.Value.{Value, end, field, str, dict, null, get_field, truthy}
use snap_openstack.Pci.{pci_address, glob_spec, parse_hex, pci_device_spec, device_match}
use snap_openstack.Pci.Nics.{
  Nic, Lists, is_sriov_nic_allowedlisted, is_pci_device_allowedlisted, exclude_sriov_nic,
  allowedlist_sriov_nic, allowedlist_pci_passthrough_device, node_excluded,
}
use snap_openstack.Pci.Allowed.{IsNic}
use snap_openstack.Pci.Admitted.{allowedlist_sriov_nic-keeps, exclude_sriov_nic-allowedlisted}
use snap_openstack.Pci.Reached.{
  start, excluded, allowedlist_sriov_nic_reached, allowedlist_pci-allowed,
}

-- No pattern is well formed.
abbrev no_regex : String → Option (String → Bool)
no_regex p = none

abbrev same_case : String → String
same_case s = s

abbrev card : Nic
card = record {
  pci_address = "0000:1a:00.1";
  vendor_id = "0x15b3";
  product_id = "0x1015";
  pf_pci_address = some "";
}

abbrev function : Nic
function = record {
  pci_address = "0000:1a:00.2";
  vendor_id = "0x15b3";
  product_id = "0x1016";
  pf_pci_address = some "0000:1a:00.1";
}

abbrev empty : Lists
empty = record { pci_allowedlist = []; excluded_devices = [] }

abbrev without_card : Lists
without_card = record {
  pci_allowedlist = [];
  excluded_devices = ("node-1", "0000:1a:00.1" ∷ []) ∷ [];
}

abbrev with_card : Lists
with_card = record {
  pci_allowedlist =
      dict (
        field "address" (str "0000:1a:00.1") (
          field "vendor_id" (str "15b3")
            (field "product_id" (str "1015") (field "physical_network" (str "physnet1") end))))
      ∷ [];
  excluded_devices = ("node-1", []) ∷ [];
}

parse_hex_prefix : parse_hex 4 " 0x_1A " ≡ return "001a"
unfolding parse_hex lstrip rstrip int_16 format_hex
parse_hex_prefix = refl

parse_hex_minus : parse_hex 4 "-2" ≡ return "-002"
unfolding parse_hex lstrip rstrip int_16 format_hex
parse_hex_minus = refl

parse_hex_wrong : parse_hex 4 "1__a" ≡ raise other_error
unfolding parse_hex lstrip rstrip int_16
parse_hex_wrong = refl

-- A part that is left out stands for all.
glob_spec_short :
    glob_spec "1a:0" ≡ return (record { domain = "*"; bus = "1a"; slot = "00"; function = "*" })
unfolding glob_spec partition split lstrip rstrip int_16 format_hex
glob_spec_short = refl

glob_spec_long : glob_spec "0:0:0:0.1" ≡ raise other_error
unfolding glob_spec partition split
glob_spec_long = refl

pci_address_short : pci_address "1a:00.1" ≡ raise other_error
unfolding pci_address split
pci_address_short = refl

card_address :
    pci_address "0000:1a:00.1"
    ≡ return (record { domain = "0000"; bus = "1a"; slot = "00"; function = "1" })
unfolding pci_address split lstrip rstrip int_16 format_hex
card_address = refl

exclude_card : exclude_sriov_nic "node-1" card empty ≡ without_card
unfolding exclude_sriov_nic set get
exclude_card = refl

-- The card is taken back from the excluded devices and gets a spec of its own.
allow_card :
    allowedlist_sriov_nic no_regex same_case "node-1" card (some "physnet1") without_card
    ≡ (with_card, return tt)
unfolding allowedlist_sriov_nic get set erase_0x
allow_card = refl

card-IsNic : IsNic card
unfolding parse_hex lstrip rstrip erase_0x int_16 format_hex
card-IsNic = (
  (record { domain = "0000"; bus = "1a"; slot = "00"; function = "1" }, card_address),
  inl refl,
  (refl, refl),
  (refl, refl),
)

-- Where the search raises, the address stays taken off the excluded devices.
raised_after_removal :
    allowedlist_sriov_nic no_regex same_case "node-1" card none
      (record without_card { pci_allowedlist = null ∷ [] })
    ≡ (
      record { pci_allowedlist = null ∷ []; excluded_devices = ("node-1", []) ∷ [] },
      raise value_error,
    )
unfolding allowedlist_sriov_nic get set
raised_after_removal = refl

allowedlist_sriov_nic_reached_example :
    (v : Value) × (is_sriov_nic_allowedlisted no_regex "node-1" card with_card ≡ return (some v))
unfolding exclude_sriov_nic allowedlist_sriov_nic set get
allowedlist_sriov_nic_reached_example =
    allowedlist_sriov_nic_reached no_regex same_case "node-1" card (some "physnet1")
      (exclude_sriov_nic "node-1" card empty) (excluded "node-1" card empty (start [])) card-IsNic
      allow_card

abbrev with_function : Lists
with_function = record {
  pci_allowedlist =
      dict (
        field "address" (str "0000:1a:00.1") (
          field "vendor_id" (str "15b3")
            (field "product_id" (str "1015") (field "physical_network" (str "physnet1") end))))
      ∷ dict (
          field "address" (str "0000:1a:00.2") (
            field "vendor_id" (str "15b3")
              (field "product_id" (str "1016") (field "physical_network" null end))))
      ∷ [];
  excluded_devices = ("node-1", []) ∷ [];
}

allow_second :
    allowedlist_sriov_nic no_regex same_case "node-1" function (some "none") with_card
    ≡ (with_function, return tt)
unfolding allowedlist_sriov_nic get pci_device_spec get_field truthy lstrip rstrip int_16 partition
    split device_match format_hex erase_0x
allow_second = refl

allowedlist_sriov_nic-keeps_example :
    is_sriov_nic_allowedlisted no_regex "node-1" card with_function ≡ return (some (str "physnet1"))
unfolding node_excluded get is_sriov_nic_allowedlisted pci_device_spec get_field truthy lstrip
    rstrip int_16 partition split device_match format_hex erase_0x
allowedlist_sriov_nic-keeps_example =
    allowedlist_sriov_nic-keeps no_regex same_case "node-1" "node-1" function card (some "none")
      with_card (str "physnet1") allow_second refl

exclude_sriov_nic-allowedlisted_example :
    is_sriov_nic_allowedlisted no_regex "node-1" card (exclude_sriov_nic "node-1" card with_card)
    ≡ return none
exclude_sriov_nic-allowedlisted_example =
    exclude_sriov_nic-allowedlisted no_regex "node-1" "node-1" card card with_card

abbrev passed_card : Lists
passed_card = record {
  pci_allowedlist =
      dict (
        field "address" (str "0000:1a:00.1")
          (field "vendor_id" (str "15b3") (field "product_id" (str "1015") end)))
      ∷ [];
  excluded_devices = [];
}

pass_card : allowedlist_pci_passthrough_device no_regex "node-1" card empty ≡ return passed_card
unfolding allowedlist_pci_passthrough_device node_excluded get erase_0x
pass_card = refl

allowedlist_pci-allowed_example :
    is_pci_device_allowedlisted no_regex "node-1" card passed_card ≡ return true
unfolding parse_hex lstrip rstrip erase_0x int_16 format_hex node_excluded get
allowedlist_pci-allowed_example =
    allowedlist_pci-allowed no_regex "node-1" card empty
      (
        (record { domain = "0000"; bus = "1a"; slot = "00"; function = "1" }, card_address),
        tt,
        (refl, refl),
        (refl, refl),
      )
      pass_card
