-- ===== src/Pci/Allowed.antt =====
-- A device that was put on the list is found there, and nothing takes it off again.
use snap_openstack.Prelude.{
  String, ◌≡◌, refl, ap, Bool, true, false, Option, none, some, List, [], ◌∷◌, ◌++◌, arith, ◌==◌,
  string_eq, Bool-cases, inl, inr, ◌⊎◌, eq_iff, return, >>=-eq-return, erase_0x, split,
}
use snap_openstack.Value.Laws.{truthy-str}
use snap_openstack.Value.{Value, Fields, get_field, str, dict}
use snap_openstack.Pci.{
  PciAddress, pci_address, glob_spec, parse_hex, parse_id, any, pci_device_spec, device_match,
  Device, PciDeviceSpec, AddressSpec, glob, address_match, address_spec_match, parent_match,
  own_match, named_parent_match, text_or, address_spec, split_function, Outcome,
}
use snap_openstack.Pci.Nics.{
  Nic, first_match, or_next, spec_match, device_of, physical_network, add_unless, Lists,
}
use snap_openstack.Pci.Addresses.{glob_spec-pci_address}

-- An identifier of four lower-case digits, or the one that stands for all.
abbrev IsId : String → Type 0
IsId id = (parse_hex 4 id ≡ return id) × (id == "" ≡ false)

-- The parent of a device has an address, or there is none.
abbrev IsParent : Option String → Type 0
IsParent none = Unit
IsParent (some p) = (p == "" ≡ true) ⊎ ((a : PciAddress) × (pci_address p ≡ return a))

-- A card as the system reports it.
abbrev pub IsNic : Nic → Type 0
IsNic nic =
    ((a : PciAddress) × (pci_address nic.pci_address ≡ return a))
    × IsParent nic.pf_pci_address
    × IsId (erase_0x nic.vendor_id)
    × IsId (erase_0x nic.product_id)

parent_match-IsParent :
    (spec : AddressSpec) (parent : Option String)
    → IsParent parent
    → (b : Bool) × (parent_match spec parent ≡ return b)
unfolding parent_match named_parent_match
parent_match-IsParent spec none h = (false, refl)
parent_match-IsParent spec (some p) (inl empty) = (false, rw empty refl)
parent_match-IsParent spec (some p) (inr (a, h)) = elim (Bool-cases (p == "")) [
  | inl empty ↦ (false, rw empty refl)
  | inr full ↦ (address_spec_match spec a, rw (full, h) refl)
]

own_match-matches :
    (spec : AddressSpec) (address : String) (a : PciAddress) (b : Bool)
    → pci_address address ≡ return a
    → address_spec_match spec a ≡ true
    → own_match spec address b ≡ return true
unfolding own_match
own_match-matches spec address a true h m = refl
own_match-matches spec address a false h m = rw (h, m) refl

address_match-matches :
    (spec : AddressSpec) (address : String) (parent : Option String) (a : PciAddress)
    → pci_address address ≡ return a
    → address_spec_match spec a ≡ true
    → IsParent parent
    → address_match spec address parent ≡ return true
unfolding address_match
address_match-matches spec address parent a h m p =
    let (b, e) = parent_match-IsParent spec parent p in
    rw e (own_match-matches spec address a b h m)

pci_address-ne-empty : (s : String) {a : PciAddress} → pci_address s ≡ return a → s == "" ≡ false
unfolding pci_address split_function split
pci_address-ne-empty s h = elim (Bool-cases (s == "")) [
  | inl empty ↦ cc (rw ((eq_iff s "").0 empty) at h)
  | inr full ↦ full
]

-- The fields that each of the new specs has.
abbrev pub Names : Nic → Fields → Type 0
Names nic spec =
    (get_field "address" spec ≡ some (str nic.pci_address))
    × (get_field "vendor_id" spec ≡ some (str (erase_0x nic.vendor_id)))
    × (get_field "product_id" spec ≡ some (str (erase_0x nic.product_id)))

text_or-str :
    (default key s : String) (spec : Fields)
    → get_field key spec ≡ some (str s)
    → s == "" ≡ false
    → text_or default key spec ≡ str s
unfolding text_or
text_or-str default key s spec h full = rw (text_or, h, truthy-str s full) refl

device_match-true :
    (spec : PciDeviceSpec) (dev : Device)
    → spec.vendor_id ≡ dev.vendor_id
    → spec.product_id ≡ dev.product_id
    → address_match spec.address_spec dev.address dev.parent_addr ≡ return true
    → device_match spec dev ≡ return true
unfolding device_match
device_match-true spec dev v p m = rw m (
    ap return (
      ground
        (arith, eq_iff spec.vendor_id dev.vendor_id, eq_iff spec.product_id dev.product_id, v, p)))

or_next-implies :
    {r q : Outcome (Option Value)} (v o : Option Value)
    → (r ≡ return v → q ≡ return v)
    → or_next r o ≡ return v
    → or_next q o ≡ return v
unfolding or_next
or_next-implies v none f k = f k
or_next-implies v (some w) f k = k

or_next-becomes :
    {r q : Outcome (Option Value)} (v : Value) (o : Option Value)
    → (r ≡ return none → q ≡ return (some v))
    → or_next r o ≡ return none
    → or_next q o ≡ return (some v)
unfolding or_next
or_next-becomes v none f k = f k
or_next-becomes v (some w) f k = cc

module _ (compile : String → Option (String → Bool)) where
  Names-pci_device_spec :
      (nic : Nic) (spec : Fields) (g : PciAddress)
      → IsId (erase_0x nic.vendor_id)
      → IsId (erase_0x nic.product_id)
      → nic.pci_address == "" ≡ false
      → glob_spec nic.pci_address ≡ return g
      → Names nic spec
      → pci_device_spec compile spec
        ≡ return (record {
          vendor_id = erase_0x nic.vendor_id;
          product_id = erase_0x nic.product_id;
          address_spec = glob g;
        })
  unfolding pci_device_spec parse_id address_spec
  Names-pci_device_spec nic spec g v p full hg names =
      rw
        (
          text_or-str any "vendor_id" (erase_0x nic.vendor_id) spec names.1 v.1,
          text_or-str any "product_id" (erase_0x nic.product_id) spec names.2 p.1,
          text_or-str "*:*:*.*" "address" nic.pci_address spec names.0 full,
          v.0,
          p.0,
          hg,
        )
        refl

  Names-spec_match :
      (nic : Nic) (spec : Fields)
      → IsNic nic
      → Names nic spec
      → spec_match compile (device_of nic) (dict spec) ≡ return (some (physical_network spec))
  unfolding spec_match device_of address_spec_match
  Names-spec_match nic spec h names =
      let (a, ha) = h.0 in
      let (g, hg, hm) = glob_spec-pci_address nic.pci_address a ha in
      let full = pci_address-ne-empty nic.pci_address ha in
      let d = Names-pci_device_spec nic spec g h.2 h.3 full hg names in
      let m = address_match-matches (glob g) nic.pci_address nic.pf_pci_address a ha hm h.1 in
      rw (d, device_match-true _ (device_of nic) refl refl m) refl

  -- A spec that is found first is found first in a longer list, and a new one is found where none was.
  pub first_match-append_some :
      (dev : Device) (xs ys : List Value) (v : Value)
      → first_match compile dev xs ≡ return (some v)
      → first_match compile dev (xs ++ ys) ≡ return (some v)
  unfolding first_match or_next
  first_match-append_some dev [] ys v h = cc
  first_match-append_some dev (x ∷ xs) ys v h =
      let (o, e, k) = >>=-eq-return (spec_match compile dev x) _ h in
      rw e (or_next-implies (some v) o (first_match-append_some dev xs ys v) k)

  first_match-append_none :
      (dev : Device) (xs : List Value) (y : Value) (v : Value)
      → first_match compile dev xs ≡ return none
      → spec_match compile dev y ≡ return (some v)
      → first_match compile dev (xs ++ (y ∷ [])) ≡ return (some v)
  unfolding first_match or_next
  first_match-append_none dev [] y v h m = rw m refl
  first_match-append_none dev (x ∷ xs) y v h m =
      let (o, e, k) = >>=-eq-return (spec_match compile dev x) _ h in
      rw e (or_next-becomes v o (λ g. first_match-append_none dev xs y v g m) k)

  pub Names-add_unless :
      (nic : Nic) (spec : Fields) (lists : Lists) (o : Option Value)
      → IsNic nic
      → Names nic spec
      → first_match compile (device_of nic) lists.pci_allowedlist ≡ return o
      → (v : Value) × (first_match compile
            (device_of nic)
            (add_unless (dict spec) lists o).pci_allowedlist
          ≡ return (some v))
  unfolding add_unless
  Names-add_unless nic spec lists none h names e = (
    physical_network spec,
    first_match-append_none (device_of nic) lists.pci_allowedlist (dict spec) _ e
        (Names-spec_match nic spec h names),
  )
  Names-add_unless nic spec lists (some v) h names e = (v, e)
