-- ===== src/Pci/Reached.antt =====
-- The lists that the functions of nic_utils.py make of a list of specs and no excluded devices.
use snap_openstack.Prelude.{
  Bool-cases, inl, inr, true, String, ◌≡◌, refl, ap, sym, subst, Bool, true, false, Option, List,
  [], elem, NoRepeat, ◌==◌, string_eq, Bool-cases, inl, inr, return, >>=-eq-return, ◌∙◌, none,
  ◌>>=◌, not, some,
}
use snap_openstack.Value.{Value, get_field}
use snap_openstack.Dict.{set, get}
use snap_openstack.Pci.Nics.{
  Nic, Lists, node_excluded, readmit, admit, add_spec, is_pci_device_allowedlisted,
  exclude_sriov_nic, allowedlist_sriov_nic, record_remote_managed_vf,
  allowedlist_pci_passthrough_device, new_pci_spec, first_match, or_none, device_of, is_found,
  is_sriov_nic_allowedlisted, add_unless,
}
use snap_openstack.Pci.Allowed.{IsNic, Names-add_unless}
use snap_openstack.Pci.Excluded.{
  remove_first-NoRepeat, node_excluded-set, remove_first-NoRepeat, add_once-NoRepeat,
}
use snap_openstack.Pci.Admitted.{excluded_devices-admit, allowedlist_sriov_nic-allowed}

-- The excluded devices of each node are without repetition.
abbrev IsExact : Lists → Type 0
IsExact lists = (node : String) → NoRepeat (node_excluded node lists.excluded_devices)

set-IsExact :
    (node other : String) (xs : List String) (lists : Lists)
    → IsExact lists
    → NoRepeat xs
    → NoRepeat (node_excluded other (set node xs lists.excluded_devices))
set-IsExact node other xs lists h k =
    rw (node_excluded-set node other xs lists.excluded_devices)
      (elim (Bool-cases (node == other)) [ inl same ↦ rw same k | inr apart ↦ rw apart (h other) ])

exclude_sriov_nic-IsExact :
    (node : String) (nic : Nic) (lists : Lists)
    → IsExact lists
    → IsExact (exclude_sriov_nic node nic lists)
unfolding exclude_sriov_nic
exclude_sriov_nic-IsExact node nic lists h other =
    set-IsExact node other _ lists h
      (add_once-NoRepeat nic.pci_address (node_excluded node lists.excluded_devices) (h node))

readmit-IsExact :
    (node address : String) (lists : Lists) → IsExact lists → IsExact (readmit node address lists)
unfolding readmit
readmit-IsExact node address lists h other =
    elim (Bool-cases (elem address (node_excluded node lists.excluded_devices))) [
      | inl there ↦ rw there (
          set-IsExact node other _ lists h
            (remove_first-NoRepeat address (node_excluded node lists.excluded_devices) (h node)))
      | inr gone ↦ rw gone (h other)
    ]

admit-IsExact :
    (compile : String → Option (String → Bool)) (node : String) (nic : Nic) (spec : Value)
    (lists : Lists)
    → IsExact lists
    → IsExact (admit compile node nic spec lists).0
admit-IsExact compile node nic spec lists h other =
    subst (λ d. NoRepeat (node_excluded other d))
      (sym (excluded_devices-admit compile node nic spec lists))
      (readmit-IsExact node nic.pci_address lists h other)

excluded_devices-add_spec :
    (spec : Value) (lists : Lists) (b : Bool)
    → (add_spec spec lists b).excluded_devices ≡ lists.excluded_devices
unfolding add_spec
excluded_devices-add_spec spec lists true = refl
excluded_devices-add_spec spec lists false = refl

allowedlist_pci-excluded :
    (compile : String → Option (String → Bool)) (node : String) (device : Nic) (lists : Lists)
    {after : Lists}
    → allowedlist_pci_passthrough_device compile node device lists ≡ return after
    → after.excluded_devices ≡ lists.excluded_devices
unfolding allowedlist_pci_passthrough_device
allowedlist_pci-excluded compile node device lists {after} e =
    elim (Bool-cases (elem device.pci_address (node_excluded node lists.excluded_devices))) [
      | inl there ↦ let f : return lists ≡ return after = rw there at e in cc f
      | inr gone ↦
          let (b, f, g) =
            >>=-eq-return
              (first_match compile (record (device_of device) { parent_addr = none })
                  lists.pci_allowedlist
                >>= is_found)
              _ (rw gone at e) in
          let k : after ≡ add_spec (new_pci_spec device) lists b = cc g in
          ap (λ l. l.excluded_devices) k ∙ excluded_devices-add_spec (new_pci_spec device) lists b
    ]

-- The lists that a sequence of calls makes, whether or not they return.
pub data Reached (compile : String → Option (String → Bool)) (lower : String → String)
    : Lists → Type 0 where
  start :
      (specs : List Value)
      → Reached compile lower (record { pci_allowedlist = specs; excluded_devices = [] })
  excluded :
      (node : String) (nic : Nic) (lists : Lists)
      → Reached compile lower lists
      → Reached compile lower (exclude_sriov_nic node nic lists)
  allowed :
      (node : String) (nic : Nic) (physnet : Option String) (lists : Lists)
      → Reached compile lower lists
      → Reached compile lower (allowedlist_sriov_nic compile lower node nic physnet lists).0
  recorded :
      (node : String) (nic : Nic) (lists : Lists)
      → Reached compile lower lists
      → Reached compile lower (record_remote_managed_vf compile node nic lists).0
  passed :
      (node : String) (device : Nic) (lists after : Lists)
      → Reached compile lower lists
      → allowedlist_pci_passthrough_device compile node device lists ≡ return after
      → Reached compile lower after

Reached-IsExact :
    (compile : String → Option (String → Bool)) (lower : String → String) {lists : Lists}
    → Reached compile lower lists
    → (node : String) → NoRepeat (node_excluded node lists.excluded_devices)
unfolding node_excluded or_none allowedlist_sriov_nic record_remote_managed_vf get
Reached-IsExact compile lower (start specs) other = tt
Reached-IsExact compile lower (excluded node nic lists r) other =
    exclude_sriov_nic-IsExact node nic lists (Reached-IsExact compile lower r) other
Reached-IsExact compile lower (allowed node nic physnet lists r) other =
    admit-IsExact compile node nic _ lists (Reached-IsExact compile lower r) other
Reached-IsExact compile lower (recorded node nic lists r) other =
    admit-IsExact compile node nic _ lists (Reached-IsExact compile lower r) other
Reached-IsExact compile lower (passed node device lists after r e) other =
    subst (λ d. NoRepeat (node_excluded other d))
      (sym (allowedlist_pci-excluded compile node device lists e))
      (Reached-IsExact compile lower r other)

-- Whatever calls of these functions were made before, returning or not, on whatever cards and nodes and starting with any
-- specs and no excluded devices: a card whose address and identifiers are well formed, and its parent's
-- address, is allowed on its node once `allowedlist_sriov_nic` has returned.
pub allowedlist_sriov_nic_reached :
    (compile : String → Option (String → Bool)) (lower : String → String) (node : String)
    (nic : Nic) (physnet : Option String) (lists : Lists) {after : Lists}
    → Reached compile lower lists
    → IsNic nic
    → allowedlist_sriov_nic compile lower node nic physnet lists ≡ (after, return tt)
    → (v : Value) × (is_sriov_nic_allowedlisted compile node nic after ≡ return (some v))
allowedlist_sriov_nic_reached compile lower node nic physnet lists r h e =
    allowedlist_sriov_nic-allowed compile lower node nic physnet lists h
      (Reached-IsExact compile lower r node) e

is_pci-excluded :
    (compile : String → Option (String → Bool)) (node : String) (device : Nic) (lists : Lists)
    → elem device.pci_address (node_excluded node lists.excluded_devices) ≡ true
    → is_pci_device_allowedlisted compile node device lists ≡ return false
unfolding is_pci_device_allowedlisted
is_pci-excluded compile node device lists h = rw h refl

-- As a device without a parent.
abbrev orphan : Nic → Nic
orphan device = record device { pf_pci_address = none }

is_pci-found :
    (compile : String → Option (String → Bool)) (node : String) (device : Nic) (lists : Lists)
    (v : Value)
    → elem device.pci_address (node_excluded node lists.excluded_devices) ≡ false
    → first_match compile (device_of (orphan device)) lists.pci_allowedlist ≡ return (some v)
    → is_pci_device_allowedlisted compile node device lists ≡ return true
unfolding is_pci_device_allowedlisted is_found device_of
is_pci-found compile node device lists v h f = rw (h, f) refl

-- The call for a device that is not excluded.
add_found :
    (compile : String → Option (String → Bool)) (device : Nic) (lists : Lists) {after : Lists}
    (o : Option Value)
    → IsNic (orphan device)
    → first_match compile (device_of (orphan device)) lists.pci_allowedlist ≡ return o
    → (is_found o >>= λ b. return (add_spec (new_pci_spec device) lists b)) ≡ return after
    → (v : Value) × (first_match compile (device_of (orphan device)) after.pci_allowedlist
        ≡ return (some v))
unfolding is_found add_spec add_unless new_pci_spec get_field
add_found compile device lists {after} none h f e =
    let spec = new_pci_spec device in
    let k : add_spec spec lists false ≡ after = cc e in
    let (v, g) = Names-add_unless compile (orphan device) _ lists none h (refl, refl, refl) f in
    (
      v,
      subst
          (λ l. first_match compile (device_of (orphan device)) l.pci_allowedlist ≡ return (some v))
          k g,
    )
add_found compile device lists {after} (some v) h f e =
    let k : lists ≡ after = cc e in
    (
      v,
      subst
          (λ l. first_match compile (device_of (orphan device)) l.pci_allowedlist ≡ return (some v))
          k f,
    )

-- After `allowedlist_pci_passthrough_device` has returned for a device whose address and identifiers are
-- well formed, the device is allowed just where the user has not excluded it on its node.
pub allowedlist_pci-allowed :
    (compile : String → Option (String → Bool)) (node : String) (device : Nic) (lists : Lists)
    {after : Lists}
    → IsNic (record device { pf_pci_address = none })
    → allowedlist_pci_passthrough_device compile node device lists ≡ return after
    → is_pci_device_allowedlisted compile node device after
      ≡ return (not (elem device.pci_address (node_excluded node lists.excluded_devices)))
unfolding allowedlist_pci_passthrough_device is_pci_device_allowedlisted device_of
allowedlist_pci-allowed compile node device lists {after} h e =
    elim (Bool-cases (elem device.pci_address (node_excluded node lists.excluded_devices))) [
      | inl there ↦
          let f : return lists ≡ return after = rw there at e in
          let g : lists ≡ after = cc f in
          rw there (
            is_pci-excluded compile node device after (
              subst (λ l. elem device.pci_address (node_excluded node l.excluded_devices) ≡ true) g
                there))
      | inr gone ↦
          let first = first_match compile (device_of (orphan device)) lists.pci_allowedlist in
          let (b, f, g) = >>=-eq-return (first >>= is_found) _ (rw gone at e) in
          let (o, f2, g2) = >>=-eq-return first is_found f in
          let (v, k) = add_found compile device lists {after = after} o h f2 (rw g2 g) in
          rw gone (
            is_pci-found compile node device after v
              (ap (λ d. elem device.pci_address (node_excluded node d))
                  (allowedlist_pci-excluded compile node device lists e)
                ∙ gone)
              k)
    ]
