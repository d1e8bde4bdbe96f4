-- ===== src/Pci/Admitted.antt =====
-- What the functions that change the two lists do to the answers of the functions that read them.
use snap_openstack.Prelude.{
  Outcome, raise, String, ◌≡◌, refl, ap, sym, ◌∙◌, subst, Bool, false, not, ◌&&◌, Option, none,
  some, [], ◌∷◌, elem, NoRepeat, arith, ◌==◌, string_eq, Bool-cases, inl, inr, eq_iff, return,
  if◌then◌else◌,
}
use snap_openstack.Value.{Value, Fields, dict, get_field}
use snap_openstack.Pci.Nics.{
  add_searched, Nic, Lists, node_excluded, remove_first, readmit, first_match, device_of, admit,
  add_unless, is_sriov_nic_allowedlisted, record_remote_managed_vf, exclude_sriov_nic,
  allowedlist_sriov_nic, new_managed_spec, new_sriov_spec, lower_none, add_once,
}
use snap_openstack.Pci.Allowed.{IsNic, Names, Names-add_unless, first_match-append_some}
use snap_openstack.Pci.Excluded.{
  elem-remove_first-false, node_excluded-set, elem-remove_first, elem-add_once,
}

-- Only the address that is taken back changes, and only on its node.
elem-readmit :
    (node other address here : String) (lists : Lists)
    → NoRepeat (node_excluded node lists.excluded_devices)
    → elem here (node_excluded other (readmit node address lists).excluded_devices) ≡ (
        not (node == other && address == here)
        && elem here (node_excluded other lists.excluded_devices))
unfolding readmit
elem-readmit node other address here lists h =
    elim (Bool-cases (elem address (node_excluded node lists.excluded_devices))) [
      | inl there ↦
          rw
            (
              there,
              node_excluded-set node other
                  (remove_first address (node_excluded node lists.excluded_devices))
                  lists.excluded_devices,
            )
            (elim (Bool-cases (node == other)) [
              | inl same ↦
                  let e = (eq_iff node other).0 same in
                  rw
                    (
                      same,
                      elem-remove_first address here (node_excluded node lists.excluded_devices) h,
                      e,
                    )
                    refl
              | inr other_node ↦ rw other_node refl
            ])
      | inr gone ↦ rw gone (elim (Bool-cases (node == other && address == here)) [
        | inl both ↦
            let e = (eq_iff node other).0 (ground arith) in
            let f = (eq_iff address here).0 (ground arith) in
            let none_there : elem here (node_excluded other lists.excluded_devices) ≡ false =
              cc (ap (λ n. node_excluded n lists.excluded_devices) e) in
            rw (both, none_there) refl
        | inr apart ↦ rw apart refl
      ])
    ]

-- A card that is not excluded is not excluded by taking an address back.
elem-readmit-false :
    (node other address here : String) (lists : Lists)
    → elem here (node_excluded other lists.excluded_devices) ≡ false
    → elem here (node_excluded other (readmit node address lists).excluded_devices) ≡ false
unfolding readmit
elem-readmit-false node other address here lists h =
    elim (Bool-cases (elem address (node_excluded node lists.excluded_devices))) [
      | inl there ↦
          rw
            (
              there,
              node_excluded-set node other
                  (remove_first address (node_excluded node lists.excluded_devices))
                  lists.excluded_devices,
            )
            (elim (Bool-cases (node == other)) [
              | inl same ↦
                  let e : elem here (node_excluded node lists.excluded_devices) ≡ false =
                    ap (λ n. elem here (node_excluded n lists.excluded_devices))
                      ((eq_iff node other).0 same)
                    ∙ h in
                  rw same (
                    elem-remove_first-false address here (node_excluded node lists.excluded_devices)
                      e)
              | inr apart ↦ rw apart h
            ])
      | inr gone ↦ rw gone h
    ]

pci_allowedlist-readmit :
    (node address : String) (lists : Lists)
    → (readmit node address lists).pci_allowedlist ≡ lists.pci_allowedlist
unfolding readmit
pci_allowedlist-readmit node address lists = ground arith

is_sriov_nic_allowedlisted-first :
    (compile : String → Option (String → Bool)) (node : String) (nic : Nic) (lists : Lists)
    → elem nic.pci_address (node_excluded node lists.excluded_devices) ≡ false
    → is_sriov_nic_allowedlisted compile node nic lists
      ≡ first_match compile (device_of nic) lists.pci_allowedlist
unfolding is_sriov_nic_allowedlisted
is_sriov_nic_allowedlisted-first compile node nic lists h = rw h refl

is_sriov_nic_allowedlisted-found :
    (compile : String → Option (String → Bool)) (node : String) (nic : Nic) (lists : Lists)
    (v : Value)
    → is_sriov_nic_allowedlisted compile node nic lists ≡ return (some v)
    → (elem nic.pci_address (node_excluded node lists.excluded_devices) ≡ false)
      × (first_match compile (device_of nic) lists.pci_allowedlist ≡ return (some v))
unfolding is_sriov_nic_allowedlisted
is_sriov_nic_allowedlisted-found compile node nic lists v h =
    elim (Bool-cases (elem nic.pci_address (node_excluded node lists.excluded_devices))) [
      | inl there ↦ cc (rw there at h)
      | inr gone ↦ (gone, rw gone at h)
    ]

searched-return :
    (spec : Value) (lists : Lists) (r : Outcome (Option Value)) {after : Lists}
    → add_searched spec lists r ≡ (after, return tt)
    → (o : Option Value) × (r ≡ return o) × (after ≡ add_unless spec lists o)
unfolding add_searched
searched-return spec lists (return o) h = (o, refl, sym (ap (λ c. c.0) h))
searched-return spec lists (raise e) h = let bad : raise e ≡ return tt = ap (λ c. c.1) h in cc

pub admit-return :
    (compile : String → Option (String → Bool)) (node : String) (nic : Nic) (spec : Value)
    (lists : Lists) {after : Lists}
    → admit compile node nic spec lists ≡ (after, return tt)
    → (o : Option Value) × (is_sriov_nic_allowedlisted compile node nic
          (readmit node nic.pci_address lists)
        ≡ return o)
      × (after ≡ add_unless spec (readmit node nic.pci_address lists) o)
unfolding admit
admit-return compile node nic spec lists h =
    searched-return spec (readmit node nic.pci_address lists)
      (is_sriov_nic_allowedlisted compile node nic (readmit node nic.pci_address lists)) h

excluded_devices-add_unless :
    (spec : Value) (lists : Lists) (o : Option Value)
    → (add_unless spec lists o).excluded_devices ≡ lists.excluded_devices
unfolding add_unless
excluded_devices-add_unless spec lists none = refl
excluded_devices-add_unless spec lists (some v) = refl

pub excluded_devices-admit :
    (compile : String → Option (String → Bool)) (node : String) (nic : Nic) (spec : Value)
    (lists : Lists)
    → (admit compile node nic spec lists).0.excluded_devices
      ≡ (readmit node nic.pci_address lists).excluded_devices
unfolding admit add_searched
excluded_devices-admit compile node nic spec lists =
    go (readmit node nic.pci_address lists)
      (is_sriov_nic_allowedlisted compile node nic (readmit node nic.pci_address lists))
  where
    go :
        (here : Lists) (r : Outcome (Option Value))
        → (add_searched spec here r).0.excluded_devices ≡ here.excluded_devices
    go here (return o) = excluded_devices-add_unless spec here o
    go here (raise e) = refl

-- What is found first in a list is found first in the list with one more spec behind it.
first_match-add_unless :
    (compile : String → Option (String → Bool)) (nic : Nic) (spec : Value) (lists : Lists)
    (o : Option Value) (v : Value)
    → first_match compile (device_of nic) lists.pci_allowedlist ≡ return (some v)
    → first_match compile (device_of nic) (add_unless spec lists o).pci_allowedlist
      ≡ return (some v)
unfolding add_unless
first_match-add_unless compile nic spec lists none v h =
    first_match-append_some compile (device_of nic) lists.pci_allowedlist (spec ∷ []) v h
first_match-add_unless compile nic spec lists (some w) v h = h

admit-allowed :
    (compile : String → Option (String → Bool)) (node : String) (nic : Nic) (spec : Fields)
    (lists : Lists) {after : Lists}
    → IsNic nic
    → Names nic spec
    → NoRepeat (node_excluded node lists.excluded_devices)
    → admit compile node nic (dict spec) lists ≡ (after, return tt)
    → (v : Value) × (is_sriov_nic_allowedlisted compile node nic after ≡ return (some v))
admit-allowed compile node nic spec lists {after} h names fresh e =
    let here = readmit node nic.pci_address lists in
    let (o, f, g) = admit-return compile node nic (dict spec) lists e in
    let out : elem nic.pci_address (node_excluded node here.excluded_devices) ≡ false = ground (
      arith,
      elem-readmit node node nic.pci_address nic.pci_address lists fresh,
      eq_iff node node,
      eq_iff nic.pci_address nic.pci_address,
    ) in
    let (v, k) =
      Names-add_unless compile nic spec here o h names
        (sym (is_sriov_nic_allowedlisted-first compile node nic here out) ∙ f) in
    let still =
      ap (λ d. elem nic.pci_address (node_excluded node d))
        (excluded_devices-add_unless (dict spec) here o)
      ∙ out in
    (
      v,
      subst (λ l. is_sriov_nic_allowedlisted compile node nic l ≡ return (some v)) (sym g)
          (is_sriov_nic_allowedlisted-first compile node nic (add_unless (dict spec) here o) still
            ∙ k),
    )

-- A network card whose address and identifiers are well formed, and its parent's address, is allowed on
-- its node after `allowedlist_sriov_nic` has returned, whatever was on the two lists before: the excluded
-- devices of the node only have to be without repetition.
pub allowedlist_sriov_nic-allowed :
    (compile : String → Option (String → Bool)) (lower : String → String) (node : String)
    (nic : Nic) (physnet : Option String) (lists : Lists) {after : Lists}
    → IsNic nic
    → NoRepeat (node_excluded node lists.excluded_devices)
    → allowedlist_sriov_nic compile lower node nic physnet lists ≡ (after, return tt)
    → (v : Value) × (is_sriov_nic_allowedlisted compile node nic after ≡ return (some v))
unfolding allowedlist_sriov_nic new_sriov_spec get_field
allowedlist_sriov_nic-allowed compile lower node nic physnet lists h fresh e =
    admit-allowed compile node nic _ lists h (refl, refl, refl) fresh e

-- A virtual function is allowed on its node after `record_remote_managed_vf` has returned, on the same
-- conditions.
pub record_remote_managed_vf-allowed :
    (compile : String → Option (String → Bool)) (node : String) (nic : Nic) (lists : Lists)
    {after : Lists}
    → IsNic nic
    → NoRepeat (node_excluded node lists.excluded_devices)
    → record_remote_managed_vf compile node nic lists ≡ (after, return tt)
    → (v : Value) × (is_sriov_nic_allowedlisted compile node nic after ≡ return (some v))
unfolding record_remote_managed_vf new_managed_spec get_field
record_remote_managed_vf-allowed compile node nic lists h fresh e =
    admit-allowed compile node nic _ lists h (refl, refl, refl) fresh e

-- A card that was allowed, on whatever node, is allowed with the same physical network after
-- `allowedlist_sriov_nic` has returned for another card, or for this one.
pub allowedlist_sriov_nic-keeps :
    (compile : String → Option (String → Bool)) (lower : String → String) (node other : String)
    (nic card : Nic) (physnet : Option String) (lists : Lists) {after : Lists} (v : Value)
    → allowedlist_sriov_nic compile lower node nic physnet lists ≡ (after, return tt)
    → is_sriov_nic_allowedlisted compile other card lists ≡ return (some v)
    → is_sriov_nic_allowedlisted compile other card after ≡ return (some v)
unfolding allowedlist_sriov_nic
allowedlist_sriov_nic-keeps compile lower node other nic card physnet lists {after} v e h =
    let spec = new_sriov_spec nic (lower_none lower physnet) in
    let here = readmit node nic.pci_address lists in
    let (o, f, g) = admit-return compile node nic spec lists e in
    let (out, found) = is_sriov_nic_allowedlisted-found compile other card lists v h in
    let out_here : elem card.pci_address (node_excluded other here.excluded_devices) ≡ false =
      elem-readmit-false node other nic.pci_address card.pci_address lists out in
    let still =
      ap (λ d. elem card.pci_address (node_excluded other d))
        (excluded_devices-add_unless spec here o)
      ∙ out_here in
    let k = first_match-add_unless compile card spec here o v (
      ap (first_match compile (device_of card)) (pci_allowedlist-readmit node nic.pci_address lists)
      ∙ found) in
    subst (λ l. is_sriov_nic_allowedlisted compile other card l ≡ return (some v)) (sym g)
      (is_sriov_nic_allowedlisted-first compile other card (add_unless spec here o) still ∙ k)

-- After `exclude_sriov_nic` the card is not allowed on its node; every other card, and every card on
-- another node, is allowed or refused as before.
pub exclude_sriov_nic-allowedlisted :
    (compile : String → Option (String → Bool)) (node other : String) (nic card : Nic)
    (lists : Lists)
    → is_sriov_nic_allowedlisted compile other card (exclude_sriov_nic node nic lists) ≡ (
        if node == other && nic.pci_address == card.pci_address
        then return none
        else is_sriov_nic_allowedlisted compile other card lists)
unfolding is_sriov_nic_allowedlisted exclude_sriov_nic
exclude_sriov_nic-allowedlisted compile node other nic card lists =
    let here = node_excluded node lists.excluded_devices in
    let set_here =
      node_excluded-set node other (add_once nic.pci_address here) lists.excluded_devices in
    rw set_here (elim (Bool-cases (node == other)) [
      | inl same ↦
          let e : here ≡ node_excluded other lists.excluded_devices =
            ap (λ n. node_excluded n lists.excluded_devices) ((eq_iff node other).0 same) in
          rw (same, elem-add_once nic.pci_address card.pci_address here, e) (ground arith)
      | inr apart ↦ rw apart refl
    ])
