-- ===== src/Ovn/Roles.antt =====
-- What the mapping says of a machine.
use snap_openstack.Ovn.Machines.{elem-get_machines}
use snap_openstack.Ovn.{is_architecture, arch_of, get_machines}
use snap_openstack.Ovn.Machines.{elem-get_machines}
use snap_openstack.Ovn.{is_architecture, arch_of, get_machines}
use snap_openstack.Prelude.{
  ◌⊎◌, any, sym, ◌⊎◌, any, String, ◌≡◌, refl, ap, sym, ◌∙◌, Bool, ◌&&◌, Option, none, some, List,
  [], ◌∷◌, ◌++◌, elem, ◌==◌, string_eq, if◌then◌else◌, Bool-cases, inl, inr, arith, eq_iff, any,
}
use snap_openstack.Dict.{get, set, get-set}
use snap_openstack.Ovn.{
  Node, machine_of, or_empty, microovn_application_name_for_node, list_microovn_nodes, get_machines,
  is_architecture, arch_of,
}
use snap_openstack.Ovn.Mapping.{
  Assignments, assign, assign_machine, assign_roles, build_microovn_role_mapping,
  microovn_roles_for_node,
}
use snap_openstack.Ovn.Machines.{is_machine, same_machine, elem-get_machines}
use snap_openstack.Ovn.Entries.{assigned, roles_in, roles_in-build_mapping}

-- The node is on the machine and belongs to the application.
unfoldable pub is_unit : String → String → Node → Bool
is_unit application machine node =
    microovn_application_name_for_node node == application && is_machine machine node

-- The roles by the last of the nodes that is such a unit, or what is given if there is none.
unfoldable pub last_roles :
    String → String → List Node → Option (List String) → Option (List String)
last_roles application machine [] found = found
last_roles application machine (node ∷ nodes) found =
    last_roles application machine nodes
      (if is_unit application machine node then some (microovn_roles_for_node node.role) else found)

assigned-assign_machine :
    (ids : List String) (application machine : String) (node : Node) (o : Option String)
    (d : Assignments)
    → assigned application machine (assign_machine ids node o d) ≡ (
        if elem machine ids
          && (microovn_application_name_for_node node == application && same_machine machine o)
        then some (microovn_roles_for_node node.role)
        else assigned application machine d)
unfolding assign_machine same_machine
assigned-assign_machine ids application machine node none d = ground arith
assigned-assign_machine ids application machine node (some other) d =
    let app = microovn_application_name_for_node node in
    let roles = microovn_roles_for_node node.role in
    let here = or_empty (get app d) in
    elim (Bool-cases (other == machine)) [
      | inl same_one ↦
          let e : elem other ids ≡ elem machine ids =
            ap (λ m. elem m ids) ((eq_iff other machine).0 same_one) in
          elim (Bool-cases (elem machine ids)) [
            | inl mine ↦
                rw (e, mine, get-set app application (set other roles here) d, same_one)
                  (elim (Bool-cases (app == application)) [
                    | inl same ↦ rw (same, get-set other machine roles here, same_one) refl
                    | inr apart ↦ rw apart refl
                  ])
            | inr foreign ↦ rw (e, foreign) refl
          ]
      | inr another ↦ elim (Bool-cases (elem other ids)) [
        | inl mine ↦
            rw (mine, get-set app application (set other roles here) d, another)
              (elim (Bool-cases (app == application)) [
                | inl same ↦
                    let f : get machine here ≡ assigned application machine d =
                      ap (λ a. assigned a machine d) ((eq_iff app application).0 same) in
                    rw (same, get-set other machine roles here, another) (f ∙ ground arith)
                | inr apart ↦ rw apart (ground arith)
              ])
        | inr foreign ↦ rw (foreign, another) (ground arith)
      ]
    ]

assigned-assign :
    (ids : List String) (application machine : String) (nodes : List Node) (d : Assignments)
    → assigned application machine (assign ids nodes d) ≡ (
        if elem machine ids
        then last_roles application machine nodes (assigned application machine d)
        else assigned application machine d)
unfolding assign last_roles is_unit is_machine
assigned-assign ids application machine [] d = ground arith
assigned-assign ids application machine (node ∷ nodes) d =
    let o = machine_of node in
    let step = assigned-assign_machine ids application machine node o d in
    assigned-assign ids application machine nodes (assign_machine ids node o d)
    ∙ (elim (Bool-cases (elem machine ids)) [
      | inl mine ↦ rw (step, mine) refl
      | inr foreign ↦ rw (step, foreign) refl
    ])

last_roles-append :
    (application machine : String) (xs ys : List Node) (found : Option (List String))
    → last_roles application machine (xs ++ ys) found
      ≡ last_roles application machine ys (last_roles application machine xs found)
unfolding last_roles
last_roles-append application machine [] ys found = refl
last_roles-append application machine (x ∷ xs) ys found =
    last_roles-append application machine xs ys _

-- For a machine of the given ones, the mapping has the roles by the last node of the cluster that runs on it
-- and belongs to the application, where the nodes for control come first and those for the network last; for
-- every other machine it has none.
pub build_microovn_role_mapping-roles :
    (list_nodes_by_role : String → List Node) (model application machine : String)
    (ids : List String)
    → roles_in model application machine (build_microovn_role_mapping list_nodes_by_role model ids)
      ≡ (if elem machine ids
          then last_roles application machine (list_microovn_nodes list_nodes_by_role) none
          else none)
unfolding build_microovn_role_mapping assign_roles list_microovn_nodes get
build_microovn_role_mapping-roles list_nodes_by_role model application machine ids =
    let c = list_nodes_by_role "control" in
    let p = list_nodes_by_role "compute" in
    let n = list_nodes_by_role "network" in
    let last = assigned-assign ids application machine n (assign ids p (assign ids c [])) in
    let middle = assigned-assign ids application machine p (assign ids c []) in
    let first = assigned-assign ids application machine c [] in
    let joined =
      last_roles-append application machine c (p ++ n) none
      ∙ last_roles-append application machine p n (last_roles application machine c none) in
    rw
      (
        roles_in-build_mapping model application machine
            (assign ids n (assign ids p (assign ids c []))),
        last,
      )
      (elim (Bool-cases (elem machine ids)) [
        | inl mine ↦ rw (mine, middle, mine, first, mine, joined) refl
        | inr foreign ↦ rw (foreign, middle, foreign, first, foreign) refl
      ])

-- A list of roles begins with "chassis".
abbrev pub IsChassis : Option (List String) → Type 0
IsChassis none = ⊥
IsChassis (some []) = ⊥
IsChassis (some (role ∷ roles)) = role ≡ "chassis"
