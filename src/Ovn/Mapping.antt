-- ===== src/Ovn/Mapping.antt =====
-- sunbeam-python/sunbeam/core/role_assignments.py: the mapping from machines to MicroOVN roles.
use snap_openstack.Prelude.{
  String, Option, none, some, List, [], ◌∷◌, ◌++◌, elem, string_eq, if◌then◌else◌,
}
use snap_openstack.Dict.{Dict, get, set}
use snap_openstack.Ovn.{Node, machine_of, microovn_application_name_for_node, or_empty, before}

-- `_microovn_roles_for_node`
unfoldable pub microovn_roles_for_node : List String → List String
microovn_roles_for_node roles =
    "chassis"
    ∷ ((if elem "control" roles then "central" ∷ [] else [])
        ++ (if elem "network" roles then "gateway" ∷ [] else []))

-- The roles of each machine, for each application.
abbrev pub Assignments : Type 0
Assignments = Dict (Dict (List String))

unfoldable pub assign_machine : List String → Node → Option String → Assignments → Assignments
unfolding or_empty
assign_machine ids node none d = d
assign_machine ids node (some machine) d =
    if elem machine ids
    then set (microovn_application_name_for_node node)
        (set machine (microovn_roles_for_node node.role)
          (or_empty (get (microovn_application_name_for_node node) d)))
        d
    else d

unfoldable pub assign : List String → List Node → Assignments → Assignments
unfolding assign_machine
assign ids [] d = d
assign ids (node ∷ nodes) d = assign ids nodes (assign_machine ids node (machine_of node) d)

unfoldable pub insert_item {ℓ} : {V : Type ℓ} → String → V → Dict V → Dict V
insert_item k v [] = (k, v) ∷ []
insert_item k v ((j, w) ∷ d) =
    let rest = insert_item k v d in if before j k then (j, w) ∷ rest else (k, v) ∷ (j, w) ∷ d

-- `dict(sorted(d.items()))`: the keys are distinct, so they alone decide.
unfoldable pub sort_items {ℓ} : {V : Type ℓ} → Dict V → Dict V
unfolding insert_item
sort_items [] = []
sort_items ((k, v) ∷ d) = insert_item k v (sort_items d)

abbrev pub MachineRoles : Type 0
MachineRoles = Dict (Dict (List String))

unfoldable pub role_entries : Dict (List String) → MachineRoles
role_entries [] = []
role_entries ((machine, roles) ∷ d) = (machine, ("roles", roles) ∷ []) ∷ role_entries d

unfoldable pub application_entries : Assignments → Dict (Dict MachineRoles)
unfolding role_entries
application_entries [] = []
application_entries ((application, machines) ∷ d) =
    (application, ("machines", role_entries (sort_items machines)) ∷ []) ∷ application_entries d

abbrev pub RoleMapping : Type 0
RoleMapping = Dict (Dict (Dict MachineRoles))

-- `_build_mapping`
unfoldable pub build_mapping : String → Assignments → RoleMapping
unfolding sort_items application_entries
build_mapping model d = (model, application_entries (sort_items d)) ∷ []

module _ (list_nodes_by_role : String → List Node) where
  unfoldable pub assign_roles : List String → List String → Assignments → Assignments
  unfolding assign
  assign_roles ids [] d = d
  assign_roles ids (role ∷ roles) d =
      assign_roles ids roles (assign ids (list_nodes_by_role role) d)

  unfoldable pub build_microovn_role_mapping : String → List String → RoleMapping
  unfolding assign_roles build_mapping
  build_microovn_role_mapping model ids =
      build_mapping model (assign_roles ids ("control" ∷ "compute" ∷ "network" ∷ []) [])
