-- ===== src/Ovn/Machines.antt =====
-- The grouping of the machines by architecture is the choice of them for each architecture.
use snap_openstack.Ovn.Sets.{elem-add_to_set, elem-sorted}
use snap_openstack.Prelude.{
  ◌||◌, ◌&&◌, String, ◌≡◌, refl, ap, ◌∙◌, Option, none, some, List, [], ◌∷◌, elem, ◌==◌, string_eq,
  Bool-cases, inl, inr, eq_iff, true, false, Bool, sym, any, arith, ◌&&◌,
}
use snap_openstack.Dict.{Dict, get, get-set}
use snap_openstack.Ovn.{
  Node, machine_of, arch_of, add_to_set, sorted, collect_machines, add_valid, is_architecture,
  or_empty, add_group, group_machines, get_machines, sort_values, insert_sorted,
  get_machines_by_architecture, list_microovn_nodes, before,
}

-- Nothing for the empty set.
abbrev pub unless_empty : List String → Option (List String)
unless_empty [] = none
unless_empty (x ∷ xs) = some (x ∷ xs)

unless_empty-add :
    (x : String) (xs : List String) → unless_empty (add_to_set x xs) ≡ some (add_to_set x xs)
unfolding add_to_set
unless_empty-add x [] = refl
unless_empty-add x (y ∷ ys) = elim (Bool-cases (elem x (y ∷ ys))) [
  | inl there ↦ rw there refl
  | inr fresh ↦ rw fresh refl
]

or_empty-unless_empty : (xs : List String) → or_empty (unless_empty xs) ≡ xs
unfolding or_empty
or_empty-unless_empty [] = refl
or_empty-unless_empty (x ∷ xs) = refl

-- One node, added to its group_machines and to the machines of an architecture.
add_group-add_valid :
    (arch here : String) (machine : Option String) (groups : Dict (List String)) (ids : List String)
    → get arch groups ≡ unless_empty ids
    → get arch (add_group here machine groups)
      ≡ unless_empty (add_valid (is_architecture (some arch) here) machine ids)
unfolding add_group add_valid is_architecture
add_group-add_valid arch here none groups ids h = h
add_group-add_valid arch here (some machine) groups ids h =
    rw (get-set here arch (add_to_set machine (or_empty (get here groups))) groups)
      (elim (Bool-cases (here == arch)) [
        | inl same ↦
            let e : or_empty (get here groups) ≡ ids =
              ap (λ a. or_empty (get a groups)) ((eq_iff here arch).0 same)
              ∙ ap or_empty h
              ∙ or_empty-unless_empty ids in
            rw (same, e, unless_empty-add machine ids) refl
        | inr other ↦ rw other h
      ])

group_machines-collect_machines :
    (arch : String) (nodes : List Node) (groups : Dict (List String)) (ids : List String)
    → get arch groups ≡ unless_empty ids
    → get arch (group_machines nodes groups) ≡ unless_empty (collect_machines (some arch) nodes ids)
unfolding group_machines collect_machines
group_machines-collect_machines arch [] groups ids h = h
group_machines-collect_machines arch (node ∷ nodes) groups ids h =
    group_machines-collect_machines arch nodes _ _
      (add_group-add_valid arch (arch_of node) (machine_of node) groups ids h)

abbrev sorted_option : Option (List String) → Option (List String)
sorted_option none = none
sorted_option (some xs) = some (sorted xs)

get-sort_values :
    (k : String) (d : Dict (List String)) → get k (sort_values d) ≡ sorted_option (get k d)
unfolding get sort_values
get-sort_values k [] = refl
get-sort_values k ((j, xs) ∷ d) = ground (arith, get-sort_values k d)

insert_sorted-ne :
    (x : String) (xs : List String) → unless_empty (insert_sorted x xs) ≡ some (insert_sorted x xs)
unfolding insert_sorted
insert_sorted-ne x [] = refl
insert_sorted-ne x (y ∷ ys) = elim (Bool-cases (before y x)) [
  | inl smaller ↦ rw smaller refl
  | inr greater ↦ rw greater refl
]

sorted_option-unless_empty :
    (xs : List String) → sorted_option (unless_empty xs) ≡ unless_empty (sorted xs)
unfolding sorted
sorted_option-unless_empty [] = refl
sorted_option-unless_empty (x ∷ xs) = sym (insert_sorted-ne x (sorted xs))

-- The grouping of the machines has, for each architecture, just the machines that are chosen for it, in the
-- same order, and no entry where there is none.
pub get_machines_by_architecture-get :
    (list_nodes_by_role : String → List Node) (arch : String)
    → get arch (get_machines_by_architecture list_nodes_by_role)
      ≡ unless_empty (get_machines list_nodes_by_role (some arch))
unfolding get_machines_by_architecture get_machines get
get_machines_by_architecture-get list_nodes_by_role arch =
    let nodes = list_microovn_nodes list_nodes_by_role in
    get-sort_values arch (group_machines nodes [])
    ∙ ap sorted_option (group_machines-collect_machines arch nodes [] [] refl)
    ∙ sorted_option-unless_empty (collect_machines (some arch) nodes [])

unfoldable pub same_machine : String → Option String → Bool
same_machine machine none = false
same_machine machine (some other) = other == machine

-- The node runs on this machine.
unfoldable pub is_machine : String → Node → Bool
unfolding same_machine
is_machine machine node = same_machine machine (machine_of node)

elem-add_valid :
    (machine : String) (wanted : Bool) (o : Option String) (ids : List String)
    → elem machine (add_valid wanted o ids)
      ≡ (elem machine ids || (wanted && same_machine machine o))
unfolding add_valid same_machine
elem-add_valid machine true none ids = ground arith
elem-add_valid machine false none ids = ground arith
elem-add_valid machine true (some other) ids = elem-add_to_set other machine ids ∙ ground arith
elem-add_valid machine false (some other) ids = ground arith

pub elem-collect_machines :
    (machine : String) (architecture : Option String) (nodes : List Node) (ids : List String)
    → elem machine (collect_machines architecture nodes ids) ≡ (
        elem machine ids
        || any
            (λ node. is_architecture architecture (arch_of node) && is_machine machine node)
            nodes)
unfolding collect_machines is_machine
elem-collect_machines machine architecture [] ids = ground arith
elem-collect_machines machine architecture (node ∷ nodes) ids =
    let o = machine_of node in
    let wanted = is_architecture architecture (arch_of node) in
    elem-collect_machines machine architecture nodes (add_valid wanted o ids)
    ∙ (rw (elem-add_valid machine wanted o ids) (ground arith))

-- A machine is chosen just where a node with one of the three roles runs on it, and its architecture is
-- the one that is asked for, if one is.
pub elem-get_machines :
    (list_nodes_by_role : String → List Node) (architecture : Option String) (machine : String)
    → elem machine (get_machines list_nodes_by_role architecture)
      ≡ any
          (λ node. is_architecture architecture (arch_of node) && is_machine machine node)
          (list_microovn_nodes list_nodes_by_role)
unfolding get_machines
elem-get_machines list_nodes_by_role architecture machine =
    let nodes = list_microovn_nodes list_nodes_by_role in
    elem-sorted machine (collect_machines architecture nodes [])
    ∙ elem-collect_machines machine architecture nodes []
