-- ===== src/Ovn.antt =====
-- sunbeam-python/sunbeam/core/ovn.py: the machines that run MicroOVN. The cluster is a parameter: the nodes
-- that clusterd lists for a role. A set is the list of its elements in the order in which they came.
pub mod Mapping
pub mod Distributor
mod Sets
mod Machines
mod Entries
mod Roles
mod Placement
mod Samples
use Prim.Native.Nat.{◌/◌, ◌%◌}
use Prim.Native.String.{len, slice, compare, ◌++◌ as ◌++ˢ◌}
use snap_openstack.Prelude.{
  ℕ, zero, suc, ltb, String, Bool, true, false, ◌||◌, Option, none, some, List, [], ◌∷◌, ◌++◌, elem,
  ◌==◌, string_eq, if◌then◌else◌, join, not,
}
use snap_openstack.Dict.{Dict, get, set}
use snap_openstack.Value.{ℤ, pos, negsuc}

-- `str(n)`: as many turns as the number says are enough for its digits.
unfoldable digits : ℕ → ℕ → String → String
digits zero n rest = rest
digits (suc fuel) n rest =
    let text = join (slice "0123456789" (n % 10) (suc (n % 10))) rest in
    elim (ltb n 10) [ true ↦ text | false ↦ digits fuel (n / 10) text ]

unfoldable pub int_text : ℤ → String
unfolding digits
int_text (pos n) = digits (suc n) n ""
int_text (negsuc n) = join "-" (digits (suc (suc n)) (suc n) "")

-- What is read of a node of the cluster.
pub record Node : Type 0 where
  pub machineid : Option ℤ
  pub arch : Option String
  pub role : List String

-- The identifier of the machine, unless it is -1 or `None`.
unfoldable machine_text : Option ℤ → Option String
unfolding int_text
machine_text none = none
machine_text (some (negsuc zero)) = none
machine_text (some n) = some (int_text n)

unfoldable pub machine_of : Node → Option String
unfolding machine_text
machine_of node = machine_text node.machineid

abbrev pub default_architecture : String
default_architecture = "amd64"

unfoldable arch_or_default : Option String → String
arch_or_default none = default_architecture
arch_or_default (some arch) = if arch == "" then default_architecture else arch

-- `node.get("arch") or DEFAULT_ARCHITECTURE`
unfoldable pub arch_of : Node → String
unfolding arch_or_default
arch_of node = arch_or_default node.arch

-- `microovn_application_name_for_node`
unfoldable pub microovn_application_name_for_node : Node → String
unfolding arch_of
microovn_application_name_for_node node =
    let arch = arch_of node in
    if arch == default_architecture then "microovn" else join "microovn-" arch

-- `s.add(x)`
unfoldable pub add_to_set : String → List String → List String
add_to_set x xs = if elem x xs then xs else xs ++ (x ∷ [])

unfoldable pub before : String → String → Bool
before s t = elim (compare s t) [ Prim.Native.Nat.Ordering.lt ↦ true | _ ↦ false ]

unfoldable pub insert_sorted : String → List String → List String
insert_sorted x [] = x ∷ []
insert_sorted x (y ∷ ys) =
    let rest = insert_sorted x ys in if before y x then y ∷ rest else x ∷ y ∷ ys

-- `sorted(xs)`
unfoldable pub sorted : List String → List String
unfolding insert_sorted
sorted [] = []
sorted (x ∷ xs) = insert_sorted x (sorted xs)

unfoldable pub add_valid : Bool → Option String → List String → List String
unfolding add_to_set
add_valid wanted none ids = ids
add_valid true (some machine) ids = add_to_set machine ids
add_valid false (some machine) ids = ids

-- `architecture is None or arch == architecture`
unfoldable pub is_architecture : Option String → String → Bool
is_architecture none arch = true
is_architecture (some architecture) arch = arch == architecture

unfoldable pub collect_machines : Option String → List Node → List String → List String
unfolding add_valid is_architecture
collect_machines architecture [] ids = ids
collect_machines architecture (node ∷ nodes) ids =
    collect_machines architecture nodes
      (add_valid (is_architecture architecture (arch_of node)) (machine_of node) ids)

unfoldable pub or_empty {ℓ} : {A : Type ℓ} → Option (List A) → List A
or_empty none = []
or_empty (some xs) = xs

-- `machine_ids_by_arch.setdefault(arch, set()).add(machine)`, for a valid machine.
unfoldable pub add_group : String → Option String → Dict (List String) → Dict (List String)
unfolding add_to_set or_empty
add_group arch none groups = groups
add_group arch (some machine) groups =
    set arch (add_to_set machine (or_empty (get arch groups))) groups

unfoldable pub group_machines : List Node → Dict (List String) → Dict (List String)
unfolding add_group
group_machines [] groups = groups
group_machines (node ∷ nodes) groups =
    group_machines nodes (add_group (arch_of node) (machine_of node) groups)

unfoldable pub sort_values : Dict (List String) → Dict (List String)
sort_values [] = []
sort_values ((k, xs) ∷ d) = (k, sorted xs) ∷ sort_values d

unfoldable sorted_or : List String → List String → List String
sorted_or [] rest = rest
sorted_or (x ∷ xs) rest = sorted (x ∷ xs)

module _ (list_nodes_by_role : String → List Node) where
  -- `_list_microovn_nodes`
  unfoldable pub list_microovn_nodes : List Node
  list_microovn_nodes =
      list_nodes_by_role "control" ++ (list_nodes_by_role "compute" ++ list_nodes_by_role "network")

  unfoldable pub get_machines : Option String → List String
  unfolding list_microovn_nodes collect_machines
  get_machines architecture = sorted (collect_machines architecture list_microovn_nodes [])

  unfoldable pub get_machines_by_architecture : Dict (List String)
  unfolding list_microovn_nodes group_machines sort_values
  get_machines_by_architecture = sort_values (group_machines list_microovn_nodes [])

  unfoldable first_machines : List String → List String
  unfolding sorted_or
  first_machines [] = []
  first_machines (role ∷ roles) =
      sorted_or (collect_machines (some default_architecture) (list_nodes_by_role role) [])
        (first_machines roles)

  -- The machines of the first role that has any of the default architecture.
  unfoldable pub get_token_distributor_machines : List String
  unfolding first_machines
  get_token_distributor_machines = first_machines ("control" ∷ "compute" ∷ "network" ∷ [])

-- `is_microovn_necessary`, on the names of roles.
unfoldable pub is_microovn_necessary : List String → Bool
is_microovn_necessary [] = false
is_microovn_necessary (role ∷ roles) =
    elem role ("control" ∷ "compute" ∷ "network" ∷ []) || is_microovn_necessary roles
