-- ===== src/Maintenance/Resolve.antt =====
-- sunbeam-python/sunbeam/features/maintenance/resolve.py, `ResolvedNode`: the names of a node in the different
-- subsystems. What they list is a parameter.
use snap_openstack.Prelude.{
  String, Bool, false, ◌||◌, Option, none, some, List, [], ◌∷◌, ◌==◌, string_eq, if◌then◌else◌,
  Outcome, return, raise, ◌>>=◌, click_exception, or_else,
}
use snap_openstack.Dict.{Dict}
use snap_openstack.Hostnames.{hostnames_match, match_hostname, to_set, only}

pub record Machine : Type 0 where
  pub hostname : Option String
  pub dns_name : Option String

pub record ClusterNode : Type 0 where
  -- `str(node.get("machineid"))`
  pub machineid : String
  pub name : String

unfoldable pub or_raise : Option String → Outcome String
or_raise none = raise click_exception
or_raise (some name) = return name

-- `hostname`, among the names of the status of the cluster.
unfoldable pub hostname : String → List String → Outcome String
unfolding or_raise
hostname name cluster = or_raise (match_hostname name cluster)

-- `x == name`, for an `x` that may be `None`.
unfoldable pub is_text : Option String → String → Bool
is_text none name = false
is_text (some x) name = x == name

-- `x or ""`
unfoldable pub or_blank : Option String → String
or_blank none = ""
or_blank (some x) = x

-- The first machine that has one of the two names.
unfoldable pub exact_machine : String → String → Dict Machine → Option String
unfolding is_text
exact_machine name host [] = none
exact_machine name host ((id, machine) ∷ machines) =
    if is_text machine.hostname host || is_text machine.dns_name name
    then some id
    else exact_machine name host machines

-- The machines with a name that matches.
unfoldable pub matching_machines : String → String → Dict Machine → List String
unfolding or_blank
matching_machines name host [] = []
matching_machines name host ((id, machine) ∷ machines) =
    let rest = matching_machines name host machines in
    if hostnames_match host (or_blank machine.hostname)
      || hostnames_match name (or_blank machine.dns_name)
    then id ∷ rest
    else rest

-- The search for the machine of a host.
unfoldable pub machine_of_host : String → Dict Machine → String → Outcome String
unfolding exact_machine matching_machines or_raise
machine_of_host name machines host = or_raise (
    or_else (exact_machine name host machines)
      (only (to_set (matching_machines name host machines))))

-- `machine_id`: without a machine the name of the host is not asked for.
unfoldable pub machine_id : String → List String → Dict Machine → Outcome String
unfolding hostname machine_of_host
machine_id name cluster [] = raise click_exception
machine_id name cluster (m ∷ machines) =
    hostname name cluster >>= machine_of_host name (m ∷ machines)

-- The first node of the cluster on this machine.
unfoldable pub node_of : String → List ClusterNode → Option String
node_of id [] = none
node_of id (node ∷ nodes) = if node.machineid == id then some node.name else node_of id nodes

unfoldable node_names : List ClusterNode → List String
node_names [] = []
node_names (node ∷ nodes) = node.name ∷ node_names nodes

unfoldable pub clusterd_name_on : String → List ClusterNode → String → Outcome String
unfolding node_of node_names or_raise
clusterd_name_on name nodes id =
    or_raise (or_else (node_of id nodes) (match_hostname name (node_names nodes)))

-- `clusterd_name`: without a node the machine is not asked for.
unfoldable pub clusterd_name :
    String → List String → Dict Machine → List ClusterNode → Outcome String
unfolding machine_id clusterd_name_on
clusterd_name name cluster machines [] = or_raise (match_hostname name [])
clusterd_name name cluster machines (n ∷ nodes) =
    machine_id name cluster machines >>= clusterd_name_on name (n ∷ nodes)

-- The names that are neither `None` nor empty.
unfoldable pub named : List (Option String) → List String
named [] = []
named (none ∷ names) = named names
named (some name ∷ names) = let rest = named names in if name == "" then rest else name ∷ rest

-- `hypervisor_name`
unfoldable pub hypervisor_name : String → List String → List (Option String) → Outcome String
unfolding hostname named or_raise
hypervisor_name name cluster hypervisors = do
  host ← hostname name cluster
  or_raise (match_hostname host (named hypervisors))

-- The name of the only node that has the label.
unfoldable labelled : List (Option String) → Option String
unfolding named
labelled (name ∷ []) = elim (named (name ∷ [])) [ [] ↦ none | x ∷ (xs → h) ↦ some x ]
labelled _ = none

unfoldable k8s_name_by :
    String → List String → List (Option String) → Option String → Outcome String
unfolding hypervisor_name
k8s_name_by name cluster nodes (some node) = return node
k8s_name_by name cluster nodes none = hypervisor_name name cluster nodes

-- `k8s_name`: the nodes with a label, and all nodes; the search without a label is the one of
-- `hypervisor_name`.
unfoldable pub k8s_name :
    String
    → List String
    → Dict Machine
    → List ClusterNode
    → (String → List (Option String))
    → List (Option String)
    → Outcome String
unfolding clusterd_name labelled k8s_name_by
k8s_name name cluster machines nodes labels all_nodes = do
  clusterd ← clusterd_name name cluster machines nodes
  k8s_name_by name cluster all_nodes (labelled (labels clusterd))
