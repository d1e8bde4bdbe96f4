-- ===== src/Maintenance/Resolved.antt =====
-- The machine that a node is resolved to.
use snap_openstack.Prelude.{
  String, ◌≡◌, refl, sym, ◌∙◌, Bool, true, ◌||◌, ◌&&◌, Option, none, some, List, [], ◌∷◌, elem,
  ◌==◌, string_eq, return, >>=-eq-return, Bool-cases, Option-cases, inl, inr, arith, eq_iff, any,
  or_else, ◌⊎◌,
}
use snap_openstack.Dict.{Dict}
use snap_openstack.Hostnames.{hostnames_match, match_hostname, to_set, only}
use snap_openstack.Hostnames.Matching.{only-IsOnly, elem-to_set}
use snap_openstack.Maintenance.Resolve.{
  Machine, ClusterNode, or_raise, hostname, is_text, or_blank, exact_machine, matching_machines,
  machine_of_host, machine_id, node_of, clusterd_name, clusterd_name_on,
}

-- The machine has this identifier, and one of its names matches.
unfoldable pub is_match : String → String → String → String × Machine → Bool
is_match name host id (i, machine) =
    i == id
    && (hostnames_match host (or_blank machine.hostname)
        || hostnames_match name (or_blank machine.dns_name))

or_raise-return : (o : Option String) {x : String} → or_raise o ≡ return x → o ≡ some x
unfolding or_raise
or_raise-return none h = cc
or_raise-return (some y) h = cc

hostnames_match-text :
    (x : Option String) (name : String)
    → is_text x name ≡ true
    → hostnames_match name (or_blank x) ≡ true
unfolding is_text or_blank hostnames_match
hostnames_match-text none name h = cc
hostnames_match-text (some x) name h = ground (arith, eq_iff name x, eq_iff x name, h)

exact_machine-match :
    (name host : String) (machines : Dict Machine) {id : String}
    → exact_machine name host machines ≡ some id
    → any (is_match name host id) machines ≡ true
unfolding exact_machine is_match
exact_machine-match name host [] h = cc
exact_machine-match name host ((i, machine) ∷ machines) {id} h =
    elim (Bool-cases (is_text machine.hostname host || is_text machine.dns_name name)) [
      | inl found ↦
          let same : i ≡ id = cc (rw found at h) in
          ground (
            arith,
            (eq_iff i id).1 same,
            found,
            hostnames_match-text machine.hostname host,
            hostnames_match-text machine.dns_name name,
          )
      | inr on ↦ ground (arith, exact_machine-match name host machines (rw on at h))
    ]

elem-matching_machines :
    (name host id : String) (machines : Dict Machine)
    → elem id (matching_machines name host machines) ≡ any (is_match name host id) machines
unfolding matching_machines is_match
elem-matching_machines name host id [] = refl
elem-matching_machines name host id ((i, machine) ∷ machines) =
    ground (arith, elem-matching_machines name host id machines)

-- The machine that a node is resolved to is one of those that juju lists, and its name matches the host that the
-- node is matched with in the cluster, or its DNS name matches the node's name.
pub machine_id-match :
    (name : String) (cluster : List String) (machines : Dict Machine) {id : String}
    → machine_id name cluster machines ≡ return id
    → (host : String) × (match_hostname name cluster ≡ some host)
      × (any (is_match name host id) machines ≡ true)
unfolding machine_id hostname machine_of_host
machine_id-match name cluster [] h = cc
machine_id-match name cluster (m ∷ machines) {id} h =
    let (host, e, f) = >>=-eq-return (hostname name cluster) _ h in
    (
      host,
      or_raise-return (match_hostname name cluster) e,
      go host (Option-cases (exact_machine name host (m ∷ machines))) (or_raise-return _ f),
    )
  where
    go :
        (host : String)
        → (exact_machine name host (m ∷ machines) ≡ none)
          ⊎ ((i : String) × (exact_machine name host (m ∷ machines) ≡ some i))
        → or_else
            (exact_machine name host (m ∷ machines))
            (only (to_set (matching_machines name host (m ∷ machines))))
          ≡ some id
        → any (is_match name host id) (m ∷ machines) ≡ true
    go host (inr (i, e)) k =
        let same : some i ≡ some id = rw e at k in
        exact_machine-match name host (m ∷ machines) (e ∙ same)
    go host (inl e) k =
        let unique =
          only-IsOnly id (to_set (matching_machines name host (m ∷ machines))) (rw e at k) in
        sym (elem-matching_machines name host id (m ∷ machines))
        ∙ sym (elem-to_set id (matching_machines name host (m ∷ machines)))
        ∙ unique.0

-- Where some node of clusterd runs on the machine that a node is resolved to, the node is resolved to the first
-- such node of clusterd, whatever its name is.
clusterd_name-on_machine :
    (name : String) (cluster : List String) (machines : Dict Machine) (nodes : List ClusterNode)
    (id node : String)
    → machine_id name cluster machines ≡ return id
    → node_of id nodes ≡ some node
    → clusterd_name name cluster machines nodes ≡ return node
unfolding clusterd_name clusterd_name_on or_raise
clusterd_name-on_machine name cluster machines [] id node h k = cc
clusterd_name-on_machine name cluster machines (n ∷ nodes) id node h k = rw (h, k) refl
