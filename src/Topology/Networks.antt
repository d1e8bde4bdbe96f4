-- ===== src/Topology/Networks.antt =====
-- Which spaces a machine is in that passes the checks.
use snap_openstack.Prelude.{
  nat_beq, String, ◌≡◌, refl, Bool, true, false, ◌||◌, Option, none, some, List, [], ◌∷◌, length,
  any, all, All, elem, ◌==◌, string_eq, eq_iff, arith,
}
use snap_openstack.Dict.{get, get-set}
use snap_openstack.Topology.{MaasMachine, run_check_list, is_failure}
use snap_openstack.Topology.Verdict.{any-run_check_list, any-with_summary}
use snap_openstack.Topology.Machines.{
  Spaces, networks, get_network_mapping, is_named, is_incomplete, role_networks, lacks,
  misses_space, machine_network_check, machine_checks, deployment_machines_check, add_networks,
  set_default,
}

-- The network has a space, and it is one of the machine's.
abbrev is_reached : List String → Option (Option String) → Bool
is_reached assigned none = false
is_reached assigned (some none) = false
is_reached assigned (some (some space)) = elem space assigned

abbrev is_present : Option (Option String) → Bool
is_present none = false
is_present (some s) = true

present-set_default :
    (n k : String) (o : Option (Option String)) (d : Spaces)
    → get k d ≡ o
    → (k == n || is_present (get n d)) ≡ true
    → is_present (get n (set_default k o d)) ≡ true
unfolding set_default
present-set_default n k none d e h = ground (arith, get-set k n none d)
present-set_default n k (some s) d e h = ground (arith, eq_iff k n)

present-add_networks :
    (n : String) (ns : List String) (d : Spaces)
    → (elem n ns || is_present (get n d)) ≡ true
    → is_present (get n (add_networks ns d)) ≡ true
unfolding add_networks
present-add_networks n [] d h = h
present-add_networks n (k ∷ ns) d h =
    present-add_networks n ns (set_default k (get k d) d)
      (ground (arith, present-set_default n k (get k d) d refl))

named :
    (n : String) (s : Option String) (d : Spaces)
    → all (λ entry. is_named entry.1) d ≡ true
    → get n d ≡ some s
    → is_named s ≡ true
unfolding get
named n s [] h e = ground arith
named n s ((k, v) ∷ d) h e = ground (arith, named n s d)

is_reached-named :
    (assigned : List String) (o : Option (Option String))
    → is_present o ≡ true
    → ((s : Option String) → o ≡ some s → is_named s ≡ true)
    → lacks assigned o ≡ false
    → is_reached assigned o ≡ true
unfolding lacks is_named
is_reached-named assigned none p h l = ground arith
is_reached-named assigned (some none) p h l = h none refl
is_reached-named assigned (some (some s)) p h l = ground (arith, h (some s) refl)

reached :
    (assigned : List String) (n : String) (d : Spaces)
    → is_incomplete d ≡ false
    → is_present (get n d) ≡ true
    → lacks assigned (get n d) ≡ false
    → is_reached assigned (get n d) ≡ true
unfolding is_incomplete
reached assigned n d h k l =
    is_reached-named assigned (get n d) k (λ s e. named n s d (ground arith) e) l

are_networks : (role : String) → All (λ n. elem n networks ≡ true) (role_networks role)
unfolding role_networks
are_networks role = ground arith

reached_networks :
    (assigned : List String) (spaces : Spaces) (ns : List String)
    → is_incomplete (get_network_mapping spaces) ≡ false
    → All (λ n. elem n networks ≡ true) ns
    → any (λ n. lacks assigned (get n (get_network_mapping spaces))) ns ≡ false
    → All (λ n. is_reached assigned (get n (get_network_mapping spaces)) ≡ true) ns
unfolding get_network_mapping
reached_networks assigned spaces [] c h l = tt
reached_networks assigned spaces (n ∷ ns) c h l = (
  reached assigned n (add_networks networks spaces) c
      (present-add_networks n networks spaces (ground (arith, h.0))) (ground arith),
  reached_networks assigned spaces ns c h.1 (ground arith),
)

reached_roles :
    (assigned : List String) (spaces : Spaces) (roles : List String)
    → is_incomplete (get_network_mapping spaces) ≡ false
    → any
        (λ role.
          any (λ n. lacks assigned (get n (get_network_mapping spaces))) (role_networks role))
        roles
      ≡ false
    → All
        (λ role.
          All
            (λ n. is_reached assigned (get n (get_network_mapping spaces)) ≡ true)
            (role_networks role))
        roles
reached_roles assigned spaces [] c l = tt
reached_roles assigned spaces (role ∷ roles) c l = (
  reached_networks assigned spaces (role_networks role) c (are_networks role) (ground arith),
  reached_roles assigned spaces roles c (ground arith),
)

-- The machine is in the space of each network of each of its roles, and has a role.
abbrev pub IsConnected : Spaces → MaasMachine → Type 0
IsConnected spaces machine =
    (nat_beq (length machine.roles) 0 ≡ false)
    × All
        (λ role.
          All (λ n. is_reached machine.spaces (get n (get_network_mapping spaces)) ≡ true)
            (role_networks role))
        machine.roles

network_check-IsConnected :
    (spaces : Spaces) (machine : MaasMachine)
    → is_failure (machine_network_check spaces machine) ≡ false
    → IsConnected spaces machine
unfolding machine_network_check misses_space is_failure
network_check-IsConnected spaces machine h =
    (ground arith, reached_roles machine.spaces spaces machine.roles (ground arith) (ground arith))

machine_checks-IsConnected :
    (spaces : Spaces) (machines : List MaasMachine)
    → any (λ results. any is_failure results) (machine_checks spaces machines) ≡ false
    → All (λ machine. IsConnected spaces machine) machines
unfolding machine_checks
machine_checks-IsConnected spaces [] h = tt
machine_checks-IsConnected spaces (machine ∷ machines) h = (
  network_check-IsConnected spaces machine (ground arith),
  machine_checks-IsConnected spaces machines (ground arith),
)

-- Where the check of the machines of a deployment reports no failure, each machine has a role, and each network that
-- one of its roles needs is mapped to a space, which is one of the machine's spaces.
pub deployment_machines_check-IsConnected :
    (spaces : Spaces) (machines : List MaasMachine)
    → any is_failure (deployment_machines_check spaces machines) ≡ false
    → All (λ machine. IsConnected spaces machine) machines
unfolding deployment_machines_check
deployment_machines_check-IsConnected spaces [] h = tt
deployment_machines_check-IsConnected spaces (m ∷ ms) h =
    machine_checks-IsConnected spaces (m ∷ ms) (
      ground (
        arith,
        any-with_summary "Deployment check" (run_check_list (machine_checks spaces (m ∷ ms)) []),
        any-run_check_list is_failure (machine_checks spaces (m ∷ ms)) [],
      ))
