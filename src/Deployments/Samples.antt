-- ===== src/Deployments/Samples.antt =====
-- Two deployments, a file that cannot be written, and the theorems about them.
use snap_openstack.Prelude.{◌≡◌, refl, none, some, [], ◌∷◌, Outcome, return, raise, other_error}
use snap_openstack.Value.{end}
use snap_openstack.Deployments.{
  Deployment, DeploymentsConfig, get_active, add_deployment, find_deployment, switch,
}
use snap_openstack.Deployments.Switching.{
  IsWellFormed, add, update, switch_to, run_operations, run_operations-IsWellFormed,
  get_active-add_deployment,
}

abbrev write : DeploymentsConfig → Outcome (Unit {0})
write config = raise other_error

abbrev maas : Deployment
maas = record { name = "maas"; type = "maas"; info = end }

abbrev edge : Deployment
edge = record { name = "edge"; type = "local"; info = end }

abbrev empty : DeploymentsConfig
empty = record { active = none; deployments = [] }

empty-IsWellFormed : IsWellFormed empty
empty-IsWellFormed = record { distinct = tt; active_there = λ name e. cc }

abbrev both : DeploymentsConfig
both = record { active = some "maas"; deployments = maas ∷ edge ∷ [] }

run_operations-IsWellFormed_example : IsWellFormed (
    run_operations write
      (add maas ∷ add edge ∷ switch_to "maas" ∷ update edge ∷ add maas ∷ [])
      empty)
run_operations-IsWellFormed_example =
    run_operations-IsWellFormed write
      (add maas ∷ add edge ∷ switch_to "maas" ∷ update edge ∷ add maas ∷ []) empty
      empty-IsWellFormed

both-IsWellFormed : IsWellFormed both
unfolding run_operations switch add_deployment find_deployment
both-IsWellFormed =
    run_operations-IsWellFormed write (add maas ∷ add edge ∷ switch_to "maas" ∷ []) empty
      empty-IsWellFormed

get_active-add_deployment_example :
    get_active
      (add_deployment write edge (record { active = some "maas"; deployments = maas ∷ [] })).1
    ≡ return edge
get_active-add_deployment_example =
    get_active-add_deployment write edge (record { active = some "maas"; deployments = maas ∷ [] })
      refl refl
