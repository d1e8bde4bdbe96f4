-- ===== src/Deployments.antt =====
-- sunbeam-python/sunbeam/core/deployments.py: the deployments that a client knows, and the active one.
-- Writing the file is a parameter: its outcome for a configuration. An operation returns its outcome
-- and the configuration in memory, which has changed even where the write fails.
mod Switching
mod Samples
use snap_openstack.Prelude.{
  String, Bool, true, false, Option, none, some, List, [], ◌∷◌, ◌++◌, Outcome, return, raise,
  value_error, ◌&&◌, ◌==◌, string_eq, if◌then◌else◌,
}
use snap_openstack.Value.{Fields}

-- `type` is the kind of provider and `info` the other attributes.
pub record Deployment : Type 0 where
  pub name : String
  pub type : String
  pub info : Fields

pub record DeploymentsConfig : Type 0 where
  pub active : Option String
  pub deployments : List Deployment

unfoldable pub find_deployment : String → List Deployment → Outcome Deployment
find_deployment name [] = raise value_error
find_deployment name (d ∷ ds) = if d.name == name then return d else find_deployment name ds

-- `DeploymentsConfig.get_deployment`
unfoldable pub get_deployment : String → DeploymentsConfig → Outcome Deployment
get_deployment name config = find_deployment name config.deployments

-- `DeploymentsConfig.refresh_deployment`: the type stands for the class too.
unfoldable pub refresh_deployment : Deployment → DeploymentsConfig → Outcome Deployment
refresh_deployment d config = elim (get_deployment d.name config) [
  | raise e ↦ raise e
  | return found ↦ if found.type == d.type then return found else raise value_error
]

-- `DeploymentsConfig.get_active`
unfoldable pub get_active : DeploymentsConfig → Outcome Deployment
unfolding get_deployment
get_active config = elim config.active [
  | none ↦ raise value_error
  | some name ↦ if name == "" then raise value_error else get_deployment name config
]

unfoldable pub is_there : Outcome Deployment → Bool
is_there (return d) = true
is_there (raise e) = false

unfoldable pub replace : Deployment → List Deployment → List Deployment
replace d [] = []
replace d (e ∷ ds) = if e.name == d.name then d ∷ ds else e ∷ replace d ds

unfoldable pub is_active : String → Option String → Bool
is_active name none = false
is_active name (some active) = active == name

module _ (write : DeploymentsConfig → Outcome (Unit {0})) where
  -- `DeploymentsConfig.add_deployment`
  unfoldable pub add_deployment :
      Deployment → DeploymentsConfig → Outcome (Unit {0}) × DeploymentsConfig
  unfolding is_there get_deployment
  add_deployment d config =
      if is_there (get_deployment d.name config)
      then (raise value_error, config)
      else (let new : DeploymentsConfig = record {
        active = some d.name;
        deployments = config.deployments ++ d ∷ [];
      } in
          (write new, new))

  -- `DeploymentsConfig.update_deployment`
  unfoldable pub update_deployment :
      Deployment → DeploymentsConfig → Outcome (Unit {0}) × DeploymentsConfig
  unfolding is_there get_deployment
  update_deployment d config =
      if is_there (get_deployment d.name config)
      then (let new : DeploymentsConfig = record config {
        deployments = replace d config.deployments;
      } in
          (write new, new))
      else (raise value_error, config)

  -- `DeploymentsConfig.switch`
  unfoldable pub switch : String → DeploymentsConfig → Outcome (Unit {0}) × DeploymentsConfig
  unfolding is_there get_deployment is_active
  switch name config =
      if is_active name config.active
      then (return tt, config)
      else (if is_there (get_deployment name config)
          then (let new : DeploymentsConfig = record config { active = some name } in
              (write new, new))
          else (raise value_error, config))
