-- ===== src/Ovn/Distributor.antt =====
-- sunbeam-python/sunbeam/steps/role_distributor.py: the variables of the plan of the role distributor, and
-- what its steps answer. Parameters: the nodes of the cluster, the text of the mapping (`yaml.safe_dump`),
-- what the run of terraform and the wait for the application answer (nothing, or the text of their error).
use snap_openstack.Prelude.{
  String, Option, none, some, List, [], ◌∷◌, ◌==◌, string_eq, if◌then◌else◌,
}
use snap_openstack.Dict.{get}
use snap_openstack.Value.{
  Value, Fields, Items, str, list, dict, nil, cons, end, field, set_field, get_field,
}
use snap_openstack.Plan.{Result, ResultType}
use snap_openstack.Manifest.{Manifest, CharmManifest}
use snap_openstack.Ovn.{Node, sorted, get_machines, collect_machines}
use snap_openstack.Ovn.Mapping.{RoleMapping, build_microovn_role_mapping}

-- `d.pop(k, None)`
unfoldable pub pop_field : String → Fields → Fields
pop_field k end = end
pop_field k (field j v d) = let rest = pop_field k d in if j == k then rest else field j v rest

-- `config` of a manifest, without the mapping; nothing if it is absent, `None` or empty.
unfoldable config_of : Option Value → Fields
unfolding pop_field
config_of (some (dict config)) = pop_field "role-mapping" config
config_of _ = end

unfoldable config_of_charm : Option CharmManifest → Fields
unfolding config_of
config_of_charm none = end
config_of_charm (some charm) = config_of (get_field "config" charm.dump)

-- `_manifest_config`
unfoldable pub manifest_config : Manifest → Fields
unfolding config_of_charm
manifest_config manifest = config_of_charm (get "role-distributor" manifest.core.software.charms)

unfoldable pub items_of : List String → Items
items_of [] = nil
items_of (x ∷ xs) = cons (str x) (items_of xs)

-- `xs[:1]`
unfoldable pub take_first : List String → List String
take_first [] = []
take_first (x ∷ xs) = x ∷ []

unfoldable after_wait : Option String → Result (Option String)
after_wait (some error) = record { result_type = ResultType.failed; message = some error }
after_wait none = record { result_type = ResultType.completed; message = none }

unfoldable pub after_apply : Option String → Option String → Result (Option String)
unfolding after_wait
after_apply (some error) waited = record { result_type = ResultType.failed; message = some error }
after_apply none waited = after_wait waited

-- What terraform gets and what the run answers, by what the tests have found.
unfoldable pub reapply_by :
    ResultType
    → Result (Option String)
    → Fields
    → (Fields → Option String)
    → Option String
    → Option Fields × Result (Option String)
unfolding after_apply
reapply_by ResultType.completed skip tfvars apply_tf waited =
    (some tfvars, after_apply (apply_tf tfvars) waited)
reapply_by ResultType.failed skip tfvars apply_tf waited = (none, skip)
reapply_by ResultType.skipped skip tfvars apply_tf waited = (none, skip)

-- The message of a result is there where the code gives one.
unfoldable pub deploy_is_skip_of : List String → List String → Result (Option String)
deploy_is_skip_of [] control = record { result_type = ResultType.skipped; message = none }
deploy_is_skip_of (m ∷ machines) [] = record {
  result_type = ResultType.failed;
  message = some "role-distributor requires at least one control machine";
}
deploy_is_skip_of (m ∷ machines) (c ∷ control) = record {
  result_type = ResultType.completed;
  message = none;
}

module _ (list_nodes_by_role : String → List Node) where
  -- `_control_machine_ids`: all architectures.
  unfoldable pub control_machine_ids : List String
  control_machine_ids = sorted (collect_machines none (list_nodes_by_role "control") [])

  -- `DeployRoleDistributorApplicationStep.is_skip`
  unfoldable pub deploy_is_skip : Result (Option String)
  unfolding deploy_is_skip_of control_machine_ids
  deploy_is_skip = deploy_is_skip_of (get_machines list_nodes_by_role none) control_machine_ids

  module _ (safe_dump : RoleMapping → String) where
    -- `_role_distributor_extra_tfvars`
    unfoldable pub role_distributor_extra_tfvars :
        Manifest → String → List String → List String → Fields
    unfolding manifest_config items_of take_first
    role_distributor_extra_tfvars manifest model microovn_ids control_ids =
        let mapping = build_microovn_role_mapping list_nodes_by_role model microovn_ids in
        field "role_distributor_machine_ids" (list (items_of (take_first control_ids))) (
          field "machine_ids" (list nil) (
            field "charm_role_distributor_config"
              (dict (set_field "role-mapping" (str (safe_dump mapping)) (manifest_config manifest)))
              end))

    -- `DeployRoleDistributorApplicationStep.extra_tfvars`
    unfoldable pub extra_tfvars : Manifest → String → Fields
    unfolding role_distributor_extra_tfvars control_machine_ids
    extra_tfvars manifest model =
        role_distributor_extra_tfvars manifest model (get_machines list_nodes_by_role none)
          control_machine_ids

    -- `ReapplyRoleDistributorApplicationStep.run`, one attempt of it: the same tests as `deploy_is_skip` come first.
    unfoldable pub reapply :
        Manifest
        → String
        → String
        → (Fields → Option String)
        → Option String
        → Option Fields × Result (Option String)
    unfolding deploy_is_skip extra_tfvars reapply_by
    reapply manifest model model_uuid apply_tf waited =
        reapply_by deploy_is_skip.result_type deploy_is_skip
          (set_field "machine_model_uuid" (str model_uuid) (extra_tfvars manifest model)) apply_tf
          waited
