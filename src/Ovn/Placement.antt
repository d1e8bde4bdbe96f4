-- ===== src/Ovn/Placement.antt =====
-- Where terraform puts the role distributor.
use snap_openstack.Prelude.{
  String, ◌≡◌, ◌≢◌, refl, sym, ◌∙◌, subst, true, Option, none, some, List, [], ◌∷◌, elem, any,
  string_eq, arith, eq_iff,
}
use snap_openstack.Value.{Fields, str, list, nil, cons, get_field, set_field}
use snap_openstack.Value.Laws.{get_field-set_field}
use snap_openstack.Plan.{Result, ResultType}
use snap_openstack.Manifest.{Manifest}
use snap_openstack.Ovn.{Node, get_machines, collect_machines, is_architecture}
use snap_openstack.Ovn.Mapping.{RoleMapping}
use snap_openstack.Ovn.Sets.{elem-sorted}
use snap_openstack.Ovn.Machines.{is_machine, elem-collect_machines}
use snap_openstack.Ovn.Distributor.{
  control_machine_ids, deploy_is_skip, deploy_is_skip_of, role_distributor_extra_tfvars,
  extra_tfvars, reapply, reapply_by, items_of, take_first,
}

-- The step is neither skipped nor failed just where both lists have an entry.
deploy_is_skip_of-completed :
    (machines control : List String)
    → (deploy_is_skip_of machines control).result_type ≡ ResultType.completed
    → (c : String) × (rest : List String) × (control ≡ c ∷ rest) × (machines ≢ [])
unfolding deploy_is_skip_of
deploy_is_skip_of-completed [] control h = cc
deploy_is_skip_of-completed (m ∷ machines) [] h = cc
deploy_is_skip_of-completed (m ∷ machines) (c ∷ control) h = (c, control, refl, λ e. cc)

elem-control_machine_ids :
    (list_nodes_by_role : String → List Node) (c : String)
    → elem c (control_machine_ids list_nodes_by_role)
      ≡ any (is_machine c) (list_nodes_by_role "control")
unfolding control_machine_ids is_architecture
elem-control_machine_ids list_nodes_by_role c =
    elem-sorted c (collect_machines none (list_nodes_by_role "control") [])
    ∙ elem-collect_machines c none (list_nodes_by_role "control") []

reapply_by-completed :
    (t : ResultType) (skip : Result (Option String)) (given : Fields)
    (apply_tf : Fields → Option String) (waited : Option String) {tfvars : Fields}
    → (reapply_by t skip given apply_tf waited).0 ≡ some tfvars
    → (t ≡ ResultType.completed) × (given ≡ tfvars)
unfolding reapply_by
reapply_by-completed ResultType.completed skip given apply_tf waited h = (refl, cc)
reapply_by-completed ResultType.failed skip given apply_tf waited h = cc
reapply_by-completed ResultType.skipped skip given apply_tf waited h = cc

-- Where the reapply step gives variables to terraform, some machine runs MicroOVN, and the role distributor
-- is placed on one machine, on which a node for control runs.
pub reapply-placement :
    (list_nodes_by_role : String → List Node) (safe_dump : RoleMapping → String)
    (manifest : Manifest) (model model_uuid : String) (apply_tf : Fields → Option String)
    (waited : Option String) {tfvars : Fields}
    → (reapply list_nodes_by_role safe_dump manifest model model_uuid apply_tf waited).0
      ≡ some tfvars
    → (c : String) × (get_field "role_distributor_machine_ids" tfvars
        ≡ some (list (cons (str c) nil)))
      × (any (is_machine c) (list_nodes_by_role "control") ≡ true)
      × (get_machines list_nodes_by_role none ≢ [])
unfolding reapply deploy_is_skip extra_tfvars role_distributor_extra_tfvars items_of take_first
    get_field
reapply-placement list_nodes_by_role safe_dump manifest model model_uuid apply_tf waited {tfvars}
      h =
    let (done, same) = reapply_by-completed _ _ _ apply_tf waited h in
    let (c, rest, e, some_machine) =
      deploy_is_skip_of-completed (get_machines list_nodes_by_role none)
        (control_machine_ids list_nodes_by_role) done in
    let given =
      set_field "machine_model_uuid" (str model_uuid)
        (extra_tfvars list_nodes_by_role safe_dump manifest model) in
    let placed : get_field "role_distributor_machine_ids" given ≡ some (list (cons (str c) nil)) =
      rw
        (
          get_field-set_field "machine_model_uuid" "role_distributor_machine_ids" (str model_uuid)
              (extra_tfvars list_nodes_by_role safe_dump manifest model),
          e,
        )
        refl in
    let there : elem c (control_machine_ids list_nodes_by_role) ≡ true =
      rw e (ground (arith, eq_iff c c)) in
    (
      c,
      subst (λ f. get_field "role_distributor_machine_ids" f ≡ some (list (cons (str c) nil))) same
          placed,
      sym (elem-control_machine_ids list_nodes_by_role c) ∙ there,
      some_machine,
    )
