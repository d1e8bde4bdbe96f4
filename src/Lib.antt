-- ===== src/Lib.antt =====
-- Sunbeam, the command line of the OpenStack snap (sunbeam-python/sunbeam): the parts of it that decide
-- something by themselves, modelled as functions, and what holds of them.
--
-- A command of Sunbeam is a plan: a list of steps that `run_plan` runs one after the other. Steps ask
-- questions, read the manifest of the deployment, and compute the variables of terraform plans from the
-- manifest, from what an earlier run stored in clusterd and from values of their own. Feature gates
-- decide which commands, options and roles a user sees; they are written to clusterd when the snap is
-- configured.
--
--   Plan         core/common.py: Result, BaseStep, run_plan, get_step_result, get_step_message
--   Value        the values of YAML and JSON documents
--   Dict         dictionaries as association lists in the order of insertion
--   Merge        utils.py: merge_dict
--   Config       core/common.py: read_config, update_config
--   Manifest     core/manifest.py: the models, their merge and validation, find_charm, get_feature
--   Tfvars       core/terraform.py: update_tfvars, update_partial_tfvars_and_apply_tf and the helpers
--   Storage      core/manifest.py: load_stored_tfvars, check_storage_modifications_in_manifest,
--                AddManifestStep
--   Gates        feature_gates.py; Gates/Sync hooks.py: sync_feature_gates_from_snap_to_cluster;
--                Gates/Listing feature_manager.py: list_feature_gates
--   Hooks        hooks.py: _update_default_config, configure
--   Question     core/questions.py: Question.ask, calculate_default, QuestionBank
--   Hostnames    utils.py: hostnames_match, match_hostname
--   Deployments  core/deployments.py: DeploymentsConfig
--   Status       core/common.py: _UpdateStatusThread
--   Risk         core/common.py: RiskLevel, infer_risk, Role, validate_roles
--
--   Features     features/interface/v1/base.py: EnableDisableFeature.enable_feature, disable_feature and the
--                checks of requirements; features/loadbalancer/feature.py: get_requirements
--   Pci          devspec.py; Pci/Nics provider/common/nic_utils.py
--   Ovn          core/ovn.py; Ovn/Mapping core/role_assignments.py; Ovn/Distributor
--                steps/role_distributor.py
--   Watcher      core/watcher.py: create_audit, exec_audit, wait_until_action_state
--   Maintenance  features/maintenance/utils.py: OperationViewer; Maintenance/Resolve
--                features/maintenance/resolve.py: ResolvedNode
--   Topology     provider/maas/steps.py: DeploymentTopologyCheck, DeploymentMachinesCheck and the
--                checks that they run
--
-- (all paths from sunbeam-python/sunbeam). A function of the model has the name of the function in the
-- code, or of what a part of it does. A method that changes its object returns the new one. A function
-- that may raise returns an `Outcome`, whose exceptions are the classes that the code raises or catches;
-- the text of a message is kept only where the program reads it. Log and terminal output are left out.
--
-- Parameters stand for code that is not in the repository or is not modelled: the methods of a step and
-- the world that they act on (Plan), what pydantic answers when a model is built (Manifest), the snap's
-- configuration and the cluster's gates (Gates, Hooks), the prompt and the validation of a question (Question),
-- the write of a file (Deployments), the letter case of texts and the order of a set (Risk), what a call finds of
-- the requirements, checks, configurations and plans of the features and the comparison of versions (Features), regular expressions (Pci), the nodes of the cluster
-- (Ovn), what juju, clusterd, nova and Kubernetes list (Maintenance), and the answers of Watcher at each
-- attempt, of which the retry policy says how many there are (Watcher), and whether external controllers of
-- juju are registered (Topology). The gates of a cluster come with
-- laws, `IsGateClient`: a gate can be read back after it was added or updated. The samples show a table
-- that has them.
--
-- Loops run over lists and end with them. `ask` calls itself as often as the user enters an invalid
-- answer; its fuel is Python's bound on nested calls, and without fuel it raises RecursionError as Python
-- does; `enable_feature` calls itself for the features that are required, and its fuel bounds how deep:
-- where these have lower ranks, more fuel than the rank of the feature is enough (Features/Depth). Python
-- bounds all nested calls, of which each of these has several. The loop of the status thread runs over what the thread sees, one entry for each turn.
--
-- Not modelled: floating-point numbers in documents; the printing of tables, hints and preseed files; the
-- runs of terraform, juju and Kubernetes; the providers, but for the checks of Topology;
-- the single features; clusterd itself.
mod Prelude
pub mod Dict
pub mod Plan
pub mod Value
pub mod Merge
pub mod Config
pub mod Manifest
pub mod Tfvars
pub mod Storage
pub mod Gates
pub mod Hooks
pub mod Question
pub mod Hostnames
pub mod Deployments
pub mod Status
pub mod Risk
pub mod Pci
pub mod Watcher
pub mod Ovn
pub mod Maintenance
pub mod Features
pub mod Topology
