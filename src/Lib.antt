-- ===== src/Lib.antt =====
-- The product controller of the MPAS system, as a verification library.
--
-- The program is a set of Kubernetes controllers. A product deployment names pipelines; its
-- controller creates a component version, a config map with the values, and one pipeline object for
-- each pipeline. The generator makes such a product deployment from the product description of a
-- component version, which it reads with the OCM client, and requests a sync of it to the project's
-- repository and a validation. The pipeline controller localizes and configures the resource of a
-- pipeline and publishes the name of the snapshot. The scheduler waits for that snapshot, selects a target and
-- has it deployed by the chain of deployers. The target controller prepares namespaces and service
-- accounts. The validation controller checks the values of a pull request and reports through the
-- chain of validators.
--
-- How code and model correspond:
--   Base          lists, texts and Boolean tests on the native numbers
--   Kube          errors and results; actions, the form of every Go method (a state of the object in
--                 memory and the log of calls, with errors and nil dereferences as outcomes);
--                 conditions; CreateOrUpdate
--   Api, Git      api/v1alpha1, and what is read of git-controller's objects
--   Scheduler     controllers/productdeploymentpipeline_scheduler.go (Reconcile.reconcile) and
--                 controllers/select_target.go (Select.select_target)
--   Deployer      pkg/deployers/deployer.go, pkg/deployers/kubernetes/kubernetes.go (deploy)
--   Pipeline      controllers/productdeploymentpipeline_controller.go (Reconcile.reconcile,
--                 Localization, Configuration)
--   Deployment    controllers/productdeployment_controller.go (Reconcile.reconcile, Pipelines,
--                 ConfigMaps)
--   Generating    controllers/productdeploymentgenerator_controller.go (Reconcile.reconcile,
--                 Gate.should_run, Pipelines, Product, Snapshots, Syncs, Headers, Watch); what a
--                 run leaves stands in Stopped, Encoded, Written, Made and Applied
--   ConfigFile    its function fetchExistingConfigFile (fetch_existing_config_file)
--   Cue           internal/cue/cue.go (Private.remove_private_fields; File: new_file, eval,
--                 eval_without_private_fields, unify_all, validate, vet; Delta, Defaults, Merge)
--   Ocm           pkg/ocm/ocm.go (create_authenticated_ocm_context, get_component_version,
--                 get_product_description, get_resource_data)
--   Validating    controllers/validation_controller.go (Reconcile.reconcile, Gate.should_run,
--                 Tracking)
--   Targeting     controllers/target_controller.go (Reconcile.reconcile, Status.set_status, Access,
--                 Pulls)
--   Validators    pkg/validators, github and gitea (Chain, Hosts)
--   Download      controllers/fetch_values_file_content.go (fetch_values_file_content)
--   Inventory     controllers/fetch_git_repository_from_project.go
--   Project       controllers/get_project_in_namespace.go
--   Subscription  controllers/component_subscription_version_predicate.go
--   Lifecycle     the runs of the pipeline controller and of the scheduler on one object, as steps
--   Fixtures      objects of the tests, which stand beside each part in a module Tests
--
-- A method is an action on a session: the object and the calls made so far, the latest first. Each
-- part has a record Env with one function for each thing outside: the API server answers a call from
-- the log of the calls before it, so its answers may change in time. The behaviour of the library of
-- conditions is the record ConditionLaws, which Kube.Sample meets. CreateOrUpdate is known by its
-- contract: it hands the callback the object of the cluster or the given one, and writes what the
-- callback has made of it, unless that leaves the object of the cluster as it was; what is used of
-- the objects that it finds is the record ObjectLaws. Logging has no effect. Loops are recursions on their lists; the decimal
-- notation of a number is computed on fuel that exceeds its digits.
--
-- The functions of internal/cue that go down into structs take fuel, Merge's for the depth of the
-- schema and the removal of private fields for that of the structs; for the removal it is a theorem
-- that fuel above the depth is enough. A path that is built by append is a value of its own there,
-- though in Go two such paths may share their array.
--
-- Not modelled: generated code, the entry of the program, and the registration of the controllers
-- with their watches. Generating, Deployment, ConfigFile and Validating take the answers of
-- internal/cue as arguments, which Cue describes.
pub mod Base
pub mod Kube
pub mod Api
pub mod Git
pub mod Fixtures
pub mod Inventory
pub mod Subscription
pub mod Project
pub mod Scheduler
pub mod ConfigFile
pub mod Ocm
pub mod Cue
pub mod Deployer
pub mod Pipeline
pub mod Deployment
pub mod Validating
pub mod Targeting
pub mod Validators
pub mod Download
pub mod Generating
pub mod Lifecycle
