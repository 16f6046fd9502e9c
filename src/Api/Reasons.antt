-- ===== src/Api/Reasons.antt =====
-- The condition reasons of api/v1alpha1/condition_types.go.
use mpas_product_controller.Base.{String}

abbrev pub component_subscription_get_failed : String
component_subscription_get_failed = "ComponentSubscriptionGetFailed"

abbrev pub component_subscription_not_ready : String
component_subscription_not_ready = "ComponentSubscriptionNotReady"

abbrev pub semver_parse_failed : String
semver_parse_failed = "SemverParseFailed"

abbrev pub project_in_namespace_get_failed : String
project_in_namespace_get_failed = "ProjectInNamespaceGetFailed"

abbrev pub project_not_ready : String
project_not_ready = "ProjectNotReady"

abbrev pub repository_information_missing : String
repository_information_missing = "RepositoryInformationMissing"

abbrev pub component_version_get_failed : String
component_version_get_failed = "ComponentVersionGetFailed"

abbrev pub ocm_authentication_failed : String
ocm_authentication_failed = "OCMAuthenticationFailed"

abbrev pub product_description_get_failed : String
product_description_get_failed = "ProductDescriptionGetFailed"

abbrev pub temporary_folder_generation_failed : String
temporary_folder_generation_failed = "TemporaryFolderGenerationFailed"

abbrev pub create_product_pipeline_failed : String
create_product_pipeline_failed = "CreateProductPipelineFailed"

abbrev pub product_pipeline_scheduling_failed : String
product_pipeline_scheduling_failed = "ProductPipelineSchedulingFailed"

abbrev pub create_sync_failed : String
create_sync_failed = "CreateSyncFailed"

abbrev pub create_validation_failed : String
create_validation_failed = "CreateValidationFailed"

abbrev pub create_snapshot_failed : String
create_snapshot_failed = "CreateSnapshotFailed"

abbrev pub commit_template_empty : String
commit_template_empty = "CommitTemplateEmpty"

abbrev pub create_component_version_failed : String
create_component_version_failed = "CreateComponentVersionFailed"

abbrev pub create_localization_failed : String
create_localization_failed = "CreateLocalizationFailed"

abbrev pub create_configuration_failed : String
create_configuration_failed = "CreateConfigurationFailed"

abbrev pub create_oci_repository_failed : String
create_oci_repository_failed = "CreateOCIRepositoryFailed"

abbrev pub pipeline_deployment_failed : String
pipeline_deployment_failed = "PipelineDeploymentFailed"

abbrev pub pipeline_target_selection_failed : String
pipeline_target_selection_failed = "PipelineTargetSelectionFailed"

abbrev pub validation_failed : String
validation_failed = "ValidationFailed"

abbrev pub schema_generation_failed : String
schema_generation_failed = "SchemaGenerationFailed"

abbrev pub git_repository_clean_up_failed : String
git_repository_clean_up_failed = "GitRepositoryCleanUpFailed"

abbrev pub namespace_create_or_update_failed : String
namespace_create_or_update_failed = "NamespaceCreateOrUpdateFailed"

abbrev pub secret_retrieval_failed : String
secret_retrieval_failed = "SecretRetrievalFailed"

abbrev pub service_account_create_or_update_failed : String
service_account_create_or_update_failed = "ServiceAccountCreateOrUpdateFailed"

abbrev pub access_invalid : String
access_invalid = "AccessInvalid"

abbrev pub create_config_map_failed : String
create_config_map_failed = "CreateConfigMapFailed"

abbrev pub deployed_condition : String
deployed_condition = "Deployed"
