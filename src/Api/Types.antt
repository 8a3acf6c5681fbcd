-- ===== src/Api/Types.antt =====
-- The structs and constants of api/kubeapplier (types_*.go, conditions.go).
use rosa_hyperfleet_kube_app.Prelude.{ℕ, String, Option, List}

pub record ResourceReference : Type 0 where
  pub group : String
  pub version : String
  pub resource : String
  pub namespace : String
  pub name : String

-- runtime.RawExtension, of which the program uses the field Raw.
pub record RawExtension : Type 0 where
  pub raw : String

pub record ServerSideApplyConfig : Type 0 where
  pub kube_content : Option RawExtension

abbrev pub apply_desire_type_server_side_apply : String
apply_desire_type_server_side_apply = "ServerSideApply"

abbrev pub apply_desire_type_delete : String
apply_desire_type_delete = "Delete"

pub record ApplyDesireSpec : Type 0 where
  pub management_cluster : String
  pub cluster_id : String
  pub node_pool_name : String
  pub type : String
  pub target_item : ResourceReference
  pub server_side_apply : Option ServerSideApplyConfig

-- metav1.Condition, of which the program sets all but the transition time.
pub record Condition : Type 0 where
  pub type : String
  pub status : String
  pub reason : String
  pub message : String
  pub last_transition_time : ℕ

abbrev pub condition_type_successful : String
condition_type_successful = "Successful"

abbrev pub condition_type_degraded : String
condition_type_degraded = "Degraded"

abbrev pub condition_reason_kube_api_error : String
condition_reason_kube_api_error = "KubeAPIError"

abbrev pub condition_reason_pre_check_failed : String
condition_reason_pre_check_failed = "PreCheckFailed"

abbrev pub condition_reason_waiting_for_deletion : String
condition_reason_waiting_for_deletion = "WaitingForDeletion"

abbrev pub condition_reason_no_errors : String
condition_reason_no_errors = "NoErrors"

abbrev pub condition_reason_failed : String
condition_reason_failed = "Failed"

pub record ApplyDesireStatus : Type 0 where
  pub conditions : List Condition
  pub observed_desire_update_time : ℕ
  pub applied_resource_generation : ℕ

pub record DynamoDbMetadata : Type 0 where
  pub document_id : String
  pub version : ℕ
  pub update_time : ℕ
  pub create_time : ℕ

pub record ApplyDesire : Type 0 where
  pub metadata : DynamoDbMetadata
  pub spec : ApplyDesireSpec
  pub status : ApplyDesireStatus

pub record ReadDesireSpec : Type 0 where
  pub management_cluster : String
  pub cluster_id : String
  pub node_pool_name : String
  pub target_item : ResourceReference

pub record ReadDesireStatus : Type 0 where
  pub conditions : List Condition
  pub observed_desire_update_time : ℕ
  pub kube_content : Option RawExtension

pub record ReadDesire : Type 0 where
  pub metadata : DynamoDbMetadata
  pub spec : ReadDesireSpec
  pub status : ReadDesireStatus
