-- ===== src/Wire/Objects.antt =====
-- The Kubernetes objects in the messages: proto/cost/v1/agent/inventory.proto.
use kube_cost.Prelude.{ℕ, String, Bool, Option, List}

pub data InventoryOperation : Type 0 where
  unspecified upsert delete : InventoryOperation

-- A signed integer, as in the library: `negsuc n` is `-(n + 1)`.
pub data ℤ : Type 0 where
  pos negsuc : ℕ → ℤ

pub record InventoryRecord : Type 0 where
  pub operation : InventoryOperation
  pub snapshot_id : String
  pub snapshot_record : Bool

pub record ObjectReference : Type 0 where
  pub api_version : String
  pub kind : String
  pub namespace : String
  pub name : String
  pub uid : String

abbrev pub Labels : Type 0
Labels = List (String × String)

pub record ObjectMetadata : Type 0 where
  pub uid : String
  pub name : String
  pub namespace : String
  pub labels : Labels
  pub annotations : Labels
  pub created_at : Option ℕ
  pub deleted_at : Option ℕ
  pub owner_references : List ObjectReference

-- int64
pub record ResourceValues : Type 0 where
  pub cpu_millicores : Option ℤ
  pub memory_bytes : Option ℤ
  pub ephemeral_storage_bytes : Option ℤ
  pub gpu_count : Option ℤ
  pub extended_resources : Labels

pub record ClusterInventory : Type 0 where
  pub inventory_record : Option InventoryRecord
  pub cluster_uid : String
  pub name : String
  pub kubernetes_version : String
  pub provider : String
  pub region : String
  pub account_id : String
  pub labels : Labels

pub record NodeInventory : Type 0 where
  pub inventory_record : Option InventoryRecord
  pub metadata : Option ObjectMetadata
  pub provider_id : String
  pub instance_type : String
  pub architecture : String
  pub operating_system : String
  pub region : String
  pub zone : String
  pub capacity_type : String
  pub capacity : Option ResourceValues
  pub allocatable : Option ResourceValues
  pub schedulable : Bool
  pub taints : List String
  pub karpenter_node_claim_uid : String
  pub karpenter_node_pool : String

pub record NamespaceInventory : Type 0 where
  pub inventory_record : Option InventoryRecord
  pub metadata : Option ObjectMetadata
  pub phase : String

-- The replicas are int32.
pub record DeploymentInventory : Type 0 where
  pub inventory_record : Option InventoryRecord
  pub metadata : Option ObjectMetadata
  pub desired_replicas : ℤ
  pub available_replicas : ℤ
  pub selector : String
  pub strategy : String
  pub namespace_uid : String

pub record PodInventory : Type 0 where
  pub inventory_record : Option InventoryRecord
  pub metadata : Option ObjectMetadata
  pub node_name : String
  pub node_uid : String
  pub phase : String
  pub qos_class : String
  pub service_account_name : String
  pub priority_class_name : String
  pub workload_kind : String
  pub workload_uid : String
  pub scheduled_at : Option ℕ
  pub started_at : Option ℕ
  pub namespace_uid : String

-- The count of restarts is an int32.
pub record ContainerInventory : Type 0 where
  pub inventory_record : Option InventoryRecord
  pub pod_uid : String
  pub namespace : String
  pub pod_name : String
  pub container_name : String
  pub container_id : String
  pub image : String
  pub image_id : String
  pub requests : Option ResourceValues
  pub limits : Option ResourceValues
  pub restart_count : ℤ
  pub init_container : Bool
  pub started_at : Option ℕ
  pub finished_at : Option ℕ
  pub namespace_uid : String
  pub workload_kind : String
  pub workload_uid : String

-- `GetRecord().GetOperation()`: a nil message has the zero value in each field.
abbrev pub operation_of : Option InventoryRecord → InventoryOperation
operation_of (Option.none) = unspecified
operation_of (Option.some r) = r.operation

abbrev empty_metadata : ObjectMetadata
empty_metadata = record {
  uid = "";
  name = "";
  namespace = "";
  labels = List.[];
  annotations = List.[];
  created_at = Option.none;
  deleted_at = Option.none;
  owner_references = List.[];
}

-- `GetMetadata()`, whose getters read the zero values of a nil message.
abbrev pub metadata_of : Option ObjectMetadata → ObjectMetadata
metadata_of (Option.none) = empty_metadata
metadata_of (Option.some m) = m

abbrev pub uid_of : Option ObjectMetadata → String
uid_of m = (metadata_of m).uid
