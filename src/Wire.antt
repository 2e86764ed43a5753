-- ===== src/Wire.antt =====
-- The messages of the agent's stream: proto/cost/v1/agent/agent.proto and inventory.proto.
-- An opaque text stands for a message that the modelled code does not read. A pointer that may be
-- nil is an `Option`. Instants and durations are numbers.
pub mod Objects
use kube_cost.Prelude.{ℕ, String, Bool, Option, List}
pub use kube_cost.Wire.Objects.{
  InventoryOperation, unspecified, upsert, delete, ℤ, pos, negsuc, InventoryRecord, ObjectReference,
  Labels, ObjectMetadata, ResourceValues, ClusterInventory, NodeInventory, NamespaceInventory,
  DeploymentInventory, PodInventory, ContainerInventory, operation_of, metadata_of, uid_of,
}

pub data Payload : Type 0 where
  cluster_inventory : ClusterInventory → Payload
  node_inventory : NodeInventory → Payload
  namespace_inventory : NamespaceInventory → Payload
  deployment_inventory : DeploymentInventory → Payload
  pod_inventory : PodInventory → Payload
  container_inventory : ContainerInventory → Payload
  node_metrics container_metrics gpu_metrics : String → Payload
  kubernetes_event karpenter_event inventory_snapshot_marker : String → Payload

pub record Observation : Type 0 where
  pub sequence : ℕ  -- uint64
  pub event_id : String
  pub observed_at : Option ℕ
  pub collected_at : Option ℕ
  pub source_resource_version : String
  pub payload : Option Payload

pub record ObservationBatch : Type 0 where
  pub batch_id : String
  pub first_sequence : ℕ  -- uint64
  pub last_sequence : ℕ  -- uint64
  pub created_at : ℕ
  pub payload_checksum : List ℕ
  pub observations : List Observation

pub record SequenceRange : Type 0 where
  pub first_sequence : ℕ
  pub last_sequence : ℕ

-- Arithmetic on uint64.
abbrev pub u64_mod : ℕ
u64_mod = 18446744073709551616

-- What the program takes from protobuf, SHA-256, encoding/hex and fmt: `Marshal` (none is its
-- error) and `Size` of a message, the digest, and texts built from them.
pub record Codec : Type 0 where
  pub marshal : Observation → Option (List ℕ)
  pub size : ObservationBatch → ℕ
  pub sha256 : List ℕ → List ℕ
  pub hex : List ℕ → String
  pub bytes : String → List ℕ
  -- `Sprintf("%s-%d-%d", cluster, first, last)`
  pub batch_name : String → ℕ → ℕ → String
  -- `Sprintf("%s:%d:%s", key, sequence, now)`, as bytes
  pub fallback : String → ℕ → ℕ → List ℕ

pub record ProtocolVersion : Type 0 where
  pub major : ℕ  -- uint32
  pub minor : ℕ  -- uint32

pub record AgentHello : Type 0 where
  pub tenant_id : String
  pub cluster_id : String
  pub agent_instance_id : String
  pub supported_protocol_versions : List ProtocolVersion
  pub resume_after_sequence : ℕ  -- uint64
  pub rest : String

pub record ServerHello : Type 0 where
  pub session_id : String
  pub selected_protocol_version : Option ProtocolVersion
  pub accepted_through_sequence : ℕ  -- uint64
  pub max_batch_records : ℕ  -- uint32
  pub max_batch_bytes : ℕ  -- uint64
  pub heartbeat_interval : ℕ

pub data RejectionCode : Type 0 where
  rejection_unspecified invalid_record unsupported_payload unsupported_version : RejectionCode
  identity_mismatch too_old too_large internal : RejectionCode

-- Why the ingestion service refuses a record: the texts of `validateInventoryObservation`.
pub data RecordError : Type 0 where
  operation_required node_uid_required namespace_uid_required : RecordError
  deployment_uid_required pod_uid_required container_required : RecordError

-- The errors of `validateBatch`, with the values that their texts show.
pub data BatchError : Type 0 where
  batch_id_required no_observations : BatchError
  too_many_records : ℕ → ℕ → BatchError
  size_exceeds : ℕ → BatchError
  invalid_range count_mismatch : BatchError
  unexpected_sequence : ℕ → ℕ → BatchError
  no_event_id no_payload : ℕ → BatchError
  bad_record : ℕ → RecordError → BatchError
  checksum_mismatch : BatchError

pub record RecordRejection : Type 0 where
  pub sequence : ℕ  -- uint64
  pub code : RejectionCode
  pub detail : BatchError
  pub retryable : Bool

-- `acknowledged_at` is not kept.
pub record BatchAcknowledgement : Type 0 where
  pub batch_id : String
  pub received_through_sequence : ℕ  -- uint64
  pub persisted_through_sequence : ℕ  -- uint64
  pub retry_ranges : List SequenceRange
  pub rejections : List RecordRejection

pub record FlowControl : Type 0 where
  pub retry_after : Option ℕ
  pub max_in_flight_batches : ℕ
  pub reason : String

-- What the service sends.
pub data ServerFrame : Type 0 where
  hello : ServerHello → ServerFrame
  acknowledgement : BatchAcknowledgement → ServerFrame
  configuration : String → ServerFrame
  flow_control : FlowControl → ServerFrame
  stream_error : String → ServerFrame

-- What the agent sends; `empty` is a frame with no payload that the service knows.
pub data AgentFrame : Type 0 where
  agent_hello : AgentHello → AgentFrame
  batch : ObservationBatch → AgentFrame
  heartbeat : ℕ → ℕ → AgentFrame
  empty : AgentFrame
