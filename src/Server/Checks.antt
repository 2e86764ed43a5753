-- ===== src/Server/Checks.antt =====
-- services/ingestion/server/server.go: the checks on a hello and on a batch. A check returns its
-- error, and none for success; a `do` block makes checks in turn and stops at the first error.
use kube_cost.Prelude.{
  ℕ, suc, ◌+◌, ◌-◌, ◌%◌, Bool, true, false, not, ◌&&◌, ◌||◌, Option, none, some, List, [], ◌∷◌,
  ◌++◌, ltb, ◌==◌, str_eq, if◌then◌else◌, length,
}
use kube_cost.Wire.{
  InventoryOperation, unspecified, upsert, delete, InventoryRecord, Payload, ObjectMetadata,
  cluster_inventory, node_inventory, namespace_inventory, deployment_inventory, pod_inventory,
  container_inventory, Observation, ObservationBatch, operation_of, uid_of, u64_mod, Codec,
  RecordError, operation_required, node_uid_required, namespace_uid_required,
  deployment_uid_required, pod_uid_required, container_required, BatchError, batch_id_required,
  no_observations, too_many_records, size_exceeds, invalid_range, count_mismatch,
  unexpected_sequence, no_event_id, no_payload, bad_record, checksum_mismatch, RejectionCode,
  invalid_record, too_large, RecordRejection, ProtocolVersion, AgentHello,
}
use kube_cost.Server.Config.{Config}

infixl 5 ◌>>◌
abbrev pub ◌>>◌ : {E : Type 0} → Option E → Option E → Option E
none >> k = k
some e >> k = some e

abbrev pub reject : {E : Type 0} → Bool → E → Option E
reject true e = some e
reject false e = none

pub data HelloError : Type 0 where
  tenant_required cluster_required instance_required : HelloError

unfoldable pub validate_hello : AgentHello → Option HelloError
validate_hello hello = do
  reject (str_eq hello.tenant_id "") tenant_required
  reject (str_eq hello.cluster_id "") cluster_required
  reject (str_eq hello.agent_instance_id "") instance_required

unfoldable pub supports_protocol : List ProtocolVersion → Bool
supports_protocol [] = false
supports_protocol (v ∷ vs) = v.major == 1 || supports_protocol vs

validate_operation : InventoryOperation → Option RecordError
validate_operation upsert = none
validate_operation delete = none
validate_operation unspecified = some operation_required

unfoldable pub validate_inventory_record : Option InventoryRecord → Option RecordError
unfolding validate_operation
validate_inventory_record r = validate_operation (operation_of r)

abbrev validate_object :
    Option InventoryRecord → Option ObjectMetadata → RecordError → Option RecordError
validate_object r metadata missing = do
  validate_inventory_record r
  reject (str_eq (uid_of metadata) "") missing

unfoldable pub validate_payload : Payload → Option RecordError
unfolding validate_inventory_record
validate_payload (cluster_inventory p) = validate_inventory_record p.inventory_record
validate_payload (node_inventory p) =
    validate_object p.inventory_record p.metadata node_uid_required
validate_payload (namespace_inventory p) =
    validate_object p.inventory_record p.metadata namespace_uid_required
validate_payload (deployment_inventory p) =
    validate_object p.inventory_record p.metadata deployment_uid_required
validate_payload (pod_inventory p) = validate_object p.inventory_record p.metadata pod_uid_required
validate_payload (container_inventory p) = do
  validate_inventory_record p.inventory_record
  reject (str_eq p.pod_uid "" || str_eq p.container_name "") container_required
validate_payload _ = none

-- `fmt.Errorf("observation %d: %w", …)`.
abbrev at_observation : ℕ → Option RecordError → Option BatchError
at_observation n none = none
at_observation n (some e) = some (bad_record n e)

unfoldable pub validate_observation : ℕ → Observation → Option BatchError
unfolding validate_payload
validate_observation expected o = do
  reject (not (o.sequence == expected)) (unexpected_sequence o.sequence expected)
  reject (str_eq o.event_id "") (no_event_id expected)
  elim o.payload [
    | none ↦ some (no_payload expected)
    | some p ↦ at_observation expected (validate_payload p)
  ]

-- The loop over the observations from place `index` on.
unfoldable pub validate_observations : ℕ → ℕ → List Observation → Option BatchError
validate_observations first index [] = none
validate_observations first index (o ∷ os) =
    validate_observation ((first + index) % u64_mod) o >> validate_observations first (suc index) os

-- What `hash.Write` is given: an observation that cannot be encoded is skipped.
unfoldable pub encoded : Codec → List Observation → List ℕ
encoded codec [] = []
encoded codec (o ∷ os) = elim (codec.marshal o) [
  | none ↦ encoded codec os
  | some bytes ↦ bytes ++ encoded codec os
]

unfoldable pub batch_checksum : Codec → List Observation → List ℕ
unfolding encoded
batch_checksum codec os = codec.sha256 (encoded codec os)

-- `bytes.Equal`.
unfoldable pub bytes_equal : List ℕ → List ℕ → Bool
bytes_equal [] [] = true
bytes_equal (x ∷ xs) (y ∷ ys) = x == y && bytes_equal xs ys
bytes_equal _ _ = false

-- `uint32(len(…))` and the sums on uint64 wrap.
unfoldable pub validate_batch : Codec → Config → ObservationBatch → Option BatchError
validate_batch codec config b = do
  reject (str_eq b.batch_id "") batch_id_required
  reject (length b.observations == 0) no_observations
  reject (ltb config.max_batch_records (length b.observations % 4294967296))
      (too_many_records (length b.observations) config.max_batch_records)
  reject (ltb config.max_batch_bytes (codec.size b)) (size_exceeds config.max_batch_bytes)
  reject (b.first_sequence == 0 || ltb b.last_sequence b.first_sequence) invalid_range
  reject (not (length b.observations == (b.last_sequence - b.first_sequence + 1) % u64_mod))
      count_mismatch
  validate_observations b.first_sequence 0 b.observations
  reject (not (bytes_equal b.payload_checksum (batch_checksum codec b.observations)))
      checksum_mismatch

-- Does the error's text contain "maximum"? The texts of the two limits do, and no other.
unfoldable pub rejection_code : BatchError → RejectionCode
rejection_code (too_many_records count limit) = too_large
rejection_code (size_exceeds limit) = too_large
rejection_code _ = invalid_record

rejection : RejectionCode → BatchError → ℕ → RecordRejection
rejection code detail s = record { sequence = s; code = code; detail = detail; retryable = false }

unfoldable pub rejections : RejectionCode → BatchError → List Observation → List RecordRejection
unfolding rejection
rejections code detail [] = []
rejections code detail (o ∷ os) = rejection code detail o.sequence ∷ rejections code detail os

unfoldable pub rejections_for_batch :
    ObservationBatch → RejectionCode → BatchError → List RecordRejection
unfolding rejections
rejections_for_batch b code detail =
    if length b.observations == 0
    then rejection code detail b.first_sequence ∷ []
    else rejections code detail b.observations
