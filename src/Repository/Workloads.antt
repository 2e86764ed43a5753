-- ===== src/Repository/Workloads.antt =====
-- services/ingestion/persistence/repository.go: the rows of deployments, pods and containers.
use kube_cost.Prelude.{◌||◌, String, List, [], ◌∷◌, str_eq, if◌then◌else◌}
use kube_cost.Wire.{
  metadata_of, DeploymentInventory, PodInventory, ContainerInventory, deployment_uid_required,
  pod_uid_required, container_required,
}
use kube_cost.Repository.Values.{
  Library, text, uuid, number, instant, labels, null, first_non_empty, promoted_dimensions,
  nullable_time, non_negative, gpu_milli, cpu_of, memory_of, gpus_of,
}
use kube_cost.Repository.Mapped.{Mapped, row, invalid, bad, RowBase, with_operation}

abbrev deployment_columns : List String
deployment_columns =
    "tenant_id" ∷ "cluster_id" ∷ "namespace_uid" ∷ "deployment_uid" ∷ "namespace_name"
    ∷ "deployment_name" ∷ "desired_replicas" ∷ "available_replicas" ∷ "strategy" ∷ "team"
    ∷ "project" ∷ "environment" ∷ "cost_center" ∷ "labels" ∷ "operation" ∷ "valid_from" ∷ "valid_to"
    ∷ "observed_at" ∷ "event_id" ∷ "version" ∷ []

unfoldable pub map_deployment : Library → RowBase → DeploymentInventory → Mapped
map_deployment lib base inventory = with_operation inventory.inventory_record λ operation.
    let metadata = metadata_of inventory.metadata in
    let dimensions = promoted_dimensions lib metadata.labels in
    if str_eq metadata.uid ""
    then invalid (bad deployment_uid_required)
    else row (record {
      table = "deployment";
      columns = deployment_columns;
      cells =
          text base.tenant_id
          ∷ text base.cluster_id
          ∷ text (first_non_empty lib (inventory.namespace_uid ∷ metadata.namespace ∷ []))
          ∷ text metadata.uid
          ∷ text metadata.namespace
          ∷ text metadata.name
          ∷ number (non_negative inventory.desired_replicas)
          ∷ number (non_negative inventory.available_replicas)
          ∷ text inventory.strategy
          ∷ text dimensions.team
          ∷ text dimensions.project
          ∷ text dimensions.environment
          ∷ text dimensions.cost_center
          ∷ labels metadata.labels
          ∷ text operation
          ∷ instant base.observed_at
          ∷ null
          ∷ instant base.observed_at
          ∷ uuid base.event_id
          ∷ number base.version
          ∷ [];
    })

abbrev pod_columns : List String
pod_columns =
    "tenant_id" ∷ "cluster_id" ∷ "namespace_uid" ∷ "deployment_uid" ∷ "pod_uid" ∷ "node_uid"
    ∷ "namespace_name" ∷ "deployment_name" ∷ "pod_name" ∷ "phase" ∷ "qos_class" ∷ "owner_kind"
    ∷ "owner_uid" ∷ "scheduled_at" ∷ "started_at" ∷ "finished_at" ∷ "labels" ∷ "operation"
    ∷ "valid_from" ∷ "valid_to" ∷ "observed_at" ∷ "event_id" ∷ "version" ∷ []

unfoldable pub map_pod : Library → RowBase → PodInventory → Mapped
map_pod lib base inventory = with_operation inventory.inventory_record λ operation.
    let metadata = metadata_of inventory.metadata in
    if str_eq metadata.uid ""
    then invalid (bad pod_uid_required)
    else row (record {
      table = "pod";
      columns = pod_columns;
      cells =
          text base.tenant_id
          ∷ text base.cluster_id
          ∷ text (first_non_empty lib (inventory.namespace_uid ∷ metadata.namespace ∷ []))
          ∷ text inventory.workload_uid
          ∷ text metadata.uid
          ∷ text inventory.node_uid
          ∷ text metadata.namespace
          ∷ text ""
          ∷ text metadata.name
          ∷ text inventory.phase
          ∷ text inventory.qos_class
          ∷ text inventory.workload_kind
          ∷ text inventory.workload_uid
          ∷ nullable_time lib inventory.scheduled_at
          ∷ nullable_time lib inventory.started_at
          ∷ nullable_time lib metadata.deleted_at
          ∷ labels metadata.labels
          ∷ text operation
          ∷ instant base.observed_at
          ∷ null
          ∷ instant base.observed_at
          ∷ uuid base.event_id
          ∷ number base.version
          ∷ [];
    })

abbrev container_columns : List String
container_columns =
    "tenant_id" ∷ "cluster_id" ∷ "namespace_uid" ∷ "deployment_uid" ∷ "pod_uid" ∷ "owner_kind"
    ∷ "owner_uid" ∷ "container_name" ∷ "container_id" ∷ "image" ∷ "image_id" ∷ "restart_count"
    ∷ "cpu_request_millicores" ∷ "cpu_limit_millicores" ∷ "memory_request_bytes"
    ∷ "memory_limit_bytes" ∷ "gpu_request_milli" ∷ "operation" ∷ "valid_from" ∷ "valid_to"
    ∷ "observed_at" ∷ "event_id" ∷ "version" ∷ []

unfoldable pub map_container : Library → RowBase → ContainerInventory → Mapped
map_container lib base inventory = with_operation inventory.inventory_record λ operation.
    if str_eq inventory.pod_uid "" || str_eq inventory.container_name ""
    then invalid (bad container_required)
    else row (record {
      table = "container";
      columns = container_columns;
      cells =
          text base.tenant_id
          ∷ text base.cluster_id
          ∷ text (first_non_empty lib (inventory.namespace_uid ∷ inventory.namespace ∷ []))
          ∷ text inventory.workload_uid
          ∷ text inventory.pod_uid
          ∷ text inventory.workload_kind
          ∷ text inventory.workload_uid
          ∷ text inventory.container_name
          ∷ text inventory.container_id
          ∷ text inventory.image
          ∷ text inventory.image_id
          ∷ number (non_negative inventory.restart_count)
          ∷ number (non_negative (cpu_of inventory.requests))
          ∷ number (non_negative (cpu_of inventory.limits))
          ∷ number (non_negative (memory_of inventory.requests))
          ∷ number (non_negative (memory_of inventory.limits))
          ∷ number (gpu_milli (gpus_of inventory.requests))
          ∷ text operation
          ∷ instant base.observed_at
          ∷ null
          ∷ instant base.observed_at
          ∷ uuid base.event_id
          ∷ number base.version
          ∷ [];
    })
