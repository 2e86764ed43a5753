-- ===== src/Repository/Nodes.antt =====
-- services/ingestion/persistence/repository.go: the rows of clusters, nodes and namespaces.
use kube_cost.Prelude.{String, List, [], ◌∷◌, str_eq, if◌then◌else◌}
use kube_cost.Wire.{
  metadata_of, ClusterInventory, NodeInventory, NamespaceInventory, node_uid_required,
  namespace_uid_required,
}
use kube_cost.Repository.Values.{
  Library, text, uuid, number, instant, labels, null, promoted_dimensions, non_negative, gpu_milli,
  cpu_of, memory_of, gpus_of,
}
use kube_cost.Repository.Mapped.{Mapped, row, invalid, bad, RowBase, with_operation}

abbrev cluster_columns : List String
cluster_columns =
    "tenant_id" ∷ "cluster_id" ∷ "cluster_name" ∷ "provider" ∷ "account_id" ∷ "region"
    ∷ "kubernetes_version" ∷ "labels" ∷ "operation" ∷ "valid_from" ∷ "valid_to" ∷ "observed_at"
    ∷ "event_id" ∷ "version" ∷ []

unfoldable pub map_cluster : Library → RowBase → ClusterInventory → Mapped
map_cluster lib base inventory = with_operation inventory.inventory_record λ operation.
    row (record {
      table = "cluster";
      columns = cluster_columns;
      cells =
          text base.tenant_id
          ∷ text base.cluster_id
          ∷ text inventory.name
          ∷ text inventory.provider
          ∷ text inventory.account_id
          ∷ text inventory.region
          ∷ text inventory.kubernetes_version
          ∷ labels inventory.labels
          ∷ text operation
          ∷ instant base.observed_at
          ∷ null
          ∷ instant base.observed_at
          ∷ uuid base.event_id
          ∷ number base.version
          ∷ [];
    })

abbrev node_columns : List String
node_columns =
    "tenant_id" ∷ "cluster_id" ∷ "node_uid" ∷ "node_name" ∷ "provider_id" ∷ "instance_type"
    ∷ "architecture" ∷ "operating_system" ∷ "region" ∷ "zone" ∷ "purchase_option"
    ∷ "capacity_cpu_millicores" ∷ "allocatable_cpu_millicores" ∷ "capacity_memory_bytes"
    ∷ "allocatable_memory_bytes" ∷ "capacity_gpu_milli" ∷ "labels" ∷ "operation" ∷ "valid_from"
    ∷ "valid_to" ∷ "observed_at" ∷ "event_id" ∷ "version" ∷ []

unfoldable pub map_node : Library → RowBase → NodeInventory → Mapped
map_node lib base inventory = with_operation inventory.inventory_record λ operation.
    let metadata = metadata_of inventory.metadata in
    if str_eq metadata.uid ""
    then invalid (bad node_uid_required)
    else row (record {
      table = "node";
      columns = node_columns;
      cells =
          text base.tenant_id
          ∷ text base.cluster_id
          ∷ text metadata.uid
          ∷ text metadata.name
          ∷ text inventory.provider_id
          ∷ text inventory.instance_type
          ∷ text inventory.architecture
          ∷ text inventory.operating_system
          ∷ text inventory.region
          ∷ text inventory.zone
          ∷ text inventory.capacity_type
          ∷ number (non_negative (cpu_of inventory.capacity))
          ∷ number (non_negative (cpu_of inventory.allocatable))
          ∷ number (non_negative (memory_of inventory.capacity))
          ∷ number (non_negative (memory_of inventory.allocatable))
          ∷ number (gpu_milli (gpus_of inventory.capacity))
          ∷ labels metadata.labels
          ∷ text operation
          ∷ instant base.observed_at
          ∷ null
          ∷ instant base.observed_at
          ∷ uuid base.event_id
          ∷ number base.version
          ∷ [];
    })

abbrev namespace_columns : List String
namespace_columns =
    "tenant_id" ∷ "cluster_id" ∷ "namespace_uid" ∷ "namespace_name" ∷ "phase" ∷ "team" ∷ "project"
    ∷ "environment" ∷ "cost_center" ∷ "labels" ∷ "operation" ∷ "valid_from" ∷ "valid_to"
    ∷ "observed_at" ∷ "event_id" ∷ "version" ∷ []

unfoldable pub map_namespace : Library → RowBase → NamespaceInventory → Mapped
map_namespace lib base inventory = with_operation inventory.inventory_record λ operation.
    let metadata = metadata_of inventory.metadata in
    let dimensions = promoted_dimensions lib metadata.labels in
    if str_eq metadata.uid ""
    then invalid (bad namespace_uid_required)
    else row (record {
      table = "namespace";
      columns = namespace_columns;
      cells =
          text base.tenant_id
          ∷ text base.cluster_id
          ∷ text metadata.uid
          ∷ text metadata.name
          ∷ text inventory.phase
          ∷ text dimensions.team
          ∷ text dimensions.project
          ∷ text dimensions.environment
          ∷ text dimensions.cost_center
          ∷ labels metadata.labels
          ∷ text operation
          ∷ instant base.observed_at
          ∷ null
          ∷ instant base.observed_at
          ∷ uuid base.event_id
          ∷ number base.version
          ∷ [];
    })
