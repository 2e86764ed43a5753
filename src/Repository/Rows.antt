-- ===== src/Repository/Rows.antt =====
-- services/ingestion/persistence/repository.go: `mapObservation`, less its error for a nil
-- observation: a decoded batch has none.
use kube_cost.Prelude.{◌||◌, ◌==◌, Option, none, some, str_eq, if◌then◌else◌}
use kube_cost.Wire.{
  Payload, cluster_inventory, node_inventory, namespace_inventory, deployment_inventory,
  pod_inventory, container_inventory, Observation,
}
use kube_cost.Repository.Values.{Library, valid_time}
use kube_cost.Repository.Mapped.{Mapped, skipped, invalid, identity_required, RowBase}
use kube_cost.Queue
use kube_cost.Repository.Nodes.{map_cluster, map_node, map_namespace}
use kube_cost.Repository.Workloads.{map_deployment, map_pod, map_container}

abbrev pub map_payload : Library → RowBase → Option Payload → Mapped
map_payload lib base (some (cluster_inventory p)) = map_cluster lib base p
map_payload lib base (some (node_inventory p)) = map_node lib base p
map_payload lib base (some (namespace_inventory p)) = map_namespace lib base p
map_payload lib base (some (deployment_inventory p)) = map_deployment lib base p
map_payload lib base (some (pod_inventory p)) = map_pod lib base p
map_payload lib base (some (container_inventory p)) = map_container lib base p
map_payload lib base _ = skipped

-- The time of the observation, or that of its arrival if it has no valid one.
abbrev pub base_of : Library → Queue.Batch → Observation → RowBase
base_of lib batch o = record {
  tenant_id = batch.tenant_id;
  cluster_id = batch.cluster_id;
  observed_at = elim (valid_time lib o.observed_at) [ none ↦ batch.received_at | some t ↦ t ];
  event_id = lib.uuid o.event_id;
  version = o.sequence;
}

unfoldable pub map_observation : Library → Queue.Batch → Observation → Mapped
map_observation lib batch o =
    if str_eq batch.tenant_id ""
      || str_eq batch.cluster_id ""
      || str_eq o.event_id ""
      || o.sequence == 0
    then invalid identity_required
    else map_payload lib (base_of lib batch o) o.payload
