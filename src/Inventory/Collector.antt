-- ===== src/Inventory/Collector.antt =====
-- agent/inventory/collector.go: `publishDelta`, and `process` with the containers of pods. The
-- events of an object are given, as the builders make them from the types of Kubernetes; the queue
-- and the informers are those of client-go.
use kube_cost.Prelude.{
  String, Bool, true, false, not, ◌||◌, Option, none, some, List, [], ◌∷◌, ◌++◌, str_eq,
  if◌then◌else◌,
}
use kube_cost.Prelude.Dict.{get, put, remove}
use kube_cost.Wire.{
  Codec, Observation, Payload, InventoryOperation, upsert, delete, operation_of, cluster_inventory,
  node_inventory, namespace_inventory, deployment_inventory, pod_inventory, container_inventory,
  ContainerInventory,
}
use kube_cost.Inventory.{Event}
use kube_cost.Inventory.Cache
use kube_cost.Inventory.Cache.{
  Cache, Change, refused, changed, unchanged, change_of, exists, commit,
}

abbrev pub is_deletion : InventoryOperation → Bool
is_deletion delete = true
is_deletion _ = false

deletes : Payload → Bool
deletes (cluster_inventory p) = is_deletion (operation_of p.inventory_record)
deletes (node_inventory p) = is_deletion (operation_of p.inventory_record)
deletes (namespace_inventory p) = is_deletion (operation_of p.inventory_record)
deletes (deployment_inventory p) = is_deletion (operation_of p.inventory_record)
deletes (pod_inventory p) = is_deletion (operation_of p.inventory_record)
deletes (container_inventory p) = is_deletion (operation_of p.inventory_record)
deletes _ = false

payload_of : Event → Option Payload
payload_of e = elim e.observation [ none ↦ none | some o ↦ o.payload ]

unfoldable pub is_delete : Event → Bool
unfolding deletes payload_of
is_delete e = elim (payload_of e) [ none ↦ false | some p ↦ deletes p ]

-- `sent`: has the publisher taken the event? `ok` is false for an error.
pub record Delta : Type 0 where
  pub ok : Bool
  pub sent : Bool
  pub cache : Cache

send_change : Event → Bool → Cache → Change → Delta
send_change e published c (refused error) = record { ok = false; sent = false; cache = c }
send_change e published c (unchanged p) = record { ok = true; sent = false; cache = c }
send_change e published c (changed p) =
    if published
    then record { ok = (commit e.key p c).0; sent = true; cache = (commit e.key p c).1 }
    else record { ok = false; sent = false; cache = c }

-- `published`: does `Publish` return nil, if it is called?
unfoldable pub publish_delta : Codec → InventoryOperation → Event → Bool → Cache → Delta
unfolding send_change
publish_delta codec operation e published c =
    if is_deletion operation || is_delete e
    then (if not (exists e.key c)
        then record { ok = true; sent = false; cache = c }
        else if published
        then record { ok = true; sent = true; cache = Cache.delete e.key c }
        else record { ok = false; sent = false; cache = c })
    else send_change e published c (change_of codec e c)

deleted_container : Observation → ContainerInventory → Observation
deleted_container o p = record o {
  sequence = 0;
  event_id = "";
  payload = some (
      container_inventory (record p {
        inventory_record =
            some (record { operation = delete; snapshot_id = ""; snapshot_record = false });
      }));
}

delete_payload : Event → Observation → Option Payload → Event
unfolding deleted_container
delete_payload e o (some (container_inventory p)) = record e {
  observation = some (deleted_container o p);
}
delete_payload e o _ = e

unfoldable pub as_delete : Event → Event
unfolding delete_payload
as_delete e = elim e.observation [ none ↦ e | some o ↦ delete_payload e o o.payload ]

-- `c.podContainers`, by the UID of the pod, then by key.
abbrev pub PodContainers : Type 0
PodContainers = List (String × List (String × Event))

abbrev pub containers_of : PodContainers → String → List (String × Event)
containers_of pods uid = elim (get pods uid) [ none ↦ [] | some m ↦ m ]

abbrev pub has_key : List Event → String → Bool
has_key [] key = false
has_key (e ∷ es) key = str_eq e.key key || has_key es key

-- The deletes of the containers that a pod no longer has.
unfoldable pub vanished : List Event → List (String × Event) → List Event
unfolding as_delete
vanished current [] = []
vanished current ((key, previous) ∷ rest) =
    let others = vanished current rest in
    if has_key current key then others else as_delete previous ∷ others

-- The events for a pod: its own, those of its containers, and the deletes.
unfoldable pub pod_events :
    InventoryOperation → String → Event → List Event → PodContainers → List Event
pod_events upsert uid pod containers pods =
    (pod ∷ containers) ++ vanished containers (containers_of pods uid)
pod_events _ uid pod containers pods = pod ∷ containers

-- The later of two events with one key stays.
live : List Event → List (String × Event)
live [] = []
live (e ∷ es) =
    let rest = live es in
    if is_delete e
    then rest
    else elim (get rest e.key) [ none ↦ (e.key, e) ∷ rest | some later ↦ rest ]

-- `events` without the first, which is the pod's.
unfoldable pub update_pod_containers :
    InventoryOperation → String → List Event → PodContainers → PodContainers
unfolding live
update_pod_containers delete uid containers pods = remove pods uid
update_pod_containers _ uid containers pods = put pods uid (live containers)

-- The loop of `process` over the events, each with the answer of the publisher, up to an error.
unfoldable pub publish_all : Codec → InventoryOperation → List (Event × Bool) → Cache → Bool × Cache
publish_all codec operation [] c = (true, c)
publish_all codec operation ((e, published) ∷ rest) c =
    let d = publish_delta codec operation e published c in
    let later = publish_all codec operation rest d.cache in if d.ok then later else (false, d.cache)

pub record Collector : Type 0 where
  pub cache : Cache
  pub pod_containers : PodContainers

abbrev pub answered : List Event → (Event → Bool) → List (Event × Bool)
answered [] publisher = []
answered (e ∷ es) publisher = (e, publisher e) ∷ answered es publisher

abbrev rest_of : List Event → List Event
rest_of [] = []
rest_of (e ∷ es) = es

-- `process` for a pod; the containers are remembered only after all its events have gone out.
unfoldable pub process_pod :
    Codec
    → InventoryOperation
    → String
    → Event
    → List Event
    → (Event → Bool)
    → Collector
    → Bool × Collector
process_pod codec operation uid pod containers publisher s =
    let others = pod_events operation uid pod containers s.pod_containers in
    let (ok, c) = publish_all codec operation (answered others publisher) s.cache in
    if ok
    then (
      true,
      record {
        cache = c;
        pod_containers = update_pod_containers operation uid (rest_of others) s.pod_containers;
      },
    )
    else (false, record s { cache = c })
