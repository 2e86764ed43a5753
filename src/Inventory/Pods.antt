-- ===== src/Inventory/Pods.antt =====
-- When a pod changes, the containers that it no longer has are reported as deleted.
use kube_cost.Prelude.{
  ◌≡◌, ◌⊎◌, String, Bool, true, false, ◌||◌, ◌&&◌, some, List, [], ◌∷◌, ◌++◌, arith, str_eq, eq_iff,
  Bool-cases, inl, inr,
}
use kube_cost.Prelude.Dict.{get}
use kube_cost.Wire.{Observation, ContainerInventory, container_inventory, upsert}
use kube_cost.Inventory.{Event}
use kube_cost.Inventory.Collector.{
  is_delete, as_delete, vanished, has_key, pod_events, PodContainers, containers_of,
}

-- An event of a container.
pub record IsContainer (e : Event) : Type 0 where
  pub observed : Observation
  pub container : ContainerInventory
  pub observation : e.observation ≡ some observed
  pub payload : observed.payload ≡ some (container_inventory container)

abbrev pub has_deletion : List Event → String → Bool
has_deletion [] key = false
has_deletion (e ∷ es) key = (str_eq e.key key && is_delete e) || has_deletion es key

as_delete_lem :
    (e : Event) → IsContainer e → (is_delete (as_delete e) ≡ true) × ((as_delete e).key ≡ e.key)
unfolding as_delete is_delete
as_delete_lem e c = ground (arith, c.observation, c.payload)

has_deletion-append :
    (xs ys : List Event) (key : String)
    → has_deletion ys key ≡ true
    → has_deletion (xs ++ ys) key ≡ true
has_deletion-append [] ys key h = h
has_deletion-append (x ∷ xs) ys key h = ground (arith, has_deletion-append xs ys key h)

vanished-has_deletion :
    (current : List Event) (m : List (String × Event)) (key : String) {e : Event}
    → get m key ≡ some e
    → e.key ≡ key
    → IsContainer e
    → has_key current key ≡ false
    → has_deletion (vanished current m) key ≡ true
unfolding vanished get
vanished-has_deletion current [] key h k c n = cc
vanished-has_deletion current ((j, x) ∷ m) key {e = e} h k c n = elim (Bool-cases (str_eq j key)) [
  | inl p ↦
      ground
        (arith, as_delete_lem e c, eq_iff j key, eq_iff e.key key, eq_iff (as_delete e).key key)
  | inr p ↦
      let h' : get m key ≡ some e = ground (arith, h, p) in
      ground (arith, vanished-has_deletion current m key {e = e} h' k c n)
]

-- If a pod is remembered to have a container with some key, then, when the pod is upserted, one of
-- its containers has that key, or the events that go out for the pod have a delete with it.
pub pod_events_complete :
    (uid key : String) (pod : Event) (containers : List Event) (pods : PodContainers) {e : Event}
    → get (containers_of pods uid) key ≡ some e
    → e.key ≡ key
    → IsContainer e
    → (has_key containers key ≡ true)
      ⊎ (has_deletion (pod_events upsert uid pod containers pods) key ≡ true)
unfolding pod_events
pod_events_complete uid key pod containers pods {e = e} h k c =
    elim (Bool-cases (has_key containers key)) [
      | inl p ↦ inl p
      | inr p ↦ inr (
          has_deletion-append (pod ∷ containers) (vanished containers (containers_of pods uid)) key
            (vanished-has_deletion containers (containers_of pods uid) key {e = e} h k c p))
    ]
