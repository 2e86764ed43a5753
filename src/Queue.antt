-- ===== src/Queue.antt =====
-- services/ingestion/queue/queue.go. A method that mutates the queue returns the new one; what
-- happens under one hold of the mutex is one function. `ready` says that the channel of capacity
-- one holds its token. A batch is never nil: the one caller of `TryEnqueue` passes the address of
-- a literal. `persisted` names the notification channel, if there is one.
pub mod Bounds
pub mod World
pub mod Conservation
pub mod Wakeup
use kube_cost.Prelude.{
  ℕ, ◌+◌, ◌-◌, min, String, Bool, true, false, Option, none, some, List, [], ◌∷◌, ◌++◌, leb, ltb,
  if◌then◌else◌, length, take, drop,
}
use kube_cost.Wire.{ObservationBatch}

pub record Batch : Type 0 where
  pub tenant_id : String
  pub cluster_id : String
  pub agent_instance : String
  pub session_id : String
  pub received_at : ℕ
  pub observation_set : ObservationBatch
  pub persisted : Option ℕ

pub record Queue : Type 0 where
  pub items : List Batch
  pub capacity : ℕ
  pub in_flight : ℕ
  pub ready : Bool

-- `done` is the state of `once`.
pub record Lease : Type 0 where
  pub items : List Batch
  pub done : Bool

unfoldable pub new : ℕ → Queue
new capacity = record {
  items = [];
  capacity = if ltb capacity 1 then 1 else capacity;
  in_flight = 0;
  ready = false;
}

-- A non-blocking send on `ready`.
abbrev pub signal_locked : Queue → Queue
signal_locked q = record q { ready = true }

-- The result is false for `ErrFull`.
unfoldable pub try_enqueue : Batch → Queue → Bool × Queue
try_enqueue batch q =
    if leb q.capacity (length q.items + q.in_flight)
    then (false, q)
    else (true, signal_locked (record q { items = q.items ++ batch ∷ [] }))

abbrev pub at_least_one : ℕ → ℕ
at_least_one n = if ltb n 1 then 1 else n

-- One round of the loop of `Acquire`, from its lock to its unlock; none is to wait for `ready`.
unfoldable pub acquire_locked : ℕ → Queue → Option (Lease × Queue)
acquire_locked max q = elim q.items [
  | [] ↦ none
  | x ∷ rest ↦
      let count = min (at_least_one max) (length q.items) in
      some (
        record { items = take count q.items; done = false },
        signal_locked (record q { items = drop count q.items; in_flight = q.in_flight + count }),
      )
]

-- One round of the loop of `Dequeue`.
unfoldable pub dequeue_locked : ℕ → Queue → Option (List Batch × Queue)
dequeue_locked max q = elim q.items [
  | [] ↦ none
  | x ∷ rest ↦
      let count = min (at_least_one max) (length q.items) in
      let q' = record q { items = drop count q.items } in
      some (take count q.items, if ltb 0 (length q'.items) then signal_locked q' else q')
]

-- The channels that `markPersisted` closes for these items, in order.
abbrev pub channels : List Batch → List ℕ
channels [] = []
channels (b ∷ bs) = elim b.persisted [ none ↦ channels bs | some c ↦ c ∷ channels bs ]

-- The part of `Commit` before it takes the mutex: the lease, used up, and the channels it closes.
abbrev pub mark_persisted : Lease → Lease × List ℕ
mark_persisted lease = (record lease { done = true }, channels lease.items)

-- The part under the mutex. `in_flight` is at least `count` (Queue/World), so `-` is exact.
abbrev pub settle_locked : ℕ → Queue → Queue
settle_locked count q = signal_locked (record q { in_flight = q.in_flight - count })

-- A whole `Commit`, when nobody comes between its parts; in Queue/World they are two steps.
unfoldable pub commit : Lease → Queue → Lease × Queue × List ℕ
commit lease q =
    if lease.done
    then (lease, q, [])
    else ((mark_persisted lease).0, settle_locked (length lease.items) q, (mark_persisted lease).1)

unfoldable pub retry : Lease → Queue → Lease × Queue
retry lease q = if lease.done then (lease, q) else (
  record lease { done = true },
  signal_locked
      (record q { items = lease.items ++ q.items; in_flight = q.in_flight - length lease.items }),
)

abbrev pub depth : Queue → ℕ
depth q = length q.items

-- `EnablePersistenceNotification` with `fresh` for the channel that `make` returns.
unfoldable pub enable_persistence_notification : ℕ → Batch → Batch
enable_persistence_notification fresh b = elim b.persisted [
  | none ↦ record b { persisted = some fresh }
  | some c ↦ b
]
