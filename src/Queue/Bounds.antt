-- ===== src/Queue/Bounds.antt =====
-- What one operation of the queue does to its size, and that a retry undoes an acquire.
use kube_cost.Prelude.{
  ℕ, ◌+◌, ◌≤◌, min, ◌≡◌, true, false, none, some, List, [], ◌∷◌, ◌++◌, append_assoc, ◌↔◌, arith,
  length, length-append, length-take, take-append-drop,
}
use kube_cost.Queue.{
  Batch, Queue, Lease, new, try_enqueue, acquire_locked, dequeue_locked, commit, retry,
  at_least_one,
}

-- Queued batches and leased ones together stay within the capacity.
pub record IsBounded (q : Queue) : Type 0 where
  pub positive : 1 ≤ q.capacity
  pub bounded : length q.items + q.in_flight ≤ q.capacity

pub new-IsBounded : (n : ℕ) → IsBounded (new n)
unfolding new
new-IsBounded n = ground arith

pub try_enqueue-IsBounded : (b : Batch) {q : Queue} → IsBounded q → IsBounded (try_enqueue b q).1
unfolding try_enqueue
try_enqueue-IsBounded b {q} h = ground (arith, length-append q.items (b ∷ []))

-- What `Acquire` takes: a non-empty prefix of at most `max` batches, counted in flight.
pub record Acquired (max : ℕ) (q : Queue) (l : Lease) (q' : Queue) : Type 0 where
  pub split : l.items ++ q'.items ≡ q.items
  pub open_lease : l.done ≡ false
  pub some_items : 1 ≤ length l.items
  pub at_most : length l.items ≤ at_least_one max
  pub counted : q'.in_flight ≡ q.in_flight + length l.items
  pub same_capacity : q'.capacity ≡ q.capacity
  pub signalled : q'.ready ≡ true

-- The lease and the queue that `acquire_locked` returns on a queue that is not empty.
pub acquire_locked-Acquired :
    (max : ℕ) (q : Queue) {l : Lease} {q' : Queue}
    → acquire_locked max q ≡ some (l, q')
    → Acquired max q l q'
unfolding acquire_locked
acquire_locked-Acquired max q e =
    let n = min (at_least_one max) (length q.items) in
    ground (arith, take-append-drop n q.items, length-take n q.items)

-- What `Dequeue` takes: a prefix, with nothing in flight, and a signal for what it leaves.
pub record Dequeued (q : Queue) (items : List Batch) (q' : Queue) : Type 0 where
  pub split : items ++ q'.items ≡ q.items
  pub same_in_flight : q'.in_flight ≡ q.in_flight
  pub same_capacity : q'.capacity ≡ q.capacity
  pub signalled : 1 ≤ length q'.items → q'.ready ≡ true

pub dequeue_locked-Dequeued :
    (max : ℕ) (q : Queue) {items : List Batch} {q' : Queue}
    → dequeue_locked max q ≡ some (items, q')
    → Dequeued q items q'
unfolding dequeue_locked
dequeue_locked-Dequeued max q e =
    ground (arith, take-append-drop (min (at_least_one max) (length q.items)) q.items)

-- `acquire_locked` waits on the empty queue only.
pub acquire_locked-none : (max : ℕ) (q : Queue) → (acquire_locked max q ≡ none) ↔ (q.items ≡ [])
unfolding acquire_locked
acquire_locked-none max q = (λ e. ground arith, λ e. ground arith)

pub commit-IsBounded : (l : Lease) {q : Queue} → IsBounded q → IsBounded (commit l q).1
unfolding commit
commit-IsBounded l h = ground arith

pub retry-IsBounded :
    (l : Lease) {q : Queue} → length l.items ≤ q.in_flight → IsBounded q → IsBounded (retry l q).1
unfolding retry
retry-IsBounded l {q} open_lease h = ground (arith, length-append l.items q.items)

-- A lease that `Retry` gives back, after more batches were enqueued, stands in front of what was
-- left and of what came later, and `inFlight` is as before the lease.
pub retry-acquire_locked :
    (max : ℕ) (q : Queue) {l : Lease} {q' : Queue} (later : List Batch)
    → acquire_locked max q ≡ some (l, q')
    → let r = (retry l (record q' { items = q'.items ++ later })).1 in
      (r.items ≡ q.items ++ later) × (r.in_flight ≡ q.in_flight)
unfolding retry
retry-acquire_locked max q {l} {q'} later e =
    let a = acquire_locked-Acquired max q e in
    ground (arith, a, append_assoc l.items q'.items later)
