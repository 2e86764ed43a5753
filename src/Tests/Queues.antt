-- ===== src/Tests/Queues.antt =====
-- The queue and its worker at concrete inputs.
use kube_cost.Prelude.{
  ◌+◌, ◌≤◌, ◌≡◌, refl, true, false, some, List, [], ◌∷◌, ◌++◌, arith, length, count, ◌==◌,
}
use kube_cost.Queue.{Queue, Lease, acquire_locked, retry, new, try_enqueue, dequeue_locked}
use kube_cost.Queue.Bounds.{retry-acquire_locked}
use kube_cost.Queue.World.{
  Move, enqueue, call, look, look_to_dequeue, wake, marks, settles, retries, start, step, run,
  open_length, total, reachable_bounded,
}
use kube_cost.Queue.Conservation.{conservation, leased, channel_closed_once, notifies}
use kube_cost.Queue.Wakeup.{no_lost_wakeup}
use kube_cost.Worker
use kube_cost.Worker.{WorkerConfig, Line, Phase, acquiring}
use kube_cost.Worker.Order.{fifo, held}
use kube_cost.Tests.Data.{queued}

-- Three batches, one caller that takes two, a retry, a second take and a commit, whose second part
-- comes after a `Dequeue`.
abbrev moves : List Move
moves =
    call
    ∷ look 5
    ∷ enqueue (queued 1)
    ∷ enqueue (queued 2)
    ∷ wake
    ∷ look 5
    ∷ retries 0
    ∷ call
    ∷ look 1
    ∷ enqueue (queued 3)
    ∷ marks 1
    ∷ call
    ∷ look_to_dequeue 1
    ∷ settles 0
    ∷ []

moves_end :
    let w = run (start 4) moves in
    (w.queue.items ≡ queued 3 ∷ [])
    × (w.dequeued ≡ queued 2 ∷ [])
    × (w.closed ≡ 1 ∷ [])
    × (w.queue.in_flight ≡ 0)
unfolding run start new step try_enqueue acquire_locked dequeue_locked retry
moves_end = (refl, refl, refl, refl)

reachable_bounded_example :
    let w = run (start 4) moves in
    (length w.queue.items + (open_length w.leases + total w.settling) ≤ w.queue.capacity)
    × (w.queue.in_flight ≡ open_length w.leases + total w.settling)
reachable_bounded_example = reachable_bounded 4 moves

conservation_example :
    let w = run (start 4) moves in
    count (notifies 2) w.accepted
    ≡ count (notifies 2) w.queue.items
      + count (notifies 2) (leased w.leases)
      + count (notifies 2) w.committed
      + count (notifies 2) w.dequeued
conservation_example = conservation (notifies 2) 4 moves

one_batch_per_channel : count (notifies 1) (run (start 4) moves).accepted ≤ 1
unfolding run start new step try_enqueue acquire_locked dequeue_locked retry
one_batch_per_channel = omega arith

channel_closed_once_example :
    let w = run (start 4) moves in
    (count (λ d. d == 1) w.closed ≤ 1)
    × (count (λ d. d == 1) w.closed ≡ count (notifies 1) w.committed)
channel_closed_once_example = channel_closed_once 1 4 moves one_batch_per_channel

abbrev sleeper : List Move
sleeper = call ∷ look 5 ∷ enqueue (queued 1) ∷ []

some_waits : 1 ≤ length (run (start 4) sleeper).queue.items
unfolding run start new step try_enqueue acquire_locked
some_waits = omega arith

nobody_looks : (run (start 4) sleeper).checking ≡ 0
unfolding run start new step try_enqueue acquire_locked
nobody_looks = refl

no_lost_wakeup_example : (run (start 4) sleeper).queue.ready ≡ true
no_lost_wakeup_example = no_lost_wakeup 4 sleeper some_waits nobody_looks

abbrev two : Queue
two = record { items = queued 1 ∷ queued 2 ∷ []; capacity = 4; in_flight = 0; ready = true }

abbrev one_lease : Lease
one_lease = record { items = queued 1 ∷ []; done = false }

abbrev one_left : Queue
one_left = record { items = queued 2 ∷ []; capacity = 4; in_flight = 1; ready = true }

takes_one : acquire_locked 1 two ≡ some (one_lease, one_left)
unfolding acquire_locked
takes_one = refl

retry-acquire_locked_example :
    let r = (retry one_lease (record one_left { items = one_left.items ++ queued 3 ∷ [] })).1 in
    (r.items ≡ queued 1 ∷ queued 2 ∷ queued 3 ∷ []) × (r.in_flight ≡ 0)
retry-acquire_locked_example = retry-acquire_locked 1 two (queued 3 ∷ []) takes_one

abbrev worker_config : WorkerConfig
worker_config = record { batch_size = 0; retry_initial = 0; retry_maximum = 0 }

abbrev events : List Worker.Event
events =
    Worker.enqueue (queued 1)
    ∷ Worker.enqueue (queued 2)
    ∷ Worker.acquire
    ∷ Worker.persist Worker.store_error
    ∷ Worker.timer
    ∷ Worker.acquire
    ∷ Worker.persist Worker.stored
    ∷ []

fifo_example :
    let w = Worker.run worker_config (Worker.start worker_config 4) events in
    w.committed ++ (held w.phase ++ w.queue.items) ≡ w.accepted
fifo_example = fifo worker_config 4 events

abbrev busy : Line
busy = record { queue = two; phase = acquiring; backoff = 3; accepted = []; committed = [] }

abbrev patient : WorkerConfig
patient = record { batch_size = 2; retry_initial = 3; retry_maximum = 100 }
