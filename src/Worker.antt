-- ===== src/Worker.antt =====
-- services/ingestion/persistence/worker.go: the one goroutine that drains the queue. Its loop body
-- is cut where other goroutines can run: at `Acquire`, while `Persist` runs on the leased batches,
-- and during the wait after a failure. `Persist` is given by its result. A configured size or
-- duration that is not positive is 0.
pub mod Order
pub mod Backoff
use kube_cost.Prelude.{
  ℕ, ◌*◌, min, Bool, true, false, Option, none, some, List, [], ◌∷◌, ◌++◌, ◌==◌, if◌then◌else◌,
}
use kube_cost.Queue.{Batch, Queue, Lease, new, try_enqueue, acquire_locked, commit, retry}

pub record WorkerConfig : Type 0 where
  pub batch_size : ℕ
  pub retry_initial : ℕ
  pub retry_maximum : ℕ

-- The defaults of `NewWorker`; durations in nanoseconds.
unfoldable pub new_worker : WorkerConfig → WorkerConfig
new_worker c = record {
  batch_size = if c.batch_size == 0 then 20 else c.batch_size;
  retry_initial = if c.retry_initial == 0 then 1000000000 else c.retry_initial;
  retry_maximum = if c.retry_maximum == 0 then 30000000000 else c.retry_maximum;
}

-- The result of `Persist`: nil, an error that is `ErrInvalidInventory`, or another error.
pub data PersistResult : Type 0 where
  stored invalid_inventory store_error : PersistResult

pub data Phase : Type 0 where
  acquiring : Phase
  persisting : Lease → Phase
  sleeping : Phase
  stopped : Phase

-- The worker at the queue; `accepted` and `committed` are history.
pub record Line : Type 0 where
  pub queue : Queue
  pub phase : Phase
  pub backoff : ℕ
  pub accepted : List Batch
  pub committed : List Batch

unfoldable pub start : WorkerConfig → ℕ → Line
start config capacity = record {
  queue = new capacity;
  phase = acquiring;
  backoff = config.retry_initial;
  accepted = [];
  committed = [];
}

-- What follows `Persist` in the loop body.
unfoldable pub persisted : WorkerConfig → PersistResult → Lease → Line → Line
unfolding commit retry
persisted config stored lease w = record w {
  queue = (commit lease w.queue).1;
  phase = acquiring;
  backoff = config.retry_initial;
  committed = w.committed ++ lease.items;
}
persisted config invalid_inventory lease w = record w {
  queue = (retry lease w.queue).1;
  phase = stopped;
}
persisted config store_error lease w = record w {
  queue = (retry lease w.queue).1;
  phase = sleeping;
}

pub data Event : Type 0 where
  enqueue : Batch → Event
  acquire : Event
  persist : PersistResult → Event
  timer : Event
  cancel : Event

arrive : Line → Batch → Bool × Queue → Line
arrive w b (false, q) = record w { queue = q }
arrive w b (true, q) = record w { queue = q; accepted = w.accepted ++ b ∷ [] }

take_lease : Line → Option (Lease × Queue) → Line
take_lease w none = w
take_lease w (some (lease, q)) = record w { queue = q; phase = persisting lease }

-- Events that the phase does not wait for change nothing; `cancel` ends a wait, not a `Persist`.
dispatch : WorkerConfig → Phase → Event → Line → Line
unfolding persisted arrive take_lease try_enqueue
dispatch config phase (enqueue b) w = arrive w b (try_enqueue b w.queue)
dispatch config acquiring acquire w = take_lease w (acquire_locked config.batch_size w.queue)
dispatch config (persisting lease) (persist r) w = persisted config r lease w
dispatch config sleeping timer w = record w {
  phase = acquiring;
  backoff = min (w.backoff * 2) config.retry_maximum;
}
dispatch config acquiring cancel w = record w { phase = stopped }
dispatch config sleeping cancel w = record w { phase = stopped }
dispatch config phase event w = w

unfoldable pub step : WorkerConfig → Line → Event → Line
unfolding dispatch
step config w e = dispatch config w.phase e w

unfoldable pub run : WorkerConfig → Line → List Event → Line
run config w [] = w
run config w (e ∷ es) = run config (step config w e) es
