-- ===== src/Worker/Order.antt =====
-- The worker hands batches to the store in the order in which they were accepted.
use kube_cost.Prelude.{
  ℕ, ◌≡◌, refl, false, inl, inr, List, [], ◌∷◌, ◌++◌, append_assoc, arith, Option-cases,
}
use kube_cost.Queue.{Batch, Lease, new, acquire_locked}
use kube_cost.Queue.Bounds.{acquire_locked-Acquired}
use kube_cost.Worker.{
  WorkerConfig, PersistResult, Phase, acquiring, persisting, sleeping, Line, start, Event, enqueue,
  acquire, persist, timer, cancel, dispatch, step, run, take_lease,
}

abbrev pub held : Phase → List Batch
held (persisting lease) = lease.items
held _ = []

abbrev pub IsOpen : Phase → Type 0
IsOpen (persisting lease) = lease.done ≡ false
IsOpen _ = Unit

record InOrder (w : Line) : Type 0 where
  sequence : w.committed ++ (held w.phase ++ w.queue.items) ≡ w.accepted
  open_lease : IsOpen w.phase

start-InOrder : (config : WorkerConfig) (capacity : ℕ) → InOrder (start config capacity)
unfolding start new
start-InOrder config capacity = record { sequence = refl; open_lease = tt }

enqueue-InOrder :
    (config : WorkerConfig) (ph : Phase) (b : Batch) (w : Line)
    → InOrder w
    → InOrder (dispatch config ph (enqueue b) w)
unfolding dispatch
enqueue-InOrder config ph b w h = ground (
  arith,
  append_assoc (held w.phase) w.queue.items (b ∷ []),
  append_assoc w.committed (held w.phase ++ w.queue.items) (b ∷ []),
)

take_lease-InOrder :
    (max : ℕ) (w : Line)
    → w.phase ≡ acquiring
    → InOrder w
    → InOrder (take_lease w (acquire_locked max w.queue))
unfolding take_lease
take_lease-InOrder max w idle h = elim (Option-cases (acquire_locked max w.queue)) [
  | inl e ↦ rw (e, take_lease) h
  | inr ((l, q), e) ↦
      let a = acquire_locked-Acquired max w.queue e in rw (e, take_lease) (ground (arith, a))
]

persist-InOrder :
    (config : WorkerConfig) (r : PersistResult) (l : Lease) (w : Line)
    → w.phase ≡ persisting l
    → InOrder w
    → InOrder (dispatch config (persisting l) (persist r) w)
unfolding dispatch
persist-InOrder config r l w busy h = ground (arith, append_assoc w.committed l.items w.queue.items)

dispatch-InOrder :
    (config : WorkerConfig) (ph : Phase) (e : Event) (w : Line)
    → w.phase ≡ ph
    → InOrder w
    → InOrder (dispatch config ph e w)
unfolding dispatch
dispatch-InOrder config ph (enqueue b) w p h = enqueue-InOrder config ph b w h
dispatch-InOrder config acquiring acquire w p h = take_lease-InOrder config.batch_size w p h
dispatch-InOrder config (persisting l) (persist r) w p h = persist-InOrder config r l w p h
dispatch-InOrder config acquiring cancel w p h = ground arith
dispatch-InOrder config sleeping timer w p h = ground arith
dispatch-InOrder config sleeping cancel w p h = ground arith
dispatch-InOrder config _ _ w p h = h

run-InOrder :
    (config : WorkerConfig) (w : Line) (es : List Event) → InOrder w → InOrder (run config w es)
unfolding run step
run-InOrder config w [] h = h
run-InOrder config w (e ∷ es) h =
    run-InOrder config (step config w e) es (dispatch-InOrder config w.phase e w refl h)

-- After any events on an empty queue: the batches stored, then those being stored, then those
-- queued are the accepted batches in the order of their acceptance.
pub fifo :
    (config : WorkerConfig) (capacity : ℕ) (es : List Event)
    → let w = run config (start config capacity) es in
      w.committed ++ (held w.phase ++ w.queue.items) ≡ w.accepted
fifo config capacity es =
    (run-InOrder config (start config capacity) es (start-InOrder config capacity)).sequence
