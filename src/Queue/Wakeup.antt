-- ===== src/Queue/Wakeup.antt =====
-- A batch in the queue is never left waiting while every consumer sleeps.
use kube_cost.Prelude.{ℕ, ◌≤◌, ◌≡◌, ◌⊎◌, true, List, [], ◌∷◌, arith, length, inl, refl}
use kube_cost.Queue.{new, try_enqueue, acquire_locked, dequeue_locked}
use kube_cost.Queue.World.{
  World, Move, look, look_to_dequeue, marks, settles, retries, start, step, run, after_look,
  after_dequeue,
}

-- Unless the queue is empty, `ready` holds its token or a consumer is about to look.
abbrev Awake : World → Type 0
Awake w = (length w.queue.items ≡ 0) ⊎ ((w.queue.ready ≡ true) ⊎ (1 ≤ w.checking))

look-Awake : (w : World) (max : ℕ) → Awake w → Awake (after_look w (acquire_locked max w.queue))
unfolding after_look acquire_locked
look-Awake w max h = ground arith

dequeue-Awake :
    (w : World) (max : ℕ) → Awake w → Awake (after_dequeue w (dequeue_locked max w.queue))
unfolding after_dequeue dequeue_locked
dequeue-Awake w max h = ground arith

step-Awake : (w : World) (m : Move) → Awake w → Awake (step w m)
unfolding step try_enqueue
step-Awake w (look max) h = ground (arith, look-Awake w max h)
step-Awake w (look_to_dequeue max) h = ground (arith, dequeue-Awake w max h)
step-Awake w (marks i) h = ground arith
step-Awake w (settles i) h = ground arith
step-Awake w (retries i) h = ground arith
step-Awake w _ h = ground arith

run-Awake : (w : World) (ms : List Move) → Awake w → Awake (run w ms)
unfolding run
run-Awake w [] h = h
run-Awake w (m ∷ ms) h = run-Awake (step w m) ms (step-Awake w m h)

-- After any interleaving of calls on an empty queue: if a batch is queued and no caller of
-- `Acquire` or `Dequeue` is about to look at the queue, then `ready` holds a token.
pub no_lost_wakeup :
    (capacity : ℕ) (ms : List Move)
    → let w = run (start capacity) ms in
      1 ≤ length w.queue.items → w.checking ≡ 0 → w.queue.ready ≡ true
no_lost_wakeup capacity ms some_item nobody =
    ground (arith, run-Awake (start capacity) ms (unfold start new in inl refl))
