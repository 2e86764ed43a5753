-- ===== src/Queue/World.antt =====
-- The queue with everybody who uses it: the open leases, the calls of `Acquire` and `Dequeue` that
-- are about to look at the queue (`checking`) or wait on `ready` (`waiting`), and the calls of
-- `Commit` that have closed the channels of their batches and have still to take the mutex
-- (`settling`, each with the number of its batches). A step is what happens under one hold of the
-- mutex, the closing of the channels of one lease, or one receive from `ready`, so every
-- interleaving is a list of steps. `accepted`, `dequeued`, `committed` and `closed` are history: the
-- batches taken in, those that `Dequeue` has handed out, those whose lease was committed, and the
-- notification channels closed so far.
use kube_cost.Prelude.{
  ℕ, zero, suc, ◌&&◌, ltb, ◌==◌, ◌+◌, ◌-◌, ◌≤◌, ◌≡◌, Bool, true, false, Option, none, some, List,
  [], ◌∷◌, ◌++◌, arith, length, get_elem?, set, if◌then◌else◌, Option-cases, inl, inr, refl,
  length-append, ap,
}
use kube_cost.Queue.{
  Batch, Queue, Lease, new, try_enqueue, acquire_locked, dequeue_locked, mark_persisted,
  settle_locked, retry,
}
use kube_cost.Queue.Bounds.{IsBounded, acquire_locked-Acquired, dequeue_locked-Dequeued}

pub record World : Type 0 where
  pub queue : Queue
  pub leases : List Lease
  pub checking : ℕ
  pub waiting : ℕ
  pub accepted : List Batch
  pub settling : List ℕ
  pub dequeued : List Batch
  pub committed : List Batch
  pub closed : List ℕ

unfoldable pub start : ℕ → World
start capacity = record {
  queue = new capacity;
  leases = [];
  checking = 0;
  waiting = 0;
  accepted = [];
  settling = [];
  dequeued = [];
  committed = [];
  closed = [];
}

pub data Move : Type 0 where
  enqueue : Batch → Move
  call : Move
  look : ℕ → Move
  look_to_dequeue : ℕ → Move
  wake : Move
  cancel : Move
  marks : ℕ → Move
  settles : ℕ → Move
  retries : ℕ → Move

unfoldable pub after_enqueue : World → Bool × Queue → Batch → World
after_enqueue w (false, q) b = record w { queue = q }
after_enqueue w (true, q) b = record w { queue = q; accepted = w.accepted ++ b ∷ [] }

-- A caller that finds a batch leaves with its lease; one that finds none goes to wait.
unfoldable pub after_look : World → Option (Lease × Queue) → World
after_look w none = record w { checking = w.checking - 1; waiting = w.waiting + 1 }
after_look w (some (l, q)) = record w {
  checking = w.checking - 1;
  queue = q;
  leases = w.leases ++ l ∷ [];
}

-- `Dequeue` hands the batches out for good.
unfoldable pub after_dequeue : World → Option (List Batch × Queue) → World
after_dequeue w none = record w { checking = w.checking - 1; waiting = w.waiting + 1 }
after_dequeue w (some (items, q)) = record w {
  checking = w.checking - 1;
  queue = q;
  dequeued = w.dequeued ++ items;
}

abbrev pub open_items : Lease → List Batch
open_items l = if l.done then [] else l.items

-- The channels of a lease are closed, unless it has been used.
unfoldable pub after_mark : World → ℕ → Option Lease → World
after_mark w i none = w
after_mark w i (some l) = if l.done then w else record w {
  leases = set w.leases i (mark_persisted l).0;
  settling = w.settling ++ length l.items ∷ [];
  committed = w.committed ++ l.items;
  closed = w.closed ++ (mark_persisted l).1;
}

abbrev pub remove_at : List ℕ → ℕ → List ℕ
remove_at [] i = []
remove_at (x ∷ xs) zero = xs
remove_at (x ∷ xs) (suc i) = x ∷ remove_at xs i

unfoldable pub after_settle : World → ℕ → Option ℕ → World
after_settle w i none = w
after_settle w i (some n) = record w {
  queue = settle_locked n w.queue;
  settling = remove_at w.settling i;
}

unfoldable pub after_retry : World → ℕ → Option Lease → World
unfolding retry
after_retry w i none = w
after_retry w i (some l) =
    let (l', q) = retry l w.queue in record w { queue = q; leases = set w.leases i l' }

-- A move that is not possible leaves the world as it is.
unfoldable pub step : World → Move → World
unfolding after_enqueue after_look after_dequeue after_mark after_settle after_retry
step w (enqueue b) = after_enqueue w (try_enqueue b w.queue) b
step w call = record w { checking = w.checking + 1 }
step w (look max) = if w.checking == 0 then w else after_look w (acquire_locked max w.queue)
step w (look_to_dequeue max) =
    if w.checking == 0 then w else after_dequeue w (dequeue_locked max w.queue)
step w wake =
    if w.queue.ready && ltb 0 w.waiting
    then record w {
      queue = record w.queue { ready = false };
      waiting = w.waiting - 1;
      checking = w.checking + 1;
    }
    else w
step w cancel = if w.waiting == 0 then w else record w { waiting = w.waiting - 1 }
step w (marks i) = after_mark w i (get_elem? w.leases i)
step w (settles i) = after_settle w i (get_elem? w.settling i)
step w (retries i) = after_retry w i (get_elem? w.leases i)

unfoldable pub run : World → List Move → World
run w [] = w
run w (m ∷ ms) = run (step w m) ms

-- The batches in open leases.
abbrev pub open_length : List Lease → ℕ
open_length [] = 0
open_length (l ∷ ls) = (if l.done then 0 else length l.items) + open_length ls

open_length-append :
    (ls : List Lease) (l : Lease)
    → open_length (ls ++ l ∷ []) ≡ open_length ls + (if l.done then 0 else length l.items)
open_length-append [] l = omega arith
open_length-append (k ∷ ls) l = omega (arith, open_length-append ls l)

-- Closing the lease at `i` takes its length off.
open_length-set :
    (ls : List Lease) (i : ℕ) (l l' : Lease)
    → get_elem? ls i ≡ some l
    → l'.done ≡ true
    → open_length (set ls i l') + (if l.done then 0 else length l.items) ≡ open_length ls
open_length-set [] i l l' e d = cc
open_length-set (k ∷ ls) zero l l' e d = ground arith
open_length-set (k ∷ ls) (suc i) l l' e d = ground (arith, open_length-set ls i l l' e d)

-- The batches in commits that are under way.
abbrev pub total : List ℕ → ℕ
total [] = 0
total (n ∷ ns) = n + total ns

total-append : (ns : List ℕ) (n : ℕ) → total (ns ++ n ∷ []) ≡ total ns + n
total-append [] n = omega arith
total-append (m ∷ ns) n = omega (arith, total-append ns n)

total-remove_at :
    (ns : List ℕ) (i n : ℕ) → get_elem? ns i ≡ some n → total (remove_at ns i) + n ≡ total ns
total-remove_at [] i n e = cc
total-remove_at (m ∷ ns) zero n e = ground arith
total-remove_at (m ∷ ns) (suc i) n e = ground (arith, total-remove_at ns i n e)

pub record Inv (w : World) : Type 0 where
  pub within : IsBounded w.queue
  pub exact : w.queue.in_flight ≡ open_length w.leases + total w.settling

pub start-Inv : (n : ℕ) → Inv (start n)
unfolding start new
start-Inv n = ground arith

look-Inv : (w : World) (max : ℕ) → Inv w → Inv (after_look w (acquire_locked max w.queue))
unfolding after_look
look-Inv w max h = elim (Option-cases (acquire_locked max w.queue)) [
  | inl e ↦ rw (e, after_look) (record { within = h.within; exact = h.exact })
  | inr ((l, q), e) ↦
      let a = acquire_locked-Acquired max w.queue e in
      rw (e, after_look)
        (ground (
          arith,
          a,
          open_length-append w.leases l,
          ap length a.split,
          length-append l.items q.items,
        ))
]

dequeue-Inv : (w : World) (max : ℕ) → Inv w → Inv (after_dequeue w (dequeue_locked max w.queue))
unfolding after_dequeue
dequeue-Inv w max h = elim (Option-cases (dequeue_locked max w.queue)) [
  | inl e ↦ rw (e, after_dequeue) (record { within = h.within; exact = h.exact })
  | inr ((items, q), e) ↦
      let d = dequeue_locked-Dequeued max w.queue e in
      rw (e, after_dequeue) (ground (arith, d, ap length d.split, length-append items q.items))
]

mark-Inv : (w : World) (i : ℕ) → Inv w → Inv (after_mark w i (get_elem? w.leases i))
unfolding after_mark
mark-Inv w i h = elim (Option-cases (get_elem? w.leases i)) [
  | inl e ↦ rw (e, after_mark) h
  | inr (l, e) ↦
      rw (e, after_mark)
        (ground (
          arith,
          total-append w.settling (length l.items),
          open_length-set w.leases i l (record l { done = true }) e refl,
        ))
]

settle-Inv : (w : World) (i : ℕ) → Inv w → Inv (after_settle w i (get_elem? w.settling i))
unfolding after_settle
settle-Inv w i h = elim (Option-cases (get_elem? w.settling i)) [
  | inl e ↦ rw (e, after_settle) h
  | inr (n, e) ↦ rw (e, after_settle) (ground (arith, total-remove_at w.settling i n e))
]

retry-Inv : (w : World) (i : ℕ) → Inv w → Inv (after_retry w i (get_elem? w.leases i))
unfolding after_retry
retry-Inv w i h = elim (Option-cases (get_elem? w.leases i)) [
  | inl e ↦ rw (e, after_retry) h
  | inr (l, e) ↦
      rw (e, after_retry)
        (ground (
          arith,
          open_length-set w.leases i l (record l { done = true }) e refl,
          open_length-set w.leases i l l e,
          length-append l.items w.queue.items,
        ))
]

-- Every move keeps the capacity and the count of leased batches.
pub step-Inv : (w : World) (m : Move) → Inv w → Inv (step w m)
unfolding step try_enqueue
step-Inv w (enqueue b) h = ground (arith, length-append w.queue.items (b ∷ []))
step-Inv w call h = record { within = h.within; exact = h.exact }
step-Inv w (look max) h = ground (arith, look-Inv w max h)
step-Inv w wake h = ground arith
step-Inv w cancel h = ground arith
step-Inv w (look_to_dequeue max) h = ground (arith, dequeue-Inv w max h)
step-Inv w (marks i) h = mark-Inv w i h
step-Inv w (settles i) h = settle-Inv w i h
step-Inv w (retries i) h = retry-Inv w i h

pub run-Inv : (w : World) (ms : List Move) → Inv w → Inv (run w ms)
unfolding run
run-Inv w [] h = h
run-Inv w (m ∷ ms) h = run-Inv (step w m) ms (step-Inv w m h)

-- After any interleaving of calls on an empty queue: the queued batches, the leased ones and those of
-- commits under way together stay within the capacity, and `inFlight` is the number of batches in
-- open leases and in commits under way.
pub reachable_bounded :
    (capacity : ℕ) (ms : List Move)
    → let w = run (start capacity) ms in
      (length w.queue.items + (open_length w.leases + total w.settling) ≤ w.queue.capacity)
      × (w.queue.in_flight ≡ open_length w.leases + total w.settling)
reachable_bounded capacity ms = omega (arith, run-Inv (start capacity) ms (start-Inv capacity))
