-- ===== src/Queue/Conservation.antt =====
-- No batch is lost or doubled, whatever the interleaving of the queue's users.
use kube_cost.Prelude.{
  ℕ, zero, suc, ◌+◌, ◌≤◌, ◌≡◌, refl, ap, Bool, true, false, none, some, List, [], ◌∷◌, ◌++◌, arith,
  get_elem?, set, ◌==◌, count, count-append, Option-cases, inl, inr,
}
use kube_cost.Queue.{Batch, Lease, new, try_enqueue, acquire_locked, dequeue_locked, channels}
use kube_cost.Queue.Bounds.{acquire_locked-Acquired, dequeue_locked-Dequeued}
use kube_cost.Queue.World.{
  World, Move, enqueue, look, look_to_dequeue, marks, settles, retries, start, step, run,
  open_items, after_look, after_dequeue, after_mark, after_settle, after_retry,
}

-- The batches of the open leases, oldest lease first.
abbrev pub leased : List Lease → List Batch
leased [] = []
leased (l ∷ ls) = open_items l ++ leased ls

module _ (p : Batch → Bool) where
  count-leased-append :
      (ls : List Lease) (l : Lease)
      → count p (leased (ls ++ l ∷ [])) ≡ count p (leased ls) + count p (open_items l)
  count-leased-append [] l = omega (arith, count-append p (open_items l) [])
  count-leased-append (k ∷ ls) l = omega (
    arith,
    count-append p (open_items k) (leased (ls ++ l ∷ [])),
    count-append p (open_items k) (leased ls),
    count-leased-append ls l,
  )

  count-leased-set :
      (ls : List Lease) (i : ℕ) (l l' : Lease)
      → get_elem? ls i ≡ some l
      → l'.done ≡ true
      → count p (leased (set ls i l')) + count p (open_items l) ≡ count p (leased ls)
  count-leased-set [] i l l' e d = cc
  count-leased-set (k ∷ ls) zero l l' e d =
      ground (
        arith,
        count-append p (open_items k) (leased ls),
        count-append p (open_items l') (leased ls),
      )
  count-leased-set (k ∷ ls) (suc i) l l' e d = omega (
    arith,
    count-append p (open_items k) (leased (set ls i l')),
    count-append p (open_items k) (leased ls),
    count-leased-set ls i l l' e d,
  )

  -- How many accepted batches of the kind `p` there are, and where they are.
  abbrev Conserved : World → Type 0
  Conserved w =
      count p w.accepted
      ≡ count p w.queue.items + count p (leased w.leases) + count p w.committed + count p w.dequeued

  look-Conserved :
      (w : World) (max : ℕ) → Conserved w → Conserved (after_look w (acquire_locked max w.queue))
  unfolding after_look
  look-Conserved w max h = elim (Option-cases (acquire_locked max w.queue)) [
    | inl e ↦ rw (e, after_look) h
    | inr ((l, q), e) ↦
        let a = acquire_locked-Acquired max w.queue e in
        rw (e, after_look)
          (ground (
            arith,
            a,
            count-leased-append w.leases l,
            ap (count p) a.split,
            count-append p l.items q.items,
          ))
  ]

  dequeue-Conserved :
      (w : World) (max : ℕ) → Conserved w → Conserved (after_dequeue w (dequeue_locked max w.queue))
  unfolding after_dequeue
  dequeue-Conserved w max h = elim (Option-cases (dequeue_locked max w.queue)) [
    | inl e ↦ rw (e, after_dequeue) h
    | inr ((items, q), e) ↦
        let d = dequeue_locked-Dequeued max w.queue e in
        rw (e, after_dequeue)
          (ground (
            arith,
            d,
            ap (count p) d.split,
            count-append p items q.items,
            count-append p w.dequeued items,
          ))
  ]

  mark-Conserved :
      (w : World) (i : ℕ) → Conserved w → Conserved (after_mark w i (get_elem? w.leases i))
  unfolding after_mark
  mark-Conserved w i h = elim (Option-cases (get_elem? w.leases i)) [
    | inl e ↦ rw (e, after_mark) h
    | inr (l, e) ↦
        rw (e, after_mark)
          (ground (
            arith,
            count-leased-set w.leases i l (record l { done = true }) e refl,
            count-append p w.committed l.items,
          ))
  ]

  settle-Conserved :
      (w : World) (i : ℕ) → Conserved w → Conserved (after_settle w i (get_elem? w.settling i))
  unfolding after_settle
  settle-Conserved w i h = elim (Option-cases (get_elem? w.settling i)) [
    | inl e ↦ rw (e, after_settle) h
    | inr (n, e) ↦ rw (e, after_settle) h
  ]

  retry-Conserved :
      (w : World) (i : ℕ) → Conserved w → Conserved (after_retry w i (get_elem? w.leases i))
  unfolding after_retry
  retry-Conserved w i h = elim (Option-cases (get_elem? w.leases i)) [
    | inl e ↦ rw (e, after_retry) h
    | inr (l, e) ↦
        rw (e, after_retry)
          (ground (
            arith,
            count-leased-set w.leases i l (record l { done = true }) e refl,
            count-leased-set w.leases i l l e,
            count-append p l.items w.queue.items,
          ))
  ]

  step-Conserved : (w : World) (m : Move) → Conserved w → Conserved (step w m)
  unfolding step try_enqueue
  step-Conserved w (enqueue b) h =
      ground (arith, count-append p w.queue.items (b ∷ []), count-append p w.accepted (b ∷ []))
  step-Conserved w (look max) h = ground (arith, look-Conserved w max h)
  step-Conserved w (look_to_dequeue max) h = ground (arith, dequeue-Conserved w max h)
  step-Conserved w (marks i) h = mark-Conserved w i h
  step-Conserved w (settles i) h = settle-Conserved w i h
  step-Conserved w (retries i) h = retry-Conserved w i h
  step-Conserved w _ h = ground arith

  run-Conserved : (w : World) (ms : List Move) → Conserved w → Conserved (run w ms)
  unfolding run
  run-Conserved w [] h = h
  run-Conserved w (m ∷ ms) h = run-Conserved (step w m) ms (step-Conserved w m h)

-- After any interleaving of calls of `TryEnqueue`, `Acquire`, `Dequeue`, `Commit` and `Retry` on an
-- empty queue, and for any kind `p` of batches: as many were accepted as are queued, in open leases,
-- committed and handed out by `Dequeue` together.
pub conservation :
    (p : Batch → Bool) (capacity : ℕ) (ms : List Move)
    → let w = run (start capacity) ms in
      count p w.accepted
      ≡ count p w.queue.items + count p (leased w.leases) + count p w.committed + count p w.dequeued
conservation p capacity ms = run-Conserved p (start capacity) ms (unfold start new in refl)

channels-append : (xs ys : List Batch) → channels (xs ++ ys) ≡ channels xs ++ channels ys
channels-append [] ys = refl
channels-append (b ∷ xs) ys = ground (arith, channels-append xs ys)

abbrev ClosedExactly : World → Type 0
ClosedExactly w = w.closed ≡ channels w.committed

mark-ClosedExactly :
    (w : World) (i : ℕ) → ClosedExactly w → ClosedExactly (after_mark w i (get_elem? w.leases i))
unfolding after_mark
mark-ClosedExactly w i h = elim (Option-cases (get_elem? w.leases i)) [
  | inl e ↦ rw (e, after_mark) h
  | inr (l, e) ↦ rw (e, after_mark) (ground (arith, channels-append w.committed l.items))
]

step-ClosedExactly : (w : World) (m : Move) → ClosedExactly w → ClosedExactly (step w m)
unfolding step try_enqueue after_look after_dequeue after_settle after_retry
step-ClosedExactly w (marks i) h = mark-ClosedExactly w i h
step-ClosedExactly w _ h = ground arith

run-ClosedExactly : (w : World) (ms : List Move) → ClosedExactly w → ClosedExactly (run w ms)
unfolding run
run-ClosedExactly w [] h = h
run-ClosedExactly w (m ∷ ms) h = run-ClosedExactly (step w m) ms (step-ClosedExactly w m h)

abbrev pub notifies : ℕ → Batch → Bool
notifies c b = elim b.persisted [ none ↦ false | some d ↦ d == c ]

count-channels :
    (c : ℕ) (bs : List Batch) → count (λ d. d == c) (channels bs) ≡ count (notifies c) bs
count-channels c [] = refl
count-channels c (b ∷ bs) = ground (arith, count-channels c bs)

-- After any interleaving of calls on an empty queue: if at most one accepted batch carries the
-- channel `c`, then `c` has been closed at most once, and as often as its batch was committed.
pub channel_closed_once :
    (c capacity : ℕ) (ms : List Move)
    → let w = run (start capacity) ms in
      count (notifies c) w.accepted ≤ 1
      → (count (λ d. d == c) w.closed ≤ 1)
        × (count (λ d. d == c) w.closed ≡ count (notifies c) w.committed)
channel_closed_once c capacity ms h =
    let w = run (start capacity) ms in
    let e = run-ClosedExactly (start capacity) ms (unfold start in refl) in
    omega (
      arith,
      conservation (notifies c) capacity ms,
      ap (count (λ d. d == c)) e,
      count-channels c w.committed,
    )
