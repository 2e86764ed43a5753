-- ===== src/Worker/Backoff.antt =====
-- The wait after a failed write.
use kube_cost.Prelude.{
  ℕ, zero, suc, ◌^◌, ◌≢◌, ◌*◌, ◌≤◌, min, max, ◌≡◌, List, [], ◌∷◌, arith, inl, inr, Option-cases,
  sym, ap, ◌∙◌,
}
use native.Mathlib.Nat.{pow-suc, pow-succ' as pow-suc'}
use native.Mathlib.Decide.{dec_le}
use kube_cost.Queue.{acquire_locked}
use kube_cost.Queue.Bounds.{acquire_locked-Acquired, acquire_locked-none}
use kube_cost.Worker.{
  WorkerConfig, new_worker, store_error, Phase, acquiring, Line, start, Event, acquire, persist,
  timer, dispatch, step, run,
}

abbrev InBounds : WorkerConfig → Line → Type 0
InBounds c w =
    (min c.retry_initial c.retry_maximum ≤ w.backoff)
    × (w.backoff ≤ max c.retry_initial c.retry_maximum)

dispatch-InBounds :
    (c : WorkerConfig) (ph : Phase) (e : Event) (w : Line)
    → InBounds c w
    → InBounds c (dispatch c ph e w)
unfolding dispatch
dispatch-InBounds c ph e w h = ground arith

run-InBounds :
    (c : WorkerConfig) (w : Line) (es : List Event) → InBounds c w → InBounds c (run c w es)
unfolding run step
run-InBounds c w [] h = h
run-InBounds c w (e ∷ es) h = run-InBounds c (step c w e) es (dispatch-InBounds c w.phase e w h)

new_worker_pos :
    (config : WorkerConfig)
    → let c = new_worker config in (1 ≤ c.retry_initial) × (1 ≤ c.retry_maximum)
unfolding new_worker
new_worker_pos config = ground arith

-- After any events, with the defaults of `NewWorker` filled in, the wait is positive and never
-- longer than the larger of the initial and the maximal wait.
pub backoff_bounded :
    (config : WorkerConfig) (capacity : ℕ) (es : List Event)
    → let c = new_worker config in
      let w = run c (start c capacity) es in
      (1 ≤ w.backoff) × (w.backoff ≤ max c.retry_initial c.retry_maximum)
backoff_bounded config capacity es =
    let c = new_worker config in
    omega (
      arith,
      run-InBounds c (start c capacity) es (unfold start in omega arith),
      new_worker_pos config,
    )

-- `n` rounds in which the store fails, each after the wait of the round before.
abbrev pub failures : ℕ → List Event
failures zero = []
failures (suc n) = acquire ∷ persist store_error ∷ timer ∷ failures n

-- A failed round restores the queue and doubles the wait.
failed_round :
    (c : WorkerConfig) (w : Line)
    → w.phase ≡ acquiring
    → w.queue.items ≢ []
    → let w' = step c (step c (step c w acquire) (persist store_error)) timer in
      (w'.phase ≡ acquiring)
      × (w'.queue.items ≡ w.queue.items)
      × (w'.backoff ≡ min (w.backoff * 2) c.retry_maximum)
unfolding step
failed_round c w idle busy = elim (Option-cases (acquire_locked c.batch_size w.queue)) [
  | inl e ↦ absurd (busy ((acquire_locked-none c.batch_size w.queue).0 e))
  | inr ((l, q), e) ↦
      let a = acquire_locked-Acquired c.batch_size w.queue e in ground (arith, idle, e, a)
]

le-mul : (x p : ℕ) → 1 ≤ p → x ≤ x * p
le-mul x zero h = elim h [ ]
le-mul x (suc p) h = omega arith

one-le-pow : (n : ℕ) → 1 ≤ 2 ^ n
one-le-pow zero = omega arith
one-le-pow (suc n) = rw pow-suc (omega (arith, one-le-pow n))

double-min : (b m p : ℕ) → 1 ≤ p → min (min (b * 2) m * p) m ≡ min (b * (2 * p)) m
double-min b m p h =
    let x = min (b * 2) m in
    elim (dec_le (b * 2) m) [
      | yes le ↦ let e : x ≡ b * 2 = omega arith in omega (arith, ap (λ (t : ℕ). t * p) e)
      | no gt ↦
          let e : x ≡ m = omega arith in
          omega (arith, ap (λ (t : ℕ). t * p) e, le-mul m p h, le-mul (b * 2) p h)
    ]

-- From a worker that is about to acquire, with batches in the queue: after `n + 1` rounds in which
-- the store fails, the wait has doubled `n + 1` times, up to the maximum, and the queue holds the
-- batches that it held, in the same order.
pub failures-backoff :
    (c : WorkerConfig) (n : ℕ) (w : Line)
    → w.phase ≡ acquiring
    → w.queue.items ≢ []
    → let w' = run c w (failures (suc n)) in
      (w'.backoff ≡ min (w.backoff * 2 ^ suc n) c.retry_maximum) × (w'.queue.items ≡ w.queue.items)
unfolding run
failures-backoff c zero w idle busy = let r = failed_round c w idle busy in (r.2, r.1)
failures-backoff c (suc n) w idle busy =
    let r = failed_round c w idle busy in
    let w' = step c (step c (step c w acquire) (persist store_error)) timer in
    let ih = failures-backoff c n w' r.0 (λ e. busy (sym r.1 ∙ e)) in
    (
      ih.0
          ∙ rw r.2 (
              double-min w.backoff c.retry_maximum (2 ^ suc n) (one-le-pow (suc n))
              ∙ rw (← pow-suc')),
      ih.1 ∙ r.1,
    )
