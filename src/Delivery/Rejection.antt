-- ===== src/Delivery/Rejection.antt =====
-- A final rejection of the first buffered observations leaves a gap behind the watermark.
use kube_cost.Prelude.{
  ℕ, suc, ◌+◌, ◌≤◌, ◌<◌, ◌≡◌, ◌≢◌, refl, ap, subst, ◌⊎◌, inl, inr, Bool, true, false, not, ◌||◌,
  none, some, List, [], ◌∷◌, leb, contains, filter, length, arith, Option-cases, eq_iff,
}
use kube_cost.Wire.{Observation, BatchError, RejectionCode, ServerFrame, Codec}
use kube_cost.Queue.{Queue}
use kube_cost.Buffer
use kube_cost.Buffer.{Buffer, batch_locked, acknowledge, sequence_at}
use kube_cost.Buffer.Order.{Ascending, Ascending-filter, Ascending-above, IsOrdered}
use kube_cost.Buffer.Batches.{sequences}
use kube_cost.Client.{await_acknowledgement, make_batch, terminal}
use kube_cost.Client.Batches.{first_of, some_sent, within_entries}
use kube_cost.Server.Batch.{Frame, handle_batch, ack}
use kube_cost.Server.Checks.{validate_batch, rejections, rejections_for_batch, rejection_code}
use kube_cost.Delivery.{System, Setting, Round, frame_of, exchange, delivered}

-- What is left of ascending entries, if the first is dropped.
head_dropped :
    (keep : ℕ → Bool) (os : List Observation) (k : ℕ)
    → Ascending k os
    → 1 ≤ length os
    → keep (sequence_at os 0) ≡ false
    → (filter (λ o. keep o.sequence) os ≡ [])
      ⊎ (sequence_at os 0 < sequence_at (filter (λ o. keep o.sequence) os) 0)
head_dropped keep [] k a n h = elim n [ ]
head_dropped keep (o ∷ os) k a n h =
    let rest = filter (λ (x : Observation). keep x.sequence) os in
    rw h (
      Ascending-above o.sequence rest
        (Ascending-filter (λ x. keep x.sequence) (suc o.sequence) os a.1))

terminal-rejections :
    (code : RejectionCode) (e : BatchError) (os : List Observation)
    → terminal (rejections code e os) ≡ sequences os
unfolding terminal rejections
terminal-rejections code e [] = refl
terminal-rejections code e (o ∷ os) = ap (λ r. o.sequence ∷ r) (terminal-rejections code e os)

contains-head :
    (os : List Observation) → 1 ≤ length os → contains (sequences os) (sequence_at os 0) ≡ true
contains-head [] n = elim n [ ]
contains-head (o ∷ os) n = ground arith

module _ (codec : Codec) (f : Frame) (p : ℕ) (q : Queue) (b : Buffer) (e : BatchError) where
  abbrev answer_to : ServerFrame
  answer_to = ack f.received p p [] (rejections_for_batch f.received (rejection_code e) e)

  handle_batch-rejected :
      validate_batch codec f.config f.received ≡ some e
      → f.calls.ack_sent ≡ true
      → let o = handle_batch codec f p q in
        (o.persisted_through ≡ p) × (delivered o.frames o.returned ≡ answer_to ∷ [])
  unfolding handle_batch
  handle_batch-rejected bad arrives = ground arith

  await-answer_to :
      1 ≤ length f.received.observations
      → (await_acknowledgement f.received.batch_id (answer_to ∷ []) b).1
        ≡ acknowledge p (sequences f.received.observations) b
  unfolding await_acknowledgement rejections_for_batch
  await-answer_to n = ground (
    arith,
    eq_iff f.received.batch_id f.received.batch_id,
    terminal-rejections (rejection_code e) e f.received.observations,
  )

acknowledged-gap :
    (w : ℕ) (ts : List ℕ) (b : Buffer)
    → IsOrdered b
    → 1 ≤ length b.entries
    → w < sequence_at b.entries 0
    → contains ts (sequence_at b.entries 0) ≡ true
    → let es = (acknowledge w ts b).entries in (es ≡ []) ⊎ (w + 1 < sequence_at es 0)
unfolding acknowledge
acknowledged-gap w ts b ordered n above named =
    let keep = λ (k : ℕ). not (leb k w || contains ts k) in
    elim (head_dropped keep b.entries 1 ordered.ascending n (ground arith)) [
      | inl none_left ↦ inl none_left
      | inr later ↦ inr (omega (arith, later))
    ]

-- If a batch cut from an ordered buffer above the watermark fails `validateBatch`, and the answer
-- arrives, then the watermark is as before, and what is left in the buffer, if anything, starts
-- behind a gap.
pub rejection_leaves_gap :
    (z : Setting) (r : Round) (s : System) {os : List Observation}
    → IsOrdered s.buffer
    → 1 ≤ z.maximum
    → s.watermark < sequence_at s.buffer.entries 0
    → batch_locked z.maximum s.buffer ≡ Buffer.batch os
    → validate_batch z.codec z.config (make_batch z.codec z.hello.cluster_id r.now os) ≢ none
    → r.calls.ack_sent ≡ true
    → let s' = exchange z r os s in
      (s'.watermark ≡ s.watermark)
      × ((s'.buffer.entries ≡ []) ⊎ (s.watermark + 1 < sequence_at s'.buffer.entries 0))
unfolding exchange make_batch
rejection_leaves_gap z r s {os} ordered room above e bad arrives =
    let f = frame_of z r os in
    elim (Option-cases (validate_batch z.codec z.config f.received)) [
      | inl ok ↦ absurd (bad ok)
      | inr (x, no_good) ↦
          let n =
            some_sent z.codec z.config z.maximum s.buffer z.hello.cluster_id r.now ordered room e in
          let some_entry : 1 ≤ length s.buffer.entries = omega (
            arith,
            within_entries z.codec z.config z.maximum s.buffer z.hello.cluster_id r.now ordered room
                e,
            n,
          ) in
          let first =
            first_of z.codec z.config z.maximum s.buffer z.hello.cluster_id r.now ordered room e in
          let h = handle_batch-rejected z.codec f s.watermark s.queue s.buffer x no_good arrives in
          let a = await-answer_to z.codec f s.watermark s.queue s.buffer x n in
          let named = subst (λ k. contains (sequences os) k ≡ true) first (contains-head os n) in
          let rest =
            acknowledged-gap s.watermark (sequences os) s.buffer ordered some_entry above named in
          (h.0, rw h.1 (rw a rest))
    ]
