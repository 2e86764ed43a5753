-- ===== src/Server/Progress.antt =====
-- How `handleBatch` moves the watermark of a cluster, and what it promises to the agent.
use kube_cost.Prelude.{
  ◌++◌, ℕ, ◌+◌, ◌-◌, ◌%◌, ◌≤◌, ◌<◌, ◌≡◌, ◌≢◌, ◌⊎◌, true, none, List, [], ◌∷◌, length, All, arith,
}
use kube_cost.Wire.{ObservationBatch, SequenceRange, ServerFrame, acknowledgement, u64_mod, Codec}
use kube_cost.Queue.{Queue, try_enqueue}
use kube_cost.Server.Checks.{validate_batch}
use kube_cost.Server.Valid.{validate_batch_iff}
use kube_cost.Server.Suffix.{suffix_after}
use kube_cost.Server.Batch.{Frame, success, ack, handle_batch, queued_batch}

-- The watermark moved: the batch was valid, joined the watermark and passed it, its new part was
-- archived and entered the queue at its end, the worker reported it stored, and the checkpoint was saved.
pub record Advanced (codec : Codec) (f : Frame) (p : ℕ) (q : Queue) : Type 0 where
  pub accepted : validate_batch codec f.config f.received ≡ none
  pub passes : p < f.received.last_sequence
  pub joins : f.received.first_sequence ≤ (p + 1) % u64_mod
  pub archived : f.calls.archived ≡ true
  pub entered : (try_enqueue (queued_batch f (suffix_after codec f.received p)) q).0 ≡ true
  pub stored : f.calls.notified ≡ true
  pub saved : f.calls.saved ≡ true
  pub queued :
      (handle_batch codec f p q).queue.items
      ≡ q.items ++ queued_batch f (suffix_after codec f.received p) ∷ []

module _ (codec : Codec) (f : Frame) (p : ℕ) (q : Queue) where
  -- `handleBatch` leaves the watermark, or moves it to the end of the batch; then the batch passed
  -- the checks, joins the watermark and passes it, the archive, the enqueue, the wait and the
  -- checkpoint succeeded, and the queue holds the part behind the watermark as its last batch.
  pub handle_batch_advances :
      let p' = (handle_batch codec f p q).persisted_through in
      (p' ≡ p) ⊎ ((p' ≡ f.received.last_sequence) × Advanced codec f p q)
  unfolding handle_batch try_enqueue
  handle_batch_advances = ground arith

  -- `handleBatch` leaves the queue, or offers it the part behind the watermark of a batch that
  -- passes the checks, joins the watermark and passes it.
  pub handle_batch-queue :
      let q' = (handle_batch codec f p q).queue in
      let new = queued_batch f (suffix_after codec f.received p) in
      (q' ≡ q)
      ⊎ ((q' ≡ (try_enqueue new q).1)
          × (validate_batch codec f.config f.received ≡ none)
          × (p < f.received.last_sequence)
          × (f.received.first_sequence ≤ (p + 1) % u64_mod))
  unfolding handle_batch try_enqueue
  handle_batch-queue = ground arith

-- The watermark that a frame promises, if it is an acknowledgement.
abbrev pub Promises : (ℕ → Type 0) → ServerFrame → Type 0
Promises P (acknowledgement a) = P a.persisted_through_sequence
Promises P _ = Unit

-- Every acknowledgement that `handleBatch` sends names the watermark that the call leaves behind.
pub handle_batch-Promises :
    (codec : Codec) (f : Frame) (p : ℕ) (q : Queue)
    → let o = handle_batch codec f p q in All (Promises (λ n. n ≡ o.persisted_through)) o.frames
unfolding handle_batch
handle_batch-Promises codec f p q = ground arith

-- A batch that fails the checks is answered by one frame, and leaves the watermark and the queue.
pub handle_batch-invalid :
    (codec : Codec) (f : Frame) (p : ℕ) (q : Queue)
    → validate_batch codec f.config f.received ≢ none
    → let o = handle_batch codec f p q in
      (o.persisted_through ≡ p) × (o.queue ≡ q) × (length o.frames ≡ 1)
unfolding handle_batch
handle_batch-invalid codec f p q bad = ground arith

-- The last frame is an acknowledgement of the batch.
abbrev pub LastAcknowledges : ObservationBatch → List ServerFrame → Type 0
LastAcknowledges b [] = ⊥
LastAcknowledges b (acknowledgement a ∷ []) = a.batch_id ≡ b.batch_id
LastAcknowledges b (x ∷ y ∷ r) = LastAcknowledges b (y ∷ r)
LastAcknowledges b (_ ∷ []) = ⊥

-- A call of `handleBatch` that returns no error has sent, as its last frame, an acknowledgement
-- that names the ID of the batch.
pub handle_batch-answers :
    (codec : Codec) (f : Frame) (p : ℕ) (q : Queue)
    → let o = handle_batch codec f p q in
      o.returned ≡ success → LastAcknowledges f.received o.frames
unfolding handle_batch
handle_batch-answers codec f p q h = ground arith

-- A batch that passes the checks, has 64-bit sequence numbers, and leaves a gap behind the
-- watermark changes neither the watermark nor the queue; the one answer asks for exactly the
-- missing numbers.
pub handle_batch-gap :
    (codec : Codec) (f : Frame) (p : ℕ) (q : Queue)
    → validate_batch codec f.config f.received ≡ none
    → p + 1 < f.received.first_sequence
    → f.received.last_sequence < u64_mod
    → let o = handle_batch codec f p q in
      let b = f.received in
      let missing : SequenceRange = record {
        first_sequence = p + 1;
        last_sequence = b.first_sequence - 1;
      } in
      (o.persisted_through ≡ p)
      × (o.queue ≡ q)
      × (o.frames ≡ ack b b.last_sequence p (missing ∷ []) [] ∷ [])
unfolding handle_batch
handle_batch-gap codec f p q ok gap fits =
    let v = (validate_batch_iff codec f.config f.received fits).0 ok in
    ground (arith, v.counted, v.some_observation)
