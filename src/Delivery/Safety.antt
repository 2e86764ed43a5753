-- ===== src/Delivery/Safety.antt =====
-- A round never drops what the service has not stored.
use kube_cost.Prelude.{
  ℕ, String, ◌≤◌, ◌<◌, ◌≡◌, refl, sym, subst, ◌⊎◌, inl, inr, true, not, ◌||◌, none, List, [], ◌∷◌,
  leb, contains, All, arith, ◌∙◌,
}
use kube_cost.Wire.{
  Observation, ServerFrame, hello, acknowledgement, configuration, flow_control, stream_error,
  Codec,
}
use kube_cost.Queue.{Queue}
use kube_cost.Buffer
use kube_cost.Buffer.{Buffer, batch_locked, acknowledge}
use kube_cost.Buffer.Order.{IsOrdered}
use kube_cost.Buffer.Batches.{sequences}
use kube_cost.Buffer.Acknowledged.{contains-filter}
use kube_cost.Client.{await_acknowledgement, make_batch, terminal}
use kube_cost.Client.Batches.{Fits, make_batch-accepted}
use kube_cost.Server.Batch.{Frame, handle_batch, success, send_failed, cancelled, Returned}
use kube_cost.Server.Checks.{validate_batch}
use kube_cost.Delivery.{
  System, Setting, Round, delivered, but_last, frame_of, exchange, round, round_cases,
}

-- An acknowledgement of the watermark `w` that rejects nothing, or another frame.
abbrev IsPlain : ℕ → ServerFrame → Type 0
IsPlain w (acknowledgement a) = (a.persisted_through_sequence ≡ w) × (a.rejections ≡ [])
IsPlain w _ = Unit

handle_batch-IsPlain :
    (codec : Codec) (f : Frame) (p : ℕ) (q : Queue)
    → validate_batch codec f.config f.received ≡ none
    → let o = handle_batch codec f p q in All (IsPlain o.persisted_through) o.frames
unfolding handle_batch
handle_batch-IsPlain codec f p q ok = ground arith

All-but_last : (P : ServerFrame → Type 0) (fs : List ServerFrame) → All P fs → All P (but_last fs)
All-but_last P [] h = tt
All-but_last P (f ∷ []) h = tt
All-but_last P (f ∷ g ∷ fs) h = (h.0, All-but_last P (g ∷ fs) h.1)

All-delivered :
    (P : ServerFrame → Type 0) (fs : List ServerFrame) (r : Returned)
    → All P fs
    → All P (delivered fs r)
All-delivered P fs send_failed h = All-but_last P fs h
All-delivered P fs success h = h
All-delivered P fs cancelled h = h

await-IsPlain :
    (w : ℕ) (id : String) (fs : List ServerFrame) (b : Buffer)
    → All (IsPlain w) fs
    → let b' = (await_acknowledgement id fs b).1 in (b' ≡ b) ⊎ (b' ≡ acknowledge w [] b)
unfolding await_acknowledgement terminal
await-IsPlain w id [] b h = inl refl
await-IsPlain w id (acknowledgement a ∷ fs) b h = ground (arith, await-IsPlain w id fs b h.1)
await-IsPlain w id (stream_error e ∷ fs) b h = inl refl
await-IsPlain w id (hello x ∷ fs) b h = await-IsPlain w id fs b h.1
await-IsPlain w id (configuration x ∷ fs) b h = await-IsPlain w id fs b h.1
await-IsPlain w id (flow_control x ∷ fs) b h = await-IsPlain w id fs b h.1

-- The entries are complete for the service's checks, and the batch has an ID and fits its limits.
abbrev pub RoundFits : Setting → Round → List Observation → List Observation → Type 0
RoundFits z r entries os =
    Fits z.codec z.config z.maximum entries (make_batch z.codec z.hello.cluster_id r.now os)

module _ (z : Setting) (r : Round) (s : System) (ordered : IsOrdered s.buffer)
    (room : 1 ≤ z.maximum) where
  -- A round whose batch fits leaves the buffer, or drops from it exactly what lies under the
  -- watermark that the service has reached.
  pub exchange-buffer :
      {os : List Observation}
      → batch_locked z.maximum s.buffer ≡ Buffer.batch os
      → RoundFits z r s.buffer.entries os
      → let s' = exchange z r os s in
        (s'.buffer ≡ s.buffer) ⊎ (s'.buffer ≡ acknowledge s'.watermark [] s.buffer)
  unfolding exchange
  exchange-buffer {os} e fits =
      let f = frame_of z r os in
      let o = handle_batch z.codec f s.watermark s.queue in
      let ok =
        make_batch-accepted z.codec z.config z.maximum s.buffer z.hello.cluster_id r.now ordered
          room e fits in
      await-IsPlain o.persisted_through f.received.batch_id (delivered o.frames o.returned) s.buffer
        (All-delivered (IsPlain o.persisted_through) o.frames o.returned
          (handle_batch-IsPlain z.codec f s.watermark s.queue ok))

acknowledged-kept :
    (w n : ℕ) (b : Buffer)
    → w < n
    → contains (sequences b.entries) n ≡ true
    → contains (sequences (acknowledge w [] b).entries) n ≡ true
unfolding acknowledge
acknowledged-kept w n b above here =
    let keep = λ (k : ℕ). not (leb k w || contains [] k) in
    contains-filter keep b.entries n (ground arith) ∙ here

-- In a round from an ordered buffer, with batches of at least one record: if the entries of the
-- buffer are complete for the service's checks, and the batch has an ID and is within the service's
-- limits, whenever there is one, then an observation that is in the buffer before the round, and
-- lies above the watermark of the service after it, is still in the buffer after it.
pub round-keeps :
    (z : Setting) (r : Round) (s : System) (n : ℕ)
    → IsOrdered s.buffer
    → 1 ≤ z.maximum
    → ((os : List Observation)
        → batch_locked z.maximum s.buffer ≡ Buffer.batch os
        → RoundFits z r s.buffer.entries os)
    → (round z r s).watermark < n
    → contains (sequences s.buffer.entries) n ≡ true
    → contains (sequences (round z r s).buffer.entries) n ≡ true
round-keeps z r s n ordered room fits above here =
    round_cases (λ s'. s'.watermark < n → contains (sequences s'.buffer.entries) n ≡ true) z r s
      (λ _. here)
      (λ os e above'. elim (exchange-buffer z r s ordered room e (fits os e)) [
        | inl same ↦ subst (λ b. contains (sequences b.entries) n ≡ true) (sym same) here
        | inr dropped ↦
            subst (λ b. contains (sequences b.entries) n ≡ true) (sym dropped)
              (acknowledged-kept (exchange z r os s).watermark n s.buffer above' here)
      ])
      above
