-- ===== src/Delivery/Stall.antt =====
-- A gap behind the watermark is never closed: the agent ignores `retry_ranges`, and it keeps
-- sending the first run of its buffer. A final rejection leaves such a gap when observations
-- remain.
use kube_cost.Prelude.{
  ℕ, suc, ◌+◌, ◌≤◌, ◌<◌, ◌≡◌, refl, sym, ap, subst, ◌∙◌, inl, inr, not, ◌||◌, none, List, [], ◌∷◌,
  leb, contains, filter, arith,
}
use kube_cost.Wire.{Observation, u64_mod}
use kube_cost.Buffer
use kube_cost.Buffer.{Buffer, batch_locked, acknowledge, sequence_at}
use kube_cost.Buffer.Order.{Ascending, IsOrdered, acknowledge-IsOrdered}
use kube_cost.Client.{make_batch, last_sequence_of}
use kube_cost.Client.Batches.{make_batch-accepted, first_of, last_fits}
use kube_cost.Server.Checks.{validate_batch}
use kube_cost.Server.Progress.{handle_batch-gap}
use kube_cost.Delivery.{System, Setting, Round, frame_of, exchange, round, round_cases}
use kube_cost.Delivery.Safety.{RoundFits, exchange-buffer}

-- The first buffered observation does not continue the watermark, and what is sent fits.
pub record IsStalled (z : Setting) (s : System) : Type 0 where
  pub ordered : IsOrdered s.buffer
  pub room : 1 ≤ z.maximum
  pub gap : s.watermark + 1 < sequence_at s.buffer.entries 0
  pub fits :
      (r : Round) (os : List Observation)
      → batch_locked z.maximum s.buffer ≡ Buffer.batch os
      → RoundFits z r s.buffer.entries os

-- Nothing has been delivered, and nothing has left the buffer.
pub record Unmoved (s s' : System) : Type 0 where
  pub watermark : s'.watermark ≡ s.watermark
  pub queue : s'.queue ≡ s.queue
  pub entries : s'.buffer.entries ≡ s.buffer.entries

filter-all :
    (w k : ℕ) (os : List Observation)
    → w < k
    → Ascending k os
    → filter (λ o. not (leb o.sequence w || contains [] o.sequence)) os ≡ os
filter-all w k [] h a = refl
filter-all w k (o ∷ os) h a = ground (arith, filter-all w (suc o.sequence) os (omega arith) a.1)

Ascending-head : (k : ℕ) (os : List Observation) → Ascending k os → Ascending (sequence_at os 0) os
Ascending-head k [] a = tt
Ascending-head k (o ∷ os) a = (omega arith, a.1)

acknowledged-same :
    (w : ℕ) (b : Buffer)
    → IsOrdered b
    → w < sequence_at b.entries 0
    → (acknowledge w [] b).entries ≡ b.entries
unfolding acknowledge
acknowledged-same w b ordered above =
    filter-all w (sequence_at b.entries 0) b.entries above
      (Ascending-head 1 b.entries ordered.ascending)

gap_facts :
    (z : Setting) (r : Round) (s : System) (os : List Observation)
    → let b = make_batch z.codec z.hello.cluster_id r.now os in
      validate_batch z.codec z.config b ≡ none
      → s.watermark + 1 < sequence_at os 0
      → last_sequence_of os < u64_mod
      → ((exchange z r os s).watermark ≡ s.watermark) × ((exchange z r os s).queue ≡ s.queue)
unfolding exchange
gap_facts z r s os ok gap fits =
    let g =
      handle_batch-gap z.codec (frame_of z r os) s.watermark s.queue ok (unfold make_batch in gap)
        (unfold make_batch in fits) in
    (g.0, g.1)

exchange-Unmoved :
    (z : Setting) (r : Round) (s : System) {os : List Observation}
    → IsStalled z s
    → batch_locked z.maximum s.buffer ≡ Buffer.batch os
    → Unmoved s (exchange z r os s) × IsOrdered (exchange z r os s).buffer
exchange-Unmoved z r s {os} h e =
    let f = frame_of z r os in
    let sent = f.received in
    let fits = h.fits r os e in
    let ok =
      make_batch-accepted z.codec z.config z.maximum s.buffer z.hello.cluster_id r.now h.ordered
        h.room e fits in
    let first =
      first_of z.codec z.config z.maximum s.buffer z.hello.cluster_id r.now h.ordered h.room e in
    let last =
      last_fits z.codec z.config z.maximum s.buffer z.hello.cluster_id r.now h.ordered h.room e in
    let g = gap_facts z r s os ok (omega (arith, h.gap, first)) last in
    let same = acknowledged-same s.watermark s.buffer h.ordered (omega (arith, h.gap)) in
    elim (exchange-buffer z r s h.ordered h.room e fits) [
      | inl b ↦ (
        record { watermark = g.0; queue = g.1; entries = ap (λ (x : Buffer). x.entries) b },
        subst IsOrdered (sym b) h.ordered,
      )
      | inr b ↦ (
        record {
          watermark = g.0;
          queue = g.1;
          entries =
              ap (λ (x : Buffer). x.entries) b
              ∙ ap (λ (w : ℕ). (acknowledge w [] s.buffer).entries) g.0
              ∙ same;
        },
        subst IsOrdered (sym b)
            (acknowledge-IsOrdered (exchange z r os s).watermark [] s.buffer h.ordered),
      )
    ]

-- What is sent depends on the entries alone.
batch_locked-entries :
    (maximum : ℕ) (b b' : Buffer) (os : List Observation)
    → b'.entries ≡ b.entries
    → batch_locked maximum b' ≡ Buffer.batch os
    → batch_locked maximum b ≡ Buffer.batch os
unfolding batch_locked
batch_locked-entries maximum b b' os e h = ground arith

Unmoved-IsStalled :
    (z : Setting) (s s' : System)
    → IsStalled z s
    → Unmoved s s' × IsOrdered s'.buffer
    → Unmoved s s' × IsStalled z s'
Unmoved-IsStalled z s s' h (u, ordered) = (
  u,
  record {
    ordered = ordered;
    room = h.room;
    gap = rw (u.watermark, u.entries) h.gap;
    fits = λ r os e.
        rw u.entries
          (h.fits r os (batch_locked-entries z.maximum s.buffer s'.buffer os u.entries e));
  },
)

-- One turn of the loop, whatever the service's calls return, changes nothing.
pub IsStalled-round :
    (z : Setting) (r : Round) (s : System)
    → IsStalled z s
    → Unmoved s (round z r s) × IsStalled z (round z r s)
IsStalled-round z r s h =
    round_cases (λ s'. Unmoved s s' × IsStalled z s') z r s
      (record { watermark = refl; queue = refl; entries = refl }, h)
      (λ os e. Unmoved-IsStalled z s (exchange z r os s) h (exchange-Unmoved z r s h e))

unfoldable pub rounds : Setting → List Round → System → System
rounds z [] s = s
rounds z (r ∷ rs) s = rounds z rs (round z r s)

-- If the first observation in an ordered buffer does not continue the watermark, and what is sent
-- fits: any number of rounds, whatever the service's calls return, leaves the watermark, the queue
-- and the buffered observations.
pub stalled_forever :
    (z : Setting) (rs : List Round) (s : System) → IsStalled z s → Unmoved s (rounds z rs s)
unfolding rounds
stalled_forever z [] s h = record { watermark = refl; queue = refl; entries = refl }
stalled_forever z (r ∷ rs) s h =
    let (u, h') = IsStalled-round z r s h in
    let u' = stalled_forever z rs (round z r s) h' in
    record {
      watermark = u'.watermark ∙ u.watermark;
      queue = u'.queue ∙ u.queue;
      entries = u'.entries ∙ u.entries;
    }
