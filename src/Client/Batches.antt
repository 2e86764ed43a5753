-- ===== src/Client/Batches.antt =====
-- What the agent sends passes the service's checks.
use kube_cost.Prelude.{
  ℕ, suc, ◌+◌, ◌≤◌, ◌<◌, ◌≡◌, ◌≢◌, refl, sym, ap, String, none, List, [], ◌∷◌, ◌++◌, length,
  range_from, All, arith, drop, length-append, subst,
}
use kube_cost.Wire.{Observation, ObservationBatch, u64_mod, Codec}
use kube_cost.Buffer.{Buffer, sequence_at, batch_locked}
use kube_cost.Buffer
use kube_cost.Buffer.Order.{IsOrdered}
use kube_cost.Buffer.Batches.{sequences, IsBatch, batch_locked-IsBatch, sequence_at-le}
use kube_cost.Client.{written, batch_checksum, last_sequence_of, make_batch}
use kube_cost.Server.Config.{Config}
use kube_cost.Server.Checks
use kube_cost.Server.Valid.{IsComplete, IsValid, validate_batch_iff}

written-encoded :
    (codec : Codec) (os : List Observation) → written codec os ≡ Checks.encoded codec os
unfolding written Checks.encoded
written-encoded codec [] = refl
written-encoded codec (o ∷ os) = ground (arith, written-encoded codec os)

-- Both sides compute one checksum.
pub checksums_agree :
    (codec : Codec) (os : List Observation)
    → batch_checksum codec os ≡ Checks.batch_checksum codec os
unfolding batch_checksum Checks.batch_checksum
checksums_agree codec os = ap codec.sha256 (written-encoded codec os)

last_sequence_of-run :
    (a : ℕ) (os : List Observation)
    → 1 ≤ length os
    → sequences os ≡ range_from a (length os)
    → last_sequence_of os + 1 ≡ a + length os
last_sequence_of-run a [] h e = elim h [ ]
last_sequence_of-run a (o ∷ []) h e = ground arith
last_sequence_of-run a (o ∷ x ∷ os) h e =
    let e' : sequences (x ∷ os) ≡ range_from (suc a) (length (x ∷ os)) = cc in
    omega (arith, last_sequence_of-run (suc a) (x ∷ os) (omega arith) e')

sequence_at-run :
    (a : ℕ) (os : List Observation)
    → 1 ≤ length os
    → sequences os ≡ range_from a (length os)
    → sequence_at os 0 ≡ a
sequence_at-run a [] h e = elim h [ ]
sequence_at-run a (o ∷ os) h e = ground arith

All-prefix : (P : Observation → Type 0) (xs ys : List Observation) → All P (xs ++ ys) → All P xs
All-prefix P [] ys h = tt
All-prefix P (x ∷ xs) ys h = (h.0, All-prefix P xs ys h.1)

last_sequence_of-lt :
    (m : ℕ) (os : List Observation)
    → All (λ o. o.sequence < m) os
    → 1 ≤ length os
    → last_sequence_of os < m
last_sequence_of-lt m [] h n = elim n [ ]
last_sequence_of-lt m (o ∷ []) h n = h.0
last_sequence_of-lt m (o ∷ x ∷ os) h n = last_sequence_of-lt m (x ∷ os) h.1 (omega arith)

-- What has to hold of a buffer's entries and of the limits for a batch of them to pass.
pub record Fits (codec : Codec) (config : Config) (maximum : ℕ) (entries : List Observation)
    (sent : ObservationBatch) : Type 0 where
  pub complete : All IsComplete entries
  pub named : sent.batch_id ≢ ""
  pub records : maximum ≤ config.max_batch_records
  pub few : config.max_batch_records < 4294967296
  pub size : codec.size sent ≤ config.max_batch_bytes

module _ (codec : Codec) (config : Config) (maximum : ℕ) (b : Buffer) (cluster_id : String)
    (now : ℕ) (ordered : IsOrdered b) (some_room : 1 ≤ maximum) where
  module _ {os : List Observation} (e : batch_locked maximum b ≡ Buffer.batch os) where
    abbrev pub sent : ObservationBatch
    sent = make_batch codec cluster_id now os

    pub batch_of : IsBatch maximum b os
    batch_of = batch_locked-IsBatch maximum b ordered e

    abbrev pub unsent : List Observation
    unsent = drop (length os) b.entries

    pub within_entries : length os + length unsent ≡ length b.entries
    within_entries = omega (arith, ap length batch_of.prefix, length-append os unsent)

    pub some_sent : 1 ≤ length os
    some_sent = batch_of.some_entry some_room

    pub first_of : sequence_at os 0 ≡ sequence_at b.entries 0
    first_of = sequence_at-run (sequence_at b.entries 0) os some_sent batch_of.consecutive_run

    pub last_fits : last_sequence_of os < u64_mod
    last_fits =
        let below =
          All-prefix (λ o. o.sequence < b.next) os unsent
            (subst (All (λ o. o.sequence < b.next)) (sym batch_of.prefix) ordered.below_next) in
        omega (arith, last_sequence_of-lt b.next os below some_sent, ordered.next_fits)

    -- A batch cut from an ordered buffer has what `validateBatch` asks for, if the entries are
    -- complete and the limits fit.
    pub make_batch-IsValid : Fits codec config maximum b.entries sent → IsValid codec config sent
    unfolding make_batch
    make_batch-IsValid fits = record {
      named = fits.named;
      some_observation = some_sent;
      few = omega (arith, fits.records, fits.few, batch_of.within);
      small = fits.size;
      first_pos = omega (
        arith,
        first_of,
        some_sent,
        within_entries,
        sequence_at-le 1 b.entries 0 ordered.ascending,
      );
      counted = omega (
        arith,
        first_of,
        last_sequence_of-run (sequence_at b.entries 0) os some_sent batch_of.consecutive_run,
      );
      in_sequence = rw first_of batch_of.consecutive_run;
      complete =
          All-prefix IsComplete os unsent
            (subst (All IsComplete) (sym batch_of.prefix) fits.complete);
      checksum = checksums_agree codec os;
    }

    -- A batch cut from an ordered buffer passes `validateBatch`, if the entries are complete and
    -- the batch fits the limits of the service.
    pub make_batch-accepted :
        Fits codec config maximum b.entries sent → Checks.validate_batch codec config sent ≡ none
    make_batch-accepted fits =
        (validate_batch_iff codec config sent (unfold make_batch in last_fits)).1
          (make_batch-IsValid fits)
