-- ===== src/Server/Valid.antt =====
-- What the checks on a batch establish, and that they refuse nothing else.
use kube_cost.Prelude.{
  ℕ, suc, ◌+◌, ◌-◌, ◌%◌, ◌≤◌, ◌<◌, ◌≡◌, ◌≢◌, ◌↔◌, refl, true, false, ◌||◌, Option, none, some, List,
  [], ◌∷◌, ltb, ◌==◌, str_eq, eq_iff, length, range_from, All, arith,
}
use native.Mathlib.Nat.{add-zero}
use kube_cost.Wire.{Payload, Observation, ObservationBatch, u64_mod, Codec}
use kube_cost.Buffer.Batches.{sequences}
use kube_cost.Server.Config.{Config}
use kube_cost.Server.Checks.{
  validate_payload, validate_observation, validate_observations, batch_checksum, bytes_equal,
  validate_batch,
}

abbrev IsGoodPayload : Option Payload → Type 0
IsGoodPayload none = ⊥
IsGoodPayload (some p) = validate_payload p ≡ none

-- An observation with an event ID and a payload that passes the checks for its kind.
abbrev pub IsComplete : Observation → Type 0
IsComplete o = (o.event_id ≢ "") × IsGoodPayload o.payload

pub record IsValid (codec : Codec) (config : Config) (b : ObservationBatch) : Type 0 where
  pub named : b.batch_id ≢ ""
  pub some_observation : 1 ≤ length b.observations
  pub few : length b.observations % 4294967296 ≤ config.max_batch_records
  pub small : codec.size b ≤ config.max_batch_bytes
  pub first_pos : 1 ≤ b.first_sequence
  pub counted : b.first_sequence + length b.observations ≡ b.last_sequence + 1
  pub in_sequence : sequences b.observations ≡ range_from b.first_sequence (length b.observations)
  pub complete : All IsComplete b.observations
  pub checksum : b.payload_checksum ≡ batch_checksum codec b.observations

bytes_equal_iff : (xs ys : List ℕ) → (bytes_equal xs ys ≡ true) ↔ (xs ≡ ys)
unfolding bytes_equal
bytes_equal_iff [] [] = (λ _. refl, λ _. refl)
bytes_equal_iff [] (y ∷ ys) = (λ e. cc, λ e. cc)
bytes_equal_iff (x ∷ xs) [] = (λ e. cc, λ e. cc)
bytes_equal_iff (x ∷ xs) (y ∷ ys) =
    let ih = bytes_equal_iff xs ys in (λ e. ground (arith, ih), λ e. ground (arith, ih))

validate_observation_iff :
    (n : ℕ) (o : Observation)
    → (validate_observation n o ≡ none) ↔ ((o.sequence ≡ n) × IsComplete o)
unfolding validate_observation
validate_observation_iff n o =
    (λ h. ground (arith, eq_iff o.event_id ""), λ h. ground (arith, eq_iff o.event_id ""))

-- From place `index` on, the numbers are those that follow `first + index`.
validate_observations_iff :
    (first index : ℕ) (os : List Observation)
    → first + index + length os ≤ u64_mod
    → (validate_observations first index os ≡ none)
      ↔ ((sequences os ≡ range_from (first + index) (length os)) × All IsComplete os)
unfolding validate_observations
validate_observations_iff first index [] h = (λ _. (refl, tt), λ _. refl)
validate_observations_iff first index (o ∷ os) h =
    let e : (first + index) % u64_mod ≡ first + index = omega arith in
    let f : first + suc index ≡ suc (first + index) = omega arith in
    let head = validate_observation_iff (first + index) o in
    let tail = rw f at (validate_observations_iff first (suc index) os (omega arith)) in
    rw e ((λ p. ground (arith, head, tail), λ p. ground (arith, head, tail)))

-- The arithmetic of the range on uint64.
count_iff :
    (first last n : ℕ)
    → last < u64_mod
    → 1 ≤ first
    → first ≤ last
    → 1 ≤ n
    → (n ≡ (last - first + 1) % u64_mod) ↔ (first + n ≡ last + 1)
count_iff first last n h p q r = (λ e. omega arith, λ e. omega arith)

-- The tests of `validateBatch`, one by one.
record Passed (codec : Codec) (config : Config) (b : ObservationBatch) : Type 0 where
  id_test : str_eq b.batch_id "" ≡ false
  empty_test : (length b.observations == 0) ≡ false
  records_test : ltb config.max_batch_records (length b.observations % 4294967296) ≡ false
  bytes_test : ltb config.max_batch_bytes (codec.size b) ≡ false
  range_test : (b.first_sequence == 0 || ltb b.last_sequence b.first_sequence) ≡ false
  count_test : (length b.observations == (b.last_sequence - b.first_sequence + 1) % u64_mod) ≡ true
  observations_test : validate_observations b.first_sequence 0 b.observations ≡ none
  checksum_test : bytes_equal b.payload_checksum (batch_checksum codec b.observations) ≡ true

module _ (codec : Codec) (config : Config) (b : ObservationBatch) where
  Passed-iff : (validate_batch codec config b ≡ none) ↔ Passed codec config b
  unfolding validate_batch
  Passed-iff = (λ v. ground arith, λ v. ground arith)

  IsValid-iff : b.last_sequence < u64_mod → Passed codec config b ↔ IsValid codec config b
  IsValid-iff h = (
    λ v.
        let counted =
          (count_iff b.first_sequence b.last_sequence (length b.observations) h (ground arith)
              (ground arith) (ground arith)).0
            (ground arith) in
        let obs =
          (validate_observations_iff b.first_sequence 0 b.observations (omega arith)).0
            v.observations_test in
        record {
          named = λ e. ground (arith, v.id_test, eq_iff b.batch_id "");
          some_observation = ground (arith, v.empty_test);
          few = ground (arith, v.records_test);
          small = ground (arith, v.bytes_test);
          first_pos = ground (arith, v.range_test);
          counted = counted;
          in_sequence = rw add-zero at obs.0;
          complete = obs.1;
          checksum =
              (bytes_equal_iff b.payload_checksum (batch_checksum codec b.observations)).0
                v.checksum_test;
        },
    λ v.
        let count_test =
          (count_iff b.first_sequence b.last_sequence (length b.observations) h (omega (arith, v))
              (omega (arith, v)) (omega (arith, v))).1
            v.counted in
        let obs =
          (validate_observations_iff b.first_sequence 0 b.observations (omega (arith, v))) in
        record {
          id_test = ground (arith, v.named, eq_iff b.batch_id "");
          empty_test = ground (arith, v.some_observation);
          records_test = ground (arith, v.few);
          bytes_test = ground (arith, v.small);
          range_test = ground (arith, v.first_pos, v.counted, v.some_observation);
          count_test = ground (arith, count_test);
          observations_test = obs.1 (rw add-zero (v.in_sequence, v.complete));
          checksum_test =
              (bytes_equal_iff b.payload_checksum (batch_checksum codec b.observations)).1
                v.checksum;
        },
  )

-- If the last number is a uint64, `validateBatch` accepts a batch exactly if it has an ID and at
-- least one observation, respects the limits, its range is the consecutive numbers of its
-- observations, each of these is complete, and the checksum is theirs.
pub validate_batch_iff :
    (codec : Codec) (config : Config) (b : ObservationBatch)
    → b.last_sequence < u64_mod
    → (validate_batch codec config b ≡ none) ↔ IsValid codec config b
validate_batch_iff codec config b h =
    let p = Passed-iff codec config b in
    let q = IsValid-iff codec config b h in (λ v. q.0 (p.0 v), λ v. p.1 (q.1 v))
