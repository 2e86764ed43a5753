-- ===== src/Server/Suffix.antt =====
-- services/ingestion/server/server.go, `suffixAfter`: what a batch adds to the watermark.
use kube_cost.Prelude.{
  ℕ, zero, suc, ◌+◌, ◌-◌, ◌%◌, ◌≤◌, ◌<◌, ◌≡◌, refl, List, [], ◌∷◌, ltb, if◌then◌else◌, length, drop,
  range_from, All, All-drop, arith, inl, inr, subst, sym, ◌⊎◌,
}
use native.Mathlib.Decide.{dec_le}
use kube_cost.Wire.{Observation, ObservationBatch, u64_mod, Codec}
use kube_cost.Buffer.Batches.{sequences}
use kube_cost.Server.Config.{Config}
use kube_cost.Server.Checks.{batch_checksum}
use kube_cost.Server.Valid.{IsComplete, IsValid}

unfoldable pub suffix_after : Codec → ObservationBatch → ℕ → ObservationBatch
suffix_after codec b persisted =
    if ltb persisted b.first_sequence
    then b
    else (let next = (persisted + 1) % u64_mod in
        let rest = drop ((next + u64_mod - b.first_sequence) % u64_mod) b.observations in
        record b {
          first_sequence = next;
          observations = rest;
          payload_checksum = batch_checksum codec rest;
        })

drop-range_from : (k a n : ℕ) → drop k (range_from a n) ≡ range_from (a + k) (n - k)
drop-range_from zero a n =
    let e : a + 0 ≡ a = omega arith in let f : n - 0 ≡ n = omega arith in rw (e, f) refl
drop-range_from (suc k) a zero = let f : 0 - suc k ≡ 0 = omega arith in rw f refl
drop-range_from (suc k) a (suc n) =
    let e : a + suc k ≡ suc a + k = omega arith in
    let f : suc n - suc k ≡ n - k = omega arith in rw (e, f) (drop-range_from k (suc a) n)

sequences-drop : (k : ℕ) (os : List Observation) → sequences (drop k os) ≡ drop k (sequences os)
sequences-drop zero os = refl
sequences-drop (suc k) [] = refl
sequences-drop (suc k) (o ∷ os) = sequences-drop k os

-- A valid batch from the watermark `persisted` on: it starts right behind it, ends where `b` ends,
-- has the observations in between, each once and in order, and their checksum.
pub record IsSuffix (codec : Codec) (b : ObservationBatch) (persisted : ℕ) (s : ObservationBatch)
    : Type 0 where
  pub same_id : s.batch_id ≡ b.batch_id
  pub starts : s.first_sequence ≡ persisted + 1
  pub ends : s.last_sequence ≡ b.last_sequence
  pub in_sequence :
      sequences s.observations ≡ range_from (persisted + 1) (b.last_sequence - persisted)
  pub complete : All IsComplete s.observations
  pub checksum : s.payload_checksum ≡ batch_checksum codec s.observations

module _ (codec : Codec) (config : Config) (b : ObservationBatch) (persisted : ℕ)
    (v : IsValid codec config b) where
  continuation : b.first_sequence ≡ persisted + 1 → IsSuffix codec b persisted b
  continuation e = record {
    same_id = refl;
    starts = e;
    ends = refl;
    in_sequence =
        let n : b.last_sequence - persisted ≡ length b.observations = omega (arith, v.counted) in
        rw (n, ← e) v.in_sequence;
    complete = v.complete;
    checksum = v.checksum;
  }

  abbrev rest : List Observation
  rest = drop (persisted + 1 - b.first_sequence) b.observations

  overlap :
      persisted < b.last_sequence
      → b.first_sequence ≤ persisted
      → IsSuffix codec b persisted (record b {
        first_sequence = persisted + 1;
        observations = rest;
        payload_checksum = batch_checksum codec rest;
      })
  overlap more old = record {
    same_id = refl;
    starts = refl;
    ends = refl;
    in_sequence =
        let k = persisted + 1 - b.first_sequence in
        let e : b.first_sequence + k ≡ persisted + 1 = omega arith in
        let n : length b.observations - k ≡ b.last_sequence - persisted =
          omega (arith, v.counted) in
        rw (sequences-drop k b.observations, v.in_sequence)
          (rw (drop-range_from k b.first_sequence (length b.observations)) (rw (e, n)));
    complete = All-drop IsComplete (persisted + 1 - b.first_sequence) b.observations v.complete;
    checksum = refl;
  }

  suffix_after_cases :
      b.last_sequence < u64_mod
      → persisted < b.last_sequence
      → (suffix_after codec b persisted ≡ b) × (persisted < b.first_sequence)
        ⊎ ((suffix_after codec b persisted ≡ record b {
          first_sequence = persisted + 1;
          observations = rest;
          payload_checksum = batch_checksum codec rest;
        })
            × (b.first_sequence ≤ persisted))
  unfolding suffix_after
  suffix_after_cases fits more =
      let e : (persisted + 1) % u64_mod ≡ persisted + 1 = omega arith in
      rw e (elim (dec_le b.first_sequence persisted) [
        | yes old ↦
            let f : (persisted + 1 + u64_mod - b.first_sequence) % u64_mod
                ≡ persisted + 1 - b.first_sequence =
              omega arith in
            rw f (ground arith)
        | no new ↦ ground arith
      ])

  -- For a valid batch with a 64-bit end that joins the watermark and passes it, `suffixAfter` has
  -- the ID and the end of the batch, starts right behind the watermark, and holds the complete
  -- observations in between, each once and in order, with their checksum.
  pub suffix_after-IsSuffix :
      b.last_sequence < u64_mod
      → persisted < b.last_sequence
      → b.first_sequence ≤ persisted + 1
      → IsSuffix codec b persisted (suffix_after codec b persisted)
  suffix_after-IsSuffix fits more joins = elim (suffix_after_cases fits more) [
    | inl (e, new) ↦ subst (IsSuffix codec b persisted) (sym e) (continuation (omega arith))
    | inr (e, old) ↦ subst (IsSuffix codec b persisted) (sym e) (overlap more old)
  ]
