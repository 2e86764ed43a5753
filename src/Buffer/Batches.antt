-- ===== src/Buffer/Batches.antt =====
-- A batch is the longest run of consecutive sequence numbers at the front of the buffer.
use kube_cost.Prelude.{
  ℕ, zero, suc, ◌+◌, ◌-◌, ◌%◌, ◌≤◌, ◌<◌, min, ◌≡◌, ◌≢◌, refl, ap, List, [], ◌∷◌, ◌++◌, arith,
  length, take, drop, map, range_from, All, length-take, subst, take-append-drop,
}
use kube_cost.Wire.{Observation, u64_mod}
use kube_cost.Buffer.{Buffer, sequence_at, shrink, batch_locked, batch}
use kube_cost.Buffer.Order.{Ascending, IsOrdered}

abbrev pub sequences : List Observation → List ℕ
sequences = map (λ (o : Observation). o.sequence)

-- Ascending numbers leave no less than their distance between two places.
pub sequence_at-le :
    (k : ℕ) (os : List Observation) (n : ℕ)
    → Ascending k os
    → n < length os
    → k + n ≤ sequence_at os n
sequence_at-le k [] n a h = elim h [ ]
sequence_at-le k (o ∷ os) zero a h = omega arith
sequence_at-le k (o ∷ os) (suc n) a h =
    omega (arith, sequence_at-le (suc o.sequence) os n a.1 (omega arith))

-- If the number at place `n` is the first plus `n`, all places before are consecutive.
consecutive :
    (k : ℕ) (os : List Observation) (n : ℕ)
    → Ascending k os
    → n < length os
    → sequence_at os n ≤ k + n
    → sequences (take (suc n) os) ≡ range_from k (suc n)
consecutive k [] n a h e = elim h [ ]
consecutive k (o ∷ os) zero a h e = let p : o.sequence ≡ k = omega arith in ap (λ x. x ∷ []) p
consecutive k (o ∷ os) (suc n) a h e =
    let far = sequence_at-le (suc o.sequence) os n a.1 (omega arith) in
    let p : o.sequence ≡ k = omega (arith, far) in
    cc (
      p,
      consecutive (suc k) os n (subst (λ x. Ascending (suc x) os) p a.1) (omega arith)
          (omega arith),
    )

sequence_at-lt :
    (m : ℕ) (os : List Observation) (n : ℕ)
    → All (λ o. o.sequence < m) os
    → n < length os
    → sequence_at os n < m
sequence_at-lt m [] n a h = elim h [ ]
sequence_at-lt m (o ∷ os) zero a h = a.0
sequence_at-lt m (o ∷ os) (suc n) a h = sequence_at-lt m os n a.1 (omega arith)

-- What the loop of `Batch` stops at.
record Shrunk (os : List Observation) (count n : ℕ) : Type 0 where
  at_most : n ≤ count
  some_left : 1 ≤ count → 1 ≤ n
  run : 1 ≤ n → sequence_at os (n - 1) ≤ sequence_at os 0 + (n - 1)
  maximal : n < count → sequence_at os n ≢ (sequence_at os 0 + n) % u64_mod

shrink-Shrunk : (os : List Observation) (count : ℕ) → Shrunk os count (shrink os count)
unfolding shrink
shrink-Shrunk os zero = omega arith
shrink-Shrunk os (suc n) =
    let ih = shrink-Shrunk os n in ground (arith, ih, ih.some_left, ih.run, ih.maximal)

-- What `Batch` takes from a buffer: a prefix of at most `maximum` entries with consecutive
-- sequence numbers, which the next entry would not continue unless the maximum is reached.
pub record IsBatch (maximum : ℕ) (b : Buffer) (os : List Observation) : Type 0 where
  pub prefix : os ++ drop (length os) b.entries ≡ b.entries
  pub within : length os ≤ maximum
  pub some_entry : 1 ≤ maximum → 1 ≤ length os
  pub consecutive_run : sequences os ≡ range_from (sequence_at b.entries 0) (length os)
  pub maximal :
      length os < maximum
      → length os < length b.entries
      → sequence_at b.entries (length os) ≢ sequence_at b.entries 0 + length os

taken-consecutive :
    (k : ℕ) (os : List Observation) (n : ℕ)
    → Ascending k os
    → n ≤ length os
    → (1 ≤ n → sequence_at os (n - 1) ≤ k + (n - 1))
    → sequences (take n os) ≡ range_from k n
taken-consecutive k os zero a h e = refl
taken-consecutive k os (suc n) a h e =
    let f : suc n - 1 ≡ n = omega arith in consecutive k os n a h (rw f at (e (omega arith)))

Ascending-head : (k : ℕ) (os : List Observation) → Ascending k os → Ascending (sequence_at os 0) os
Ascending-head k [] a = tt
Ascending-head k (o ∷ os) a = (omega arith, a.1)

module _ (maximum : ℕ) (b : Buffer) (h : IsOrdered b) where
  abbrev taken : ℕ
  taken = shrink b.entries (min maximum (length b.entries))

  taken-IsBatch : 1 ≤ length b.entries → IsBatch maximum b (take taken b.entries)
  taken-IsBatch some_entry =
      let s = shrink-Shrunk b.entries (min maximum (length b.entries)) in
      let e : length (take taken b.entries) ≡ taken =
        omega (arith, s, length-take taken b.entries) in
      record {
        prefix = rw e (take-append-drop taken b.entries);
        within = omega (arith, s);
        some_entry = λ m. omega (arith, s, s.some_left);
        consecutive_run = rw e (
            taken-consecutive (sequence_at b.entries 0) b.entries taken
              (Ascending-head 1 b.entries h.ascending) (omega (arith, s)) s.run);
        maximal = λ short more. rw e λ same. s.maximal (omega arith) (
            omega (
              arith,
              same,
              h.next_fits,
              sequence_at-lt b.next b.entries taken h.below_next (omega arith),
            ));
      }

  taken_eq :
      {os : List Observation}
      → batch_locked maximum b ≡ batch os
      → (1 ≤ length b.entries) × (take taken b.entries ≡ os)
  unfolding batch_locked
  taken_eq e = ground arith

-- From an ordered buffer, `Batch` takes a prefix of at most `maximum` entries with consecutive
-- numbers, at least one if `maximum` is not zero, which the next entry does not continue unless
-- `maximum` is reached.
pub batch_locked-IsBatch :
    (maximum : ℕ) (b : Buffer) {os : List Observation}
    → IsOrdered b
    → batch_locked maximum b ≡ batch os
    → IsBatch maximum b os
batch_locked-IsBatch maximum b h e =
    let (n, p) = taken_eq maximum b h e in subst (IsBatch maximum b) p (taken-IsBatch maximum b h n)
