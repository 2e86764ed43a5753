-- ===== src/Buffer/Order.antt =====
-- The buffer's entries carry increasing sequence numbers below `next`, each assigned once.
use kube_cost.Prelude.{
  ℕ, suc, ◌+◌, ◌≤◌, ◌<◌, ◌≡◌, refl, List, [], ◌∷◌, ◌++◌, Bool, arith, length, filter, All,
  All-append, length-append, String, not, leb, contains, ◌||◌, length-filter-le, inl, inr, ◌⊎◌, sym,
  subst, ◌%◌,
}
use kube_cost.Wire.{Observation, Codec, u64_mod}
use kube_cost.Buffer.{Buffer, new, event_id, publish_locked, acknowledge, signal, sequence_at}

-- Sequence numbers from `k` on, strictly increasing.
abbrev pub Ascending : ℕ → List Observation → Type 0
Ascending k [] = Unit
Ascending k (o ∷ os) = (k ≤ o.sequence) × Ascending (suc o.sequence) os

pub Ascending-mono : (j k : ℕ) (os : List Observation) → j ≤ k → Ascending k os → Ascending j os
Ascending-mono j k [] h a = tt
Ascending-mono j k (o ∷ os) h a = (omega arith, a.1)

-- The first of ascending numbers lies above their bound.
pub Ascending-above :
    (k : ℕ) (os : List Observation) → Ascending (suc k) os → (os ≡ []) ⊎ (k < sequence_at os 0)
Ascending-above k [] a = inl refl
Ascending-above k (o ∷ os) a = inr a.0

pub Ascending-filter :
    (p : Observation → Bool) (k : ℕ) (os : List Observation)
    → Ascending k os
    → Ascending k (filter p os)
Ascending-filter p k [] a = tt
Ascending-filter p k (o ∷ os) a =
    let kept = Ascending-filter p (suc o.sequence) os a.1 in
    ground (arith, Ascending-mono k (suc o.sequence) (filter p os))

All-filter :
    (P : Observation → Type 0) (p : Observation → Bool) (os : List Observation)
    → All P os
    → All P (filter p os)
All-filter P p [] a = tt
All-filter P p (o ∷ os) a = ground (arith, All-filter P p os a.1)

Ascending-snoc :
    (k : ℕ) (os : List Observation) (o : Observation)
    → k ≤ o.sequence
    → All (λ x. x.sequence < o.sequence) os
    → Ascending k os
    → Ascending k (os ++ o ∷ [])
Ascending-snoc k [] o h b a = (h, tt)
Ascending-snoc k (x ∷ os) o h b a = (a.0, Ascending-snoc (suc x.sequence) os o b.0 b.1 a.1)

All-lt_mono :
    (m n : ℕ) (os : List Observation)
    → m ≤ n
    → All (λ o. o.sequence < m) os
    → All (λ o. o.sequence < n) os
All-lt_mono m n [] h a = tt
All-lt_mono m n (o ∷ os) h a = (omega arith, All-lt_mono m n os h a.1)

pub record IsOrdered (b : Buffer) : Type 0 where
  pub ascending : Ascending 1 b.entries
  pub below_next : All (λ o. o.sequence < b.next) b.entries
  pub next_pos : 1 ≤ b.next
  pub next_fits : b.next < u64_mod
  pub room : length b.entries ≤ b.capacity

pub new-IsOrdered : (capacity : ℕ) → IsOrdered (new capacity)
unfolding new
new-IsOrdered capacity = omega arith

module _ (codec : Codec) (now : ℕ) (key : String) (o : Observation) (b : Buffer) where
  -- The entry that a round of `Publish` appends, and the buffer with it.
  abbrev pub entry : Observation
  entry =
      let numbered = record o { sequence = b.next } in
      record numbered { event_id = event_id codec key numbered now }

  abbrev pub extended : Buffer
  extended = signal (record b { next = (b.next + 1) % u64_mod; entries = b.entries ++ entry ∷ [] })

  publish_locked_result :
      ((publish_locked codec now key o b).1 ≡ b)
      ⊎ ((length b.entries < b.capacity) × ((publish_locked codec now key o b).1 ≡ extended))
  unfolding publish_locked
  publish_locked_result = ground arith

  -- A round either leaves the buffer, or finds room and appends.
  pub publish_locked_cases :
      (P : Buffer → Type 0)
      → P b
      → (length b.entries < b.capacity → P extended)
      → P (publish_locked codec now key o b).1
  publish_locked_cases P same more = elim publish_locked_result [
    | inl e ↦ subst P (sym e) same
    | inr (room, e) ↦ subst P (sym e) (more room)
  ]

  pub extended-IsOrdered :
      b.next + 1 < u64_mod → IsOrdered b → length b.entries < b.capacity → IsOrdered extended
  extended-IsOrdered fits h room =
      let e : (b.next + 1) % u64_mod ≡ b.next + 1 = omega arith in
      let later = All-lt_mono b.next (b.next + 1) b.entries (omega arith) h.below_next in
      record {
        ascending = Ascending-snoc 1 b.entries entry h.next_pos h.below_next h.ascending;
        below_next = rw e (
            All-append (λ x. x.sequence < b.next + 1) b.entries (entry ∷ []) later
              (omega arith, tt));
        next_pos = omega arith;
        next_fits = omega arith;
        room = omega (arith, length-append b.entries (entry ∷ []));
      }

  -- A round keeps the order of the sequence numbers, as long as the counter does not wrap.
  pub publish_locked-IsOrdered :
      b.next + 1 < u64_mod → IsOrdered b → IsOrdered (publish_locked codec now key o b).1
  publish_locked-IsOrdered fits h = publish_locked_cases IsOrdered h (extended-IsOrdered fits h)

pub acknowledge-IsOrdered :
    (through : ℕ) (terminal : List ℕ) (b : Buffer)
    → IsOrdered b
    → IsOrdered (acknowledge through terminal b)
unfolding acknowledge
acknowledge-IsOrdered through terminal b h =
    let keep = λ (o : Observation). not (leb o.sequence through || contains terminal o.sequence) in
    record {
      ascending = Ascending-filter keep 1 b.entries h.ascending;
      below_next = All-filter (λ o. o.sequence < b.next) keep b.entries h.below_next;
      next_pos = h.next_pos;
      next_fits = h.next_fits;
      room = omega (arith, length-filter-le keep b.entries);
    }
