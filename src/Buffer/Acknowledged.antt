-- ===== src/Buffer/Acknowledged.antt =====
-- An observation leaves the buffer only by an acknowledgement that covers it.
use kube_cost.Prelude.{
  ℕ, ◌+◌, ◌≤◌, ◌<◌, ◌≡◌, ◌⊎◌, inl, inr, refl, true, false, List, [], ◌∷◌, ◌++◌, ◌||◌, not, leb,
  ◌==◌, Bool, arith, length, filter, contains, Option-cases, Bool-cases, sym, ap, subst,
}
use native.Mathlib.Decide.{ℕ_discrete as dec_eq}
use kube_cost.Wire.{Observation, Codec, u64_mod}
use kube_cost.Inventory.{Event, validate}
use kube_cost.Buffer.{Buffer, new, publish, publish_locked, acknowledge, close}
use kube_cost.Buffer.Order.{
  IsOrdered, new-IsOrdered, extended-IsOrdered, entry, acknowledge-IsOrdered, publish_locked_cases,
  extended,
}
use kube_cost.Buffer.Batches.{sequences}

-- The calls that change the buffer. `publishes` has the clock and the event.
pub data Op : Type 0 where
  publishes : ℕ → Event → Op
  acknowledges : ℕ → List ℕ → Op
  closes : Op

unfoldable pub step : Codec → Buffer → Op → Buffer
unfolding publish close
step codec b (publishes now e) = (publish codec now e b).1
step codec b (acknowledges through terminal) = acknowledge through terminal b
step codec b closes = close b

unfoldable pub run : Codec → Buffer → List Op → Buffer
run codec b [] = b
run codec b (op ∷ ops) = run codec (step codec b op) ops

-- Does a call acknowledge the number `s`: persisted through it, or rejected for good?
abbrev pub covers : Op → ℕ → Bool
covers (acknowledges through terminal) s = leb s through || contains terminal s
covers _ s = false

abbrev pub covered : List Op → ℕ → Bool
covered [] s = false
covered (op ∷ ops) s = covers op s || covered ops s

publish_result :
    (codec : Codec) (now : ℕ) (e : Event) (b : Buffer)
    → ((publish codec now e b).1 ≡ b)
      ⊎ ((o : Observation) × ((publish codec now e b).1 ≡ (publish_locked codec now e.key o b).1))
unfolding publish
publish_result codec now e b = elim (Option-cases e.observation) [
  | inl p ↦ inl (ground arith)
  | inr (o, p) ↦ elim (Option-cases (validate e)) [
    | inl q ↦ inr (o, ground arith)
    | inr (x, q) ↦ inl (ground arith)
  ]
]

-- A publication either leaves the buffer, or finds room and appends.
pub publish_cases :
    (P : Buffer → Type 0) (codec : Codec) (now : ℕ) (e : Event) (b : Buffer)
    → P b
    → ((o : Observation) → length b.entries < b.capacity → P (extended codec now e.key o b))
    → P (publish codec now e b).1
publish_cases P codec now e b same more = elim (publish_result codec now e b) [
  | inl p ↦ subst P (sym p) same
  | inr (o, p) ↦ subst P (sym p) (publish_locked_cases codec now e.key o b P same (more o))
]

abbrev Grown : Buffer → Buffer → Type 0
Grown b b' = IsOrdered b' × (b'.next ≤ b.next + 1)

-- A call keeps the order, and advances the counter by one at most.
step-IsOrdered :
    (codec : Codec) (b : Buffer) (op : Op)
    → b.next + 1 < u64_mod
    → IsOrdered b
    → Grown b (step codec b op)
unfolding step
step-IsOrdered codec b (publishes now e) fits h =
    publish_cases (Grown b) codec now e b (h, omega arith)
      λ o room. (extended-IsOrdered codec now e.key o b fits h room, omega arith)
step-IsOrdered codec b (acknowledges through terminal) fits h =
    (acknowledge-IsOrdered through terminal b h, unfold acknowledge in omega arith)
step-IsOrdered codec b closes fits h = (ground arith, omega arith)

pub contains-filter :
    (p : ℕ → Bool) (os : List Observation) (s : ℕ)
    → p s ≡ true
    → contains (sequences (filter (λ o. p o.sequence) os)) s ≡ contains (sequences os) s
contains-filter p [] s h = refl
contains-filter p (o ∷ os) s h = elim (dec_eq s o.sequence) [
  | yes e ↦ ground (arith, contains-filter p os s h, ap p e)
  | no e ↦ ground (arith, contains-filter p os s h)
]

contains-snoc :
    (os : List Observation) (o : Observation) (s : ℕ)
    → contains (sequences (os ++ o ∷ [])) s ≡ (contains (sequences os) s || s == o.sequence)
contains-snoc [] o s = ground arith
contains-snoc (x ∷ os) o s = ground (arith, contains-snoc os o s)

-- The number `s` has been assigned, and its observation is not in the buffer.
abbrev Gone : ℕ → Buffer → Type 0
Gone s b = (s < b.next) × (contains (sequences b.entries) s ≡ false)

step-Gone :
    (codec : Codec) (b : Buffer) (op : Op) (s : ℕ)
    → b.next + 1 < u64_mod
    → Gone s (step codec b op)
    → (covers op s ≡ true) ⊎ Gone s b
unfolding step
step-Gone codec b (publishes now e) s fits g =
    publish_cases (λ b'. Gone s b' → (false ≡ true) ⊎ Gone s b) codec now e b (λ g. inr g)
      (λ o room g. ground (arith, g, contains-snoc b.entries (entry codec now e.key o b) s)) g
step-Gone codec b (acknowledges through terminal) s fits g =
    let keep = λ (n : ℕ). not (leb n through || contains terminal n) in
    unfold acknowledge in ground (arith, contains-filter keep b.entries s)
step-Gone codec b closes s fits g = ground arith

run-Gone :
    (codec : Codec) (b : Buffer) (ops : List Op) (s : ℕ)
    → b.next + length ops < u64_mod
    → IsOrdered b
    → Gone s (run codec b ops)
    → (covered ops s ≡ true) ⊎ Gone s b
unfolding run
run-Gone codec b [] s fits h g = inr g
run-Gone codec b (op ∷ ops) s fits h g =
    let (h', n) = step-IsOrdered codec b op (omega arith) h in
    elim (run-Gone codec (step codec b op) ops s (omega arith) h' g) [
      | inl c ↦ inl (ground arith)
      | inr g' ↦ ground (arith, step-Gone codec b op s (omega arith) g')
    ]

-- After any calls on a new buffer, too few for the 64-bit counter to wrap: each sequence number
-- that has been assigned is still in the buffer, or one of the calls has acknowledged it.
pub retained :
    (codec : Codec) (capacity : ℕ) (ops : List Op) (s : ℕ)
    → 1 + length ops < u64_mod
    → 1 ≤ s
    → let b = run codec (new capacity) ops in
      s < b.next → (contains (sequences b.entries) s ≡ true) ⊎ (covered ops s ≡ true)
unfolding new
retained codec capacity ops s fits pos assigned =
    let b = run codec (new capacity) ops in
    elim (Bool-cases (contains (sequences b.entries) s)) [
      | inl e ↦ inl e
      | inr e ↦
          elim (run-Gone codec (new capacity) ops s fits (new-IsOrdered capacity) (assigned, e)) [
            | inl c ↦ inr c
            | inr g ↦ absurd (omega arith)
          ]
    ]
