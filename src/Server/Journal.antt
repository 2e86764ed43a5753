-- ===== src/Server/Journal.antt =====
-- What a session puts into the queue, over all its batches.
use kube_cost.Prelude.{
  ℕ, zero, suc, ◌+◌, ◌-◌, ◌≤◌, ◌<◌, ◌≡◌, inl, inr, refl, ap, List, [], ◌∷◌, ◌++◌, leb,
  if◌then◌else◌, range_from, All, arith, ◌∙◌, drop, length, append-nil,
}
use kube_cost.Wire.{ObservationBatch, u64_mod, Codec}
use kube_cost.Buffer.Batches.{sequences}
use kube_cost.Queue
use kube_cost.Queue.{Queue, enable_persistence_notification}
use kube_cost.Server.Valid.{validate_batch_iff}
use kube_cost.Server.Suffix.{suffix_after, suffix_after-IsSuffix}
use kube_cost.Server.Batch.{Frame, handle_batch, queued_batch}
use kube_cost.Server.Progress.{Advanced, handle_batch_advances}

range_from-append : (a m n : ℕ) → range_from a m ++ range_from (a + m) n ≡ range_from a (m + n)
range_from-append a zero n =
    let e : a + 0 ≡ a = omega arith in let g : 0 + n ≡ n = omega arith in rw (e, g) refl
range_from-append a (suc m) n =
    let e : a + suc m ≡ suc a + m = omega arith in
    let g : suc m + n ≡ suc (m + n) = omega arith in
    rw (e, g) (ap (λ xs. a ∷ xs) (range_from-append (suc a) m n))

-- A session's batches, each with the queue as the worker and other sessions have left it.
unfoldable pub serve : Codec → List (Frame × Queue) → ℕ → ℕ
serve codec [] p = p
serve codec ((f, q) ∷ rest) p = serve codec rest (handle_batch codec f p q).persisted_through

abbrev pub numbers_of : List Queue.Batch → List ℕ
numbers_of [] = []
numbers_of (b ∷ bs) = sequences b.observation_set.observations ++ numbers_of bs

-- The numbers of the observations in the batches that a call has added to the queue, if it moved
-- the watermark.
abbrev pub queued_by : Codec → Frame → ℕ → Queue → List ℕ
queued_by codec f p q =
    let o = handle_batch codec f p q in
    if leb o.persisted_through p then [] else numbers_of (drop (length q.items) o.queue.items)

drop-append : (xs ys : List Queue.Batch) → drop (length xs) (xs ++ ys) ≡ ys
drop-append [] ys = refl
drop-append (x ∷ xs) ys = drop-append xs ys

queued_batch-numbers :
    (f : Frame) (b : ObservationBatch)
    → numbers_of (queued_batch f b ∷ []) ≡ sequences b.observations
unfolding queued_batch enable_persistence_notification
queued_batch-numbers f b = append-nil (sequences b.observations)

-- A call that moves the watermark adds one batch to the queue, the part behind the watermark.
handle_batch_numbers :
    (codec : Codec) (f : Frame) (p : ℕ) (q : Queue)
    → Advanced codec f p q
    → numbers_of (drop (length q.items) (handle_batch codec f p q).queue.items)
      ≡ sequences (suffix_after codec f.received p).observations
handle_batch_numbers codec f p q a =
    let new = queued_batch f (suffix_after codec f.received p) in
    ap (λ items. numbers_of (drop (length q.items) items)) a.queued
    ∙ ap numbers_of (drop-append q.items (new ∷ []))
    ∙ queued_batch-numbers f (suffix_after codec f.received p)

unfoldable pub journal : Codec → List (Frame × Queue) → ℕ → List ℕ
journal codec [] p = []
journal codec ((f, q) ∷ rest) p =
    queued_by codec f p q ++ journal codec rest (handle_batch codec f p q).persisted_through

-- uint64 sequence numbers.
abbrev pub InRange : List (Frame × Queue) → Type 0
InRange = All (λ c. c.0.received.last_sequence < u64_mod)

queued_by-range :
    (codec : Codec) (f : Frame) (p : ℕ) (q : Queue)
    → f.received.last_sequence < u64_mod
    → let p' = (handle_batch codec f p q).persisted_through in
      (p ≤ p') × (queued_by codec f p q ≡ range_from (p + 1) (p' - p))
queued_by-range codec f p q fits = elim (handle_batch_advances codec f p q) [
  | inl e ↦ let z : p - p ≡ 0 = omega arith in (omega (arith, e), rw e (rw z (ground arith)))
  | inr (e, a) ↦
      let v = (validate_batch_iff codec f.config f.received fits).0 a.accepted in
      let s =
        suffix_after-IsSuffix codec f.config f.received p v fits a.passes
          (omega (arith, a.joins, a.passes)) in
      let n = handle_batch_numbers codec f p q a in
      (omega (arith, e, a.passes), ground (arith, e, a.passes, n, s.in_sequence))
]

-- For any sequence of calls of `handleBatch` with 64-bit batch ends: the watermark does not fall,
-- and the observations that the calls which moved it have added to their queues are those behind
-- the first watermark up to the last, each once and in order.
pub journal_exact :
    (codec : Codec) (calls : List (Frame × Queue)) (p : ℕ)
    → InRange calls
    → (p ≤ serve codec calls p)
      × (journal codec calls p ≡ range_from (p + 1) (serve codec calls p - p))
unfolding serve journal
journal_exact codec [] p h = let z : p - p ≡ 0 = omega arith in (omega arith, rw z)
journal_exact codec ((f, q) ∷ rest) p h =
    let p' = (handle_batch codec f p q).persisted_through in
    let (le, now) = queued_by-range codec f p q h.0 in
    let (le', later) = journal_exact codec rest p' h.1 in
    let e : p + 1 + (p' - p) ≡ p' + 1 = omega (arith, le) in
    let g : (p' - p) + (serve codec rest p' - p') ≡ serve codec rest p' - p =
      omega (arith, le, le') in
    (
      omega (arith, le, le'),
      rw (now, later)
          (rw (← g, ← e) (range_from-append (p + 1) (p' - p) (serve codec rest p' - p'))),
    )
