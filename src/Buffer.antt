-- ===== src/Buffer.antt =====
-- agent/transport/buffer.go: the bounded memory buffer between the collectors and the stream. What
-- happens under one hold of the mutex is one function; `notify` says that the channel of capacity
-- one holds its token. Lengths and counts are not negative (the agent's configuration is checked).
pub mod Order
pub mod Batches
pub mod Acknowledged
use kube_cost.Prelude.{
  ℕ, zero, suc, ◌+◌, ◌-◌, ◌%◌, min, String, Bool, true, false, Option, none, some, List, [], ◌∷◌,
  ◌++◌, ◌||◌, not, leb, ltb, ◌==◌, if◌then◌else◌, length, get_elem?, take, filter, contains,
}
use kube_cost.Wire.{Observation, Codec, u64_mod}
use kube_cost.Inventory.{Event, EventError, validate}

pub record Buffer : Type 0 where
  pub entries : List Observation
  pub next : ℕ  -- uint64
  pub persisted : ℕ  -- uint64
  pub capacity : ℕ
  pub notify : Bool
  pub closed : Bool

unfoldable pub new : ℕ → Buffer
new capacity = record {
  entries = [];
  next = 1;
  persisted = 0;
  capacity = capacity;
  notify = false;
  closed = false;
}

abbrev pub signal : Buffer → Buffer
signal b = record b { notify = true }

or_fallback : List ℕ → Option (List ℕ) → List ℕ
or_fallback alternative none = alternative
or_fallback alternative (some bytes) = bytes

-- `now` is the clock that the fallback text reads.
unfoldable pub event_id : Codec → String → Observation → ℕ → String
unfolding or_fallback
event_id codec key o now =
    let clone = record o { sequence = 0; event_id = "" } in
    let bytes = or_fallback (codec.fallback key o.sequence now) (codec.marshal clone) in
    codec.hex (codec.sha256 ((codec.bytes key ++ 0 ∷ []) ++ bytes))

pub data Publication : Type 0 where
  invalid : EventError → Publication
  shut full published : Publication

-- One round of `Publish` for an event that passed `Validate`; `full` is to wait for `notify`.
unfoldable pub publish_locked : Codec → ℕ → String → Observation → Buffer → Publication × Buffer
publish_locked codec now key o b =
    if b.closed
    then (shut, b)
    else if ltb (length b.entries) b.capacity
    then (let numbered = record o { sequence = b.next } in
        let entry = record numbered { event_id = event_id codec key numbered now } in
        (
          published,
          signal (record b { next = (b.next + 1) % u64_mod; entries = b.entries ++ entry ∷ [] }),
        ))
    else (full, b)

publish_checked : Codec → ℕ → Event → Option EventError → Buffer → Publication × Buffer
publish_checked codec now e (some error) b = (invalid error, b)
publish_checked codec now e none b = elim e.observation [
  | none ↦ (full, b)
  | some o ↦ publish_locked codec now e.key o b
]

-- The checks, then one round. (`Validate` passes no nil observation.)
unfoldable pub publish : Codec → ℕ → Event → Buffer → Publication × Buffer
unfolding publish_checked
publish codec now e b = publish_checked codec now e (validate e) b

-- `entries[i].Sequence`; the indices below are in range.
abbrev pub sequence_at : List Observation → ℕ → ℕ
sequence_at [] i = 0
sequence_at (o ∷ os) zero = o.sequence
sequence_at (o ∷ os) (suc i) = sequence_at os i

-- The loop `for count > 1 && entries[count-1].Sequence != entries[0].Sequence+uint64(count-1)`.
unfoldable pub shrink : List Observation → ℕ → ℕ
shrink entries zero = zero
shrink entries (suc n) =
    let rest = shrink entries n in
    if n == 0 || sequence_at entries n == (sequence_at entries 0 + n) % u64_mod then suc n else rest

pub data Taken : Type 0 where
  batch : List Observation → Taken
  ended : Taken
  wait : Taken

-- One round of `Batch`.
unfoldable pub batch_locked : ℕ → Buffer → Taken
batch_locked maximum b = elim b.entries [
  | [] ↦ if b.closed then ended else wait
  | o ∷ os ↦ batch (take (shrink b.entries (min maximum (length b.entries))) b.entries)
]

unfoldable pub acknowledge : ℕ → List ℕ → Buffer → Buffer
acknowledge persisted_through terminal b = signal (record b {
  entries =
      filter (λ o. not (leb o.sequence persisted_through || contains terminal o.sequence))
        b.entries;
  persisted = if ltb b.persisted persisted_through then persisted_through else b.persisted;
})

unfoldable pub highest_sequence : Buffer → ℕ
highest_sequence b = (b.next + u64_mod - 1) % u64_mod

unfoldable pub close : Buffer → Buffer
close b = signal (record b { closed = true })
