-- ===== src/Tests/Streams.antt =====
-- The service's checks, its handler of batches and the agent's buffer at concrete inputs.
use kube_cost.Prelude.{
  ◌-◌, ◌≤◌, ◌<◌, ◌≡◌, ◌≢◌, ◌↔◌, ◌⊎◌, refl, true, none, some, List, [], ◌∷◌, arith, contains,
  range_from, All,
}
use kube_cost.Wire.{ObservationBatch}
use kube_cost.Queue.{Queue}
use kube_cost.Inventory.{validate}
use kube_cost.Inventory
use kube_cost.Buffer
use kube_cost.Buffer.{
  Buffer, new, batch_locked, shrink, publish, publish_locked, event_id, acknowledge,
}
use kube_cost.Buffer.Order.{IsOrdered}
use kube_cost.Buffer.Batches.{IsBatch, batch_locked-IsBatch, sequences}
use kube_cost.Buffer.Acknowledged.{
  Op, run, step, publishes, acknowledges, closes, covered, retained,
}
use kube_cost.Client.{make_batch}
use kube_cost.Client.Batches.{Fits, make_batch-accepted}
use kube_cost.Server.Checks
use kube_cost.Server.Checks.{validate_batch}
use kube_cost.Server.Valid.{IsValid, validate_batch_iff}
use kube_cost.Server.Suffix.{suffix_after, IsSuffix, suffix_after-IsSuffix}
use kube_cost.Server.Batch.{Frame, success, handle_batch}
use kube_cost.Server.Progress.{Advanced, handle_batch_advances, Promises, handle_batch-Promises}
use kube_cost.Server.Journal.{serve, journal, journal_exact}
use kube_cost.Tests.Data.{codec, seen, batch_of, config, frame, idle, holding}

abbrev two_seen : ObservationBatch
two_seen = batch_of 1 2 (seen 1 ∷ seen 2 ∷ [])

abbrev fourth : ObservationBatch
fourth = batch_of 4 5 (seen 4 ∷ seen 5 ∷ [])

two_seen-accepted : validate_batch codec config two_seen ≡ none
unfolding validate_batch Checks.validate_observations Checks.validate_observation Checks.bytes_equal
    Checks.batch_checksum
two_seen-accepted = refl

fourth-accepted : validate_batch codec config fourth ≡ none
unfolding validate_batch Checks.validate_observations Checks.validate_observation Checks.bytes_equal
    Checks.batch_checksum
fourth-accepted = refl

two_seen-IsValid : IsValid codec config two_seen
two_seen-IsValid = (validate_batch_iff codec config two_seen (omega arith)).0 two_seen-accepted

validate_batch_iff_example :
    (validate_batch codec config two_seen ≡ none) ↔ IsValid codec config two_seen
validate_batch_iff_example = validate_batch_iff codec config two_seen (omega arith)

suffix_after-IsSuffix_example : IsSuffix codec two_seen 1 (suffix_after codec two_seen 1)
suffix_after-IsSuffix_example =
    suffix_after-IsSuffix codec config two_seen 1 two_seen-IsValid (omega arith) (omega arith)
      (omega arith)

handle_batch_advances_example :
    let p' = (handle_batch codec (frame two_seen) 1 idle).persisted_through in
    (p' ≡ 1) ⊎ ((p' ≡ 2) × Advanced codec (frame two_seen) 1 idle)
handle_batch_advances_example = handle_batch_advances codec (frame two_seen) 1 idle

handle_batch-Promises_example :
    let o = handle_batch codec (frame two_seen) 1 idle in
    All (Promises (λ n. n ≡ o.persisted_through)) o.frames
handle_batch-Promises_example = handle_batch-Promises codec (frame two_seen) 1 idle

abbrev unnamed : ObservationBatch
unnamed = record two_seen { batch_id = "" }

unnamed-refused : validate_batch codec config unnamed ≢ none
unfolding validate_batch
unnamed-refused e = cc

two_seen-success : (handle_batch codec (frame two_seen) 1 idle).returned ≡ success
unfolding handle_batch
two_seen-success = ground (arith, two_seen-accepted)

-- A batch, a batch behind a gap, and the first batch again.
abbrev session : List (Frame × Queue)
session = (frame two_seen, idle) ∷ (frame fourth, idle) ∷ (frame two_seen, idle) ∷ []

journal_exact_example :
    (0 ≤ serve codec session 0)
    × (journal codec session 0 ≡ range_from 1 (serve codec session 0 - 0))
journal_exact_example =
    journal_exact codec session 0 (omega arith, (omega arith, (omega arith, tt)))

holding-IsOrdered : IsOrdered (holding (seen 1 ∷ seen 2 ∷ seen 4 ∷ []))
holding-IsOrdered = omega arith

takes_two :
    batch_locked 3 (holding (seen 1 ∷ seen 2 ∷ seen 4 ∷ [])) ≡ Buffer.batch (seen 1 ∷ seen 2 ∷ [])
unfolding batch_locked shrink
takes_two = refl

batch_locked-IsBatch_example :
    IsBatch 3 (holding (seen 1 ∷ seen 2 ∷ seen 4 ∷ [])) (seen 1 ∷ seen 2 ∷ [])
batch_locked-IsBatch_example =
    batch_locked-IsBatch 3 (holding (seen 1 ∷ seen 2 ∷ seen 4 ∷ [])) holding-IsOrdered takes_two

abbrev event : Inventory.Event
event = record { key = "k"; observation = some (seen 0) }

abbrev ops : List Op
ops = publishes 3 event ∷ publishes 3 event ∷ acknowledges 1 [] ∷ closes ∷ []

ops-assigned : 2 < (run codec (new 8) ops).next
unfolding run new step publish publish_locked acknowledge validate
ops-assigned = omega arith

retained_example :
    (contains (sequences (run codec (new 8) ops).entries) 2 ≡ true) ⊎ (covered ops 2 ≡ true)
retained_example = retained codec 8 ops 2 (omega arith) (omega arith) ops-assigned

two_fit :
    Fits codec config 3
      (holding (seen 1 ∷ seen 2 ∷ seen 4 ∷ [])).entries
      (make_batch codec "c" 3 (seen 1 ∷ seen 2 ∷ []))
unfolding make_batch Checks.validate_payload
two_fit = record {
  complete = ((λ e. cc, refl), ((λ e. cc, refl), ((λ e. cc, refl), tt)));
  named = λ e. cc;
  records = omega arith;
  few = omega arith;
  size = omega arith;
}

make_batch-accepted_example :
    validate_batch codec config (make_batch codec "c" 3 (seen 1 ∷ seen 2 ∷ [])) ≡ none
make_batch-accepted_example =
    make_batch-accepted codec config 3 (holding (seen 1 ∷ seen 2 ∷ seen 4 ∷ [])) "c" 3
      holding-IsOrdered (omega arith) takes_two two_fit
