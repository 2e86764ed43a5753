-- ===== src/Tests/Deliveries.antt =====
-- The agent and the service together at concrete inputs: two fresh observations, a batch behind a
-- gap, and a batch with an observation that the service refuses.
use kube_cost.Prelude.{
  ◌+◌, ◌<◌, ◌≡◌, ◌≢◌, ◌⊎◌, refl, true, none, List, [], ◌∷◌, arith, contains, subst, sym, ◌∙◌,
}
use kube_cost.Wire.{Observation}
use kube_cost.Buffer
use kube_cost.Buffer.{Buffer, batch_locked, shrink, sequence_at}
use kube_cost.Buffer.Batches.{sequences}
use kube_cost.Client.{make_batch}
use kube_cost.Server.Checks
use kube_cost.Server.Checks.{validate_batch}
use kube_cost.Server.Batch.{handle_batch}
use kube_cost.Delivery.{System, Round, exchange, round}
use kube_cost.Delivery.Safety.{RoundFits, round-keeps}
use kube_cost.Delivery.Stall.{IsStalled, Unmoved, rounds, stalled_forever}
use kube_cost.Delivery.Rejection.{rejection_leaves_gap}
use kube_cost.Tests.Data.{codec, seen, odd, config, setting, turn, system}

-- Observations 4 and 5 are in the buffer, and the service has stored nothing.
abbrev behind_gap : System
behind_gap = system 0 (seen 4 ∷ seen 5 ∷ [])

takes_behind_gap : batch_locked 2 behind_gap.buffer ≡ Buffer.batch (seen 4 ∷ seen 5 ∷ [])
unfolding batch_locked shrink
takes_behind_gap = refl

fits_behind_gap : (r : Round) → RoundFits setting r behind_gap.buffer.entries (seen 4 ∷ seen 5 ∷ [])
unfolding make_batch Checks.validate_payload
fits_behind_gap r = record {
  complete = ((λ e. cc, refl), ((λ e. cc, refl), tt));
  named = λ e. cc;
  records = omega arith;
  few = omega arith;
  size = omega arith;
}

one_batch :
    (os : List Observation)
    → Buffer.batch (seen 4 ∷ seen 5 ∷ []) ≡ Buffer.batch os
    → seen 4 ∷ seen 5 ∷ [] ≡ os
one_batch os e = cc

behind_gap-IsStalled : IsStalled setting behind_gap
behind_gap-IsStalled = record {
  ordered = omega arith;
  room = omega arith;
  gap = omega arith;
  fits = λ r os e.
      subst (RoundFits setting r behind_gap.buffer.entries)
        (one_batch os (sym takes_behind_gap ∙ e)) (fits_behind_gap r);
}

stalled_forever_example : Unmoved behind_gap (rounds setting (turn ∷ turn ∷ turn ∷ []) behind_gap)
stalled_forever_example =
    stalled_forever setting (turn ∷ turn ∷ turn ∷ []) behind_gap behind_gap-IsStalled

-- The service has stored 3, so the round stores 4 and 5; 9 stays.
abbrev in_step : System
in_step = system 3 (seen 4 ∷ seen 5 ∷ seen 9 ∷ [])

takes_in_step : batch_locked 2 in_step.buffer ≡ Buffer.batch (seen 4 ∷ seen 5 ∷ [])
unfolding batch_locked shrink
takes_in_step = refl

fits_in_step : RoundFits setting turn in_step.buffer.entries (seen 4 ∷ seen 5 ∷ [])
unfolding make_batch Checks.validate_payload
fits_in_step = record {
  complete = ((λ e. cc, refl), ((λ e. cc, refl), ((λ e. cc, refl), tt)));
  named = λ e. cc;
  records = omega arith;
  few = omega arith;
  size = omega arith;
}

in_step-stored : (round setting turn in_step).watermark ≡ 5
unfolding round exchange batch_locked shrink make_batch handle_batch validate_batch
    Checks.validate_observations Checks.validate_observation Checks.bytes_equal
    Checks.batch_checksum kube_cost.Client.batch_checksum kube_cost.Server.Config.high_watermark
    kube_cost.Queue.try_enqueue
in_step-stored = refl

round-keeps_example : contains (sequences (round setting turn in_step).buffer.entries) 9 ≡ true
round-keeps_example =
    round-keeps setting turn in_step 9 (omega arith) (omega arith)
      (λ os e.
        subst (RoundFits setting turn in_step.buffer.entries) (one_batch os (sym takes_in_step ∙ e))
          fits_in_step)
      (omega (arith, in_step-stored)) refl

-- The first observation is one that the service refuses.
abbrev refused : System
refused = system 3 (odd 4 ∷ seen 5 ∷ seen 6 ∷ [])

takes_refused : batch_locked 2 refused.buffer ≡ Buffer.batch (odd 4 ∷ seen 5 ∷ [])
unfolding batch_locked shrink
takes_refused = refl

refused-rejected : validate_batch codec config (make_batch codec "c" 3 (odd 4 ∷ seen 5 ∷ [])) ≢ none
unfolding validate_batch make_batch Checks.validate_observations Checks.validate_observation
    Checks.validate_payload Checks.validate_inventory_record
refused-rejected e = cc

rejection_leaves_gap_example :
    let s' = exchange setting turn (odd 4 ∷ seen 5 ∷ []) refused in
    (s'.watermark ≡ 3) × ((s'.buffer.entries ≡ []) ⊎ (3 + 1 < sequence_at s'.buffer.entries 0))
rejection_leaves_gap_example =
    rejection_leaves_gap setting turn refused (omega arith) (omega arith) (omega arith)
      takes_refused refused-rejected refl
