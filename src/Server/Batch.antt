-- ===== src/Server/Batch.antt =====
-- services/ingestion/server/server.go, `handleBatch`: from a batch frame to the frames sent back,
-- the new watermark of the cluster and the queue. The calls out (archive, wait, checkpoint, sends)
-- are given by their results, at most one of each kind in a run.
use kube_cost.Prelude.{
  ℕ, ◌+◌, ◌-◌, ◌%◌, String, Bool, true, false, Option, none, some, List, [], ◌∷◌, ◌++◌, leb, ltb,
  if◌then◌else◌,
}
use kube_cost.Wire.{
  ObservationBatch, SequenceRange, RecordRejection, BatchError, ServerFrame, acknowledgement,
  flow_control, u64_mod, Codec, AgentHello,
}
use kube_cost.Queue
use kube_cost.Queue.{Queue, try_enqueue, enable_persistence_notification}
use kube_cost.Server.Config.{Config, high_watermark}
use kube_cost.Server.Checks.{validate_batch, rejection_code, rejections_for_batch}
use kube_cost.Server.Suffix.{suffix_after}

-- `archived`, `saved`: did `Archive`, `Save` return nil? `notified`: did the wait end by the
-- worker's commit, and not by the stream's context? `flow_sent`, `ack_sent`: did `Send` return nil?
pub record Calls : Type 0 where
  pub flow_sent : Bool
  pub received_at : ℕ
  pub archived : Bool
  pub channel : ℕ
  pub notified : Bool
  pub saved : Bool
  pub ack_sent : Bool

pub data Returned : Type 0 where
  success send_failed cancelled : Returned

pub record Outcome : Type 0 where
  pub persisted_through : ℕ
  pub queue : Queue
  pub frames : List ServerFrame
  pub returned : Returned

abbrev pub ack : ObservationBatch → ℕ → ℕ → List SequenceRange → List RecordRejection → ServerFrame
ack b received persisted retry rejections = acknowledgement (record {
  batch_id = b.batch_id;
  received_through_sequence = received;
  persisted_through_sequence = persisted;
  retry_ranges = retry;
  rejections = rejections;
})

abbrev flow : Config → String → ServerFrame
flow config reason = flow_control (record {
  retry_after = some config.backpressure_delay;
  max_in_flight_batches = 1;
  reason = reason;
})

abbrev range_of : ObservationBatch → SequenceRange
range_of b = record { first_sequence = b.first_sequence; last_sequence = b.last_sequence }

-- What `handleBatch` reads and never changes.
pub record Frame : Type 0 where
  pub config : Config
  pub hello : AgentHello
  pub session_id : String
  pub calls : Calls
  pub received : ObservationBatch

-- The last send: the frames before it, the acknowledgement, and its result.
answer : Frame → ℕ → Queue → List ServerFrame → ServerFrame → Outcome
answer f persisted q sent reply = record {
  persisted_through = persisted;
  queue = q;
  frames = sent ++ reply ∷ [];
  returned = if f.calls.ack_sent then success else send_failed;
}

-- The acknowledgement that asks for the accepted part once more.
again : Frame → ℕ → Queue → List ServerFrame → ObservationBatch → Outcome
unfolding answer
again f persisted q sent accepted =
    answer f persisted q sent
      (ack f.received f.received.last_sequence persisted (range_of accepted ∷ []) [])

-- After the enqueue: the wait, the checkpoint, and the advance of the watermark.
finish : Frame → ℕ → Queue → List ServerFrame → ObservationBatch → Outcome
unfolding again
finish f persisted q sent accepted =
    if f.calls.notified
    then (if f.calls.saved
        then answer f f.received.last_sequence q sent
            (ack f.received f.received.last_sequence f.received.last_sequence [] [])
        else again f persisted q sent accepted)
    else record { persisted_through = persisted; queue = q; frames = sent; returned = cancelled }

-- A full queue: flow control, unless it has been sent, then the retry.
refused : Frame → ℕ → Queue → Bool → List ServerFrame → ObservationBatch → Outcome
unfolding again
refused f persisted q true sent accepted = again f persisted q sent accepted
refused f persisted q false sent accepted =
    let sent' = sent ++ flow f.config "ingestion queue is full" ∷ [] in
    if f.calls.flow_sent
    then again f persisted q sent' accepted
    else record { persisted_through = persisted; queue = q; frames = sent'; returned = send_failed }

enqueued : Frame → ℕ → Bool × Queue → Bool → List ServerFrame → ObservationBatch → Outcome
unfolding finish refused
enqueued f persisted (true, q) warned sent accepted = finish f persisted q sent accepted
enqueued f persisted (false, q) warned sent accepted = refused f persisted q warned sent accepted

unfoldable pub queued_batch : Frame → ObservationBatch → Queue.Batch
unfolding enable_persistence_notification
queued_batch f accepted = enable_persistence_notification f.calls.channel (record {
  tenant_id = f.hello.tenant_id;
  cluster_id = f.hello.cluster_id;
  agent_instance = f.hello.agent_instance_id;
  session_id = f.session_id;
  received_at = f.calls.received_at;
  observation_set = accepted;
  persisted = none;
})

-- The archive, then the queue.
deliver : Frame → ℕ → Queue → Bool → List ServerFrame → ObservationBatch → Outcome
unfolding enqueued
deliver f persisted q warned sent accepted =
    if f.calls.archived
    then enqueued f persisted (try_enqueue (queued_batch f accepted) q) warned sent accepted
    else again f persisted q sent accepted

-- Flow control above the high watermark, then delivery.
accept : Frame → ℕ → Queue → ObservationBatch → Outcome
unfolding deliver
accept f persisted q accepted =
    if leb (high_watermark f.config q) (Queue.depth q)
    then (let sent = flow f.config "ingestion queue is above its high watermark" ∷ [] in
        if f.calls.flow_sent then deliver f persisted q true sent accepted else record {
          persisted_through = persisted;
          queue = q;
          frames = sent;
          returned = send_failed;
        })
    else deliver f persisted q false [] accepted

-- The batch against the watermark: a duplicate, a gap, or something new.
place : Codec → Frame → ℕ → Queue → Outcome
unfolding accept
place codec f persisted q =
    let b = f.received in
    if leb b.last_sequence persisted
    then answer f persisted q [] (ack b b.last_sequence persisted [] [])
    else if ltb ((persisted + 1) % u64_mod) b.first_sequence
    then (let missing : SequenceRange = record {
      first_sequence = (persisted + 1) % u64_mod;
      last_sequence = b.first_sequence - 1;
    } in
        answer f persisted q [] (ack b b.last_sequence persisted (missing ∷ []) []))
    else accept f persisted q (suffix_after codec b persisted)

checked : Codec → Frame → Option BatchError → ℕ → Queue → Outcome
unfolding place
checked codec f none persisted q = place codec f persisted q
checked codec f (some e) persisted q =
    answer f persisted q []
      (ack f.received persisted persisted [] (rejections_for_batch f.received (rejection_code e) e))

unfoldable pub handle_batch : Codec → Frame → ℕ → Queue → Outcome
unfolding checked
handle_batch codec f persisted q =
    checked codec f (validate_batch codec f.config f.received) persisted q
