-- ===== src/Delivery.antt =====
-- The agent and the service together: one round is a turn of the loop of `connect` in
-- agent/transport/client.go, which sends one batch, and the run of `handleBatch` in
-- services/ingestion/server/server.go that answers it. Between two rounds nothing is published, and
-- the queue is as the last round has left it; that the worker has stored the batch of a round is the
-- result of the wait, `notified`.
pub mod Safety
pub mod Stall
pub mod Rejection
use kube_cost.Prelude.{ℕ, String, List, [], ◌∷◌, ◌≡◌, refl}
use kube_cost.Wire.{Observation, ServerFrame, AgentHello, Codec}
use kube_cost.Queue.{Queue}
use kube_cost.Buffer
use kube_cost.Buffer.{Buffer, batch_locked}
use kube_cost.Client.{Awaited, make_batch, await_acknowledgement}
use kube_cost.Server.Config.{Config}
use kube_cost.Server.Batch.{
  Calls, Frame, Outcome, Returned, success, send_failed, cancelled, handle_batch,
}

pub record System : Type 0 where
  pub buffer : Buffer
  pub watermark : ℕ
  pub queue : Queue

-- What stays the same over a stream.
pub record Setting : Type 0 where
  pub codec : Codec
  pub config : Config
  pub hello : AgentHello
  pub session_id : String
  pub maximum : ℕ

-- What a round finds outside: the agent's clock, and the results of the service's calls.
pub record Round : Type 0 where
  pub now : ℕ
  pub calls : Calls

abbrev but_last : List ServerFrame → List ServerFrame
but_last [] = []
but_last (f ∷ []) = []
but_last (f ∷ g ∷ fs) = f ∷ but_last (g ∷ fs)

-- The frame whose `Send` failed does not arrive.
abbrev pub delivered : List ServerFrame → Returned → List ServerFrame
delivered frames send_failed = but_last frames
delivered frames _ = frames

abbrev pub frame_of : Setting → Round → List Observation → Frame
frame_of z r os = record {
  config = z.config;
  hello = z.hello;
  session_id = z.session_id;
  calls = r.calls;
  received = make_batch z.codec z.hello.cluster_id r.now os;
}

unfoldable pub exchange : Setting → Round → List Observation → System → System
exchange z r os s =
    let f = frame_of z r os in
    let o = handle_batch z.codec f s.watermark s.queue in
    let received = delivered o.frames o.returned in
    record {
      buffer = (await_acknowledgement f.received.batch_id received s.buffer).1;
      watermark = o.persisted_through;
      queue = o.queue;
    }

unfoldable pub round : Setting → Round → System → System
unfolding exchange
round z r s = elim (batch_locked z.maximum s.buffer) [
  | Buffer.batch os ↦ exchange z r os s
  | Buffer.ended ↦ s
  | Buffer.wait ↦ s
]

-- A round has nothing to send, or makes an exchange.
pub round_cases :
    (P : System → Type 0) (z : Setting) (r : Round) (s : System)
    → P s
    → ((os : List Observation)
        → batch_locked z.maximum s.buffer ≡ Buffer.batch os
        → P (exchange z r os s))
    → P (round z r s)
unfolding round
round_cases P z r s idle sent = go (batch_locked z.maximum s.buffer) refl
  where
    go :
        (t : Buffer.Taken)
        → batch_locked z.maximum s.buffer ≡ t
        → P (elim t [ Buffer.batch os ↦ exchange z r os s | Buffer.ended ↦ s | Buffer.wait ↦ s ])
    go (Buffer.batch os) e = sent os e
    go Buffer.ended e = idle
    go Buffer.wait e = idle
