-- ===== src/Server/Session/Streams.antt =====
-- All the streams of a server: `Connect` is called by any agents, the streams that it opens send
-- batches and end, in any order. A step is one hold of the server's mutex, less that a `Connect` whose
-- hello cannot be sent is one step.
use kube_cost.Prelude.{ℕ, zero, suc, String, Option, none, some, List, [], ◌∷◌}
use kube_cost.Wire.{AgentHello, AgentFrame, agent_hello, ObservationBatch, Codec}
use kube_cost.Queue.{Queue}
use kube_cost.Server.Config.{Config}
use kube_cost.Server.Batch.{Calls}
use kube_cost.Server.Session.{
  Server, release, on_batch, Outside, Opening, opened, connect, cluster_key,
}

pub record Stream : Type 0 where
  pub hello : AgentHello
  pub session_id : String

abbrev pub key_of : Stream → String
key_of st = cluster_key st.hello.tenant_id st.hello.cluster_id

pub record World : Type 0 where
  pub server : Server
  pub streams : List Stream

abbrev pub start : World
start = record { server = record { clusters = []; active = [] }; streams = [] }

-- A call of `Connect` up to its loop, a batch frame of the stream at a place, and its end.
pub data Event : Type 0 where
  connects : Outside → Option AgentFrame → Event
  sends : ℕ → Calls → ObservationBatch → Queue → Event
  ends : ℕ → Event

unfoldable pub after_connect : World → Outside → Option AgentFrame → Opening × Server → World
after_connect w out (some (agent_hello h)) (opened reply, s) = record {
  server = s;
  streams = record { hello = h; session_id = out.session_id } ∷ w.streams;
}
after_connect w out first (_, s) = record w { server = s }

abbrev pub stream_at : List Stream → ℕ → Option Stream
stream_at [] i = none
stream_at (st ∷ sts) zero = some st
stream_at (st ∷ sts) (suc i) = stream_at sts i

abbrev pub without : List Stream → ℕ → List Stream
without [] i = []
without (st ∷ sts) zero = sts
without (st ∷ sts) (suc i) = st ∷ without sts i

unfoldable pub after_batch :
    Codec → Config → World → Calls → ObservationBatch → Queue → Option Stream → World
after_batch codec config w calls b q none = w
after_batch codec config w calls b q (some st) = record w {
  server =
      on_batch codec (key_of st)
        (
          record {
            config = config;
            hello = st.hello;
            session_id = st.session_id;
            calls = calls;
            received = b;
          },
          q,
        )
        w.server;
}

unfoldable pub after_end : World → ℕ → Option Stream → World
after_end w i none = w
after_end w i (some st) = record {
  server = release (key_of st) st.session_id w.server;
  streams = without w.streams i;
}

unfoldable pub step : Codec → Config → World → Event → World
unfolding after_connect after_batch after_end
step codec config w (connects out first) =
    after_connect w out first (connect config out first w.server)
step codec config w (sends i calls b q) =
    after_batch codec config w calls b q (stream_at w.streams i)
step codec config w (ends i) = after_end w i (stream_at w.streams i)

unfoldable pub run : Codec → Config → World → List Event → World
run codec config w [] = w
run codec config w (e ∷ es) = run codec config (step codec config w e) es
