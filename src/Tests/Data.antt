-- ===== src/Tests/Data.antt =====
-- The inputs that the tests share: a codec of concrete functions, observations, buffers, settings.
use kube_cost.Prelude.{ℕ, true, false, none, some, List, [], ◌∷◌}
use kube_cost.Wire.{
  Observation, ObservationBatch, Codec, AgentHello, node_metrics, cluster_inventory,
}
use kube_cost.Queue.{Batch, Queue}
use kube_cost.Buffer.{Buffer}
use kube_cost.Server.Config.{Config}
use kube_cost.Server.Batch.{Calls, Frame}
use kube_cost.Delivery.{System, Setting, Round}

abbrev pub codec : Codec
codec = record {
  marshal = λ o. some (o.sequence ∷ []);
  size = λ b. 100;
  sha256 = λ bytes. 7 ∷ bytes;
  hex = λ bytes. "id";
  bytes = λ s. [];
  batch_name = λ cluster first last. "batch";
  fallback = λ key sequence now. [];
}

abbrev pub seen : ℕ → Observation
seen n = record {
  sequence = n;
  event_id = "e";
  observed_at = none;
  collected_at = none;
  source_resource_version = "";
  payload = some (node_metrics "m");
}

-- A cluster record with no operation, which the service refuses.
abbrev pub odd : ℕ → Observation
odd n = record {
  sequence = n;
  event_id = "e";
  observed_at = none;
  collected_at = none;
  source_resource_version = "";
  payload = some (
      cluster_inventory (record {
        inventory_record = none;
        cluster_uid = "";
        name = "";
        kubernetes_version = "";
        provider = "";
        region = "";
        account_id = "";
        labels = [];
      }));
}

abbrev pub batch_of : ℕ → ℕ → List Observation → ObservationBatch
batch_of first last os = record {
  batch_id = "b";
  first_sequence = first;
  last_sequence = last;
  created_at = 0;
  payload_checksum = 7 ∷ first ∷ last ∷ [];
  observations = os;
}

abbrev pub config : Config
config = record {
  max_batch_records = 500;
  max_batch_bytes = 4096;
  heartbeat_interval = 30;
  backpressure_delay = 1;
  high_watermark_percent = 80;
}

abbrev pub hello : AgentHello
hello = record {
  tenant_id = "t";
  cluster_id = "c";
  agent_instance_id = "a";
  supported_protocol_versions = [];
  resume_after_sequence = 0;
  rest = "";
}

abbrev pub all_well : Calls
all_well = record {
  flow_sent = true;
  received_at = 5;
  archived = true;
  channel = 1;
  notified = true;
  saved = true;
  ack_sent = true;
}

abbrev pub frame : ObservationBatch → Frame
frame b = record {
  config = config;
  hello = hello;
  session_id = "s";
  calls = all_well;
  received = b;
}

abbrev pub idle : Queue
idle = record { items = []; capacity = 4; in_flight = 0; ready = false }

abbrev pub queued : ℕ → Batch
queued channel = record {
  tenant_id = "t";
  cluster_id = "c";
  agent_instance = "a";
  session_id = "s";
  received_at = 5;
  observation_set = batch_of 1 2 (seen 1 ∷ seen 2 ∷ []);
  persisted = some channel;
}

abbrev pub holding : List Observation → Buffer
holding os = record {
  entries = os;
  next = 10;
  persisted = 0;
  capacity = 8;
  notify = false;
  closed = false;
}

abbrev pub setting : Setting
setting = record { codec = codec; config = config; hello = hello; session_id = "s"; maximum = 2 }

abbrev pub turn : Round
turn = record { now = 3; calls = all_well }

abbrev pub system : ℕ → List Observation → System
system watermark os = record { buffer = holding os; watermark = watermark; queue = idle }
