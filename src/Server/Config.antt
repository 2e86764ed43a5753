-- ===== src/Server/Config.antt =====
-- services/ingestion/server/server.go: the configuration, its defaults, and the high watermark.
-- A configured duration or percentage that is not positive is 0. Durations are in nanoseconds.
use kube_cost.Prelude.{ℕ, ◌*◌, ◌/◌, ◌≤◌, max, ◌||◌, arith, ltb, ◌==◌, if◌then◌else◌}
use kube_cost.Queue.{Queue}

pub record Config : Type 0 where
  pub max_batch_records : ℕ  -- uint32
  pub max_batch_bytes : ℕ  -- uint64
  pub heartbeat_interval : ℕ
  pub backpressure_delay : ℕ
  pub high_watermark_percent : ℕ

unfoldable pub with_defaults : Config → Config
with_defaults c = record {
  max_batch_records = if c.max_batch_records == 0 then 500 else c.max_batch_records;
  max_batch_bytes = if c.max_batch_bytes == 0 then 4194304 else c.max_batch_bytes;
  heartbeat_interval = if c.heartbeat_interval == 0 then 30000000000 else c.heartbeat_interval;
  backpressure_delay = if c.backpressure_delay == 0 then 1000000000 else c.backpressure_delay;
  high_watermark_percent =
      if c.high_watermark_percent == 0 || ltb 100 c.high_watermark_percent
      then 80
      else c.high_watermark_percent;
}

unfoldable pub high_watermark : Config → Queue → ℕ
high_watermark c q = max 1 (q.capacity * c.high_watermark_percent / 100)

-- With the defaults filled in, the high watermark of a queue with room for a batch is at least one
-- and at most its capacity.
pub high_watermark_bounds :
    (c : Config) (q : Queue)
    → 1 ≤ q.capacity
    → (1 ≤ high_watermark (with_defaults c) q) × (high_watermark (with_defaults c) q ≤ q.capacity)
unfolding high_watermark with_defaults
high_watermark_bounds c q h = grind arith
