-- ===== src/Server.antt =====
-- services/ingestion/server: the stream service that agents connect to. The children hold its
-- parts: Config (defaults, watermark), Checks (validation of a batch), Suffix (what is left of a
-- batch after the watermark), Batch (handleBatch), Session (one stream per cluster), and their
-- theorems.
pub mod Config
pub mod Checks
pub mod Valid
pub mod Suffix
pub mod Batch
pub mod Progress
pub mod Journal
pub mod Session
pub mod Checkpoint
