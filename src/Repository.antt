-- ===== src/Repository.antt =====
-- services/ingestion/persistence/repository.go: from queued batches to the inserts into the tables.
-- Values has the cells, Mapped the results, Nodes and Workloads the rows, Rows `mapObservation`,
-- and Inserts the grouping by table of `Persist`; Arity and Accepted are their theorems.
pub mod Values
pub mod Mapped
pub mod Nodes
pub mod Workloads
pub mod Rows
pub mod Inserts
pub mod Arity
pub mod Accepted
