-- ===== src/Tests.antt =====
-- Concrete inputs of the theorems, and runs of the code that can be followed in the sources.
mod Data
mod Queues
mod Streams
mod Records
mod Stores
mod Deliveries
mod Services
mod Listings
mod JobStores
mod Workflows
mod Audits
