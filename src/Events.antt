-- ===== src/Events.antt =====
-- The events between the API and the worker: what they are, how they are consumed and projected.
pub mod Schemas
pub mod Offsets
pub mod Tables
pub mod Bill
pub mod Manifest
pub mod Usage
pub mod Projector
pub mod Consumer
pub mod Kept
pub mod Billed
pub mod Batch
pub mod Outbox
pub mod Samples
mod Tests
