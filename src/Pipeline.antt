-- ===== src/Pipeline.antt =====
-- apps/api/pipeline: flow control, interruption and turn detection of one call.
pub mod Queue
pub mod Responses
pub mod BargeIn
pub mod TurnDetector
pub mod Audio
pub mod Stream
