-- ===== src/Worker.antt =====
-- apps/worker: the Temporal workflows and the workers' loops.
pub mod Flow
pub mod Call
pub mod Action
pub mod Billing
pub mod Webhook
pub mod Activities
pub mod EventWorker
