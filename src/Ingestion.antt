-- ===== src/Ingestion.antt =====
-- The webhooks that the gateway sends, from the request to the handling (src/ingestion/ and the
-- sweep of src/scheduler.py that handles again what failed).
pub mod Receive
pub mod Sweep
pub mod Prune
mod Once
mod Resent
mod Chances
mod Batch
mod Drain
mod Lost
mod Examples
