-- ===== src/Cases.antt =====
-- src/cases.py: the lifecycle of a case, its promises to pay and the money that comes back.
pub mod Model
pub mod Lifecycle
pub mod Promises
pub mod Capture
mod Found
mod Credit
mod Audit
mod Replay
pub mod OptOut
mod Withdrawal
mod Silence
pub mod Stops
pub mod Deferral
mod Expiry
mod NullChannel
pub mod Examples
mod SilenceExamples
