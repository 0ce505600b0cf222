-- ===== src/Orchestrator.antt =====
-- One step of the engine on a case (src/orchestrator.py) and the firing of a deferred attempt
-- (src/scheduler.py).
pub mod Window
pub mod Context
pub mod Execution
pub mod Chase
pub mod FirmStop
pub mod Mandate
mod MandateOnce
mod MandateSafety
mod MandateSweep
mod Guards
mod Safety
mod Freeze
mod Progress
pub mod Payment
pub mod Fire
mod PaymentSafety
pub mod FirePayment
mod FireTime
mod FirePaymentTime
mod Budget
pub mod Examples
mod FreezeExamples
pub mod PaymentExamples
pub mod RunExamples
mod MandateExamples
pub mod Reminder
mod ReminderSafety
mod ReminderRefused
mod ReminderExamples
pub mod Claims
mod ClaimSafety
mod ClaimExamples
mod FirePaymentExamples
