-- ===== src/Receivables.antt =====
-- The B2B receivables chaser (src/receivables/): its ladder, its hours and its payment plans.
pub mod Ladder
pub mod Aging
pub mod Disputes
pub mod OneDispute
pub mod Hours
pub mod Ratchet
pub mod Plans
pub mod PlanShape
pub mod PlanLife
pub mod PlanVerdict
mod PlanInstalments
mod PlanOpening
mod PlanOnce
mod PlanJudged
mod PlanExamples
pub mod External
mod ExternalOnce
mod ExternalExamples
mod AgingExamples
