-- ===== src/Guardrail.antt =====
-- The guardrail between the agent's decision and any money (src/guardrail/).
pub mod Rules
pub mod Gate
pub mod Meaning
pub mod Permission
pub mod Blackout
pub mod Reasons
pub mod Roster
pub mod SelfServe
mod Examples
