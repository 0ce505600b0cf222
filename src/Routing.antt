-- ===== src/Routing.antt =====
-- Which rail to try next (src/executor/rail_selector.py), away from what the gateway reports as
-- down (src/downtime.py).
pub mod Downtime
pub mod Rails
pub mod Choice
mod Examples
