-- ===== src/Heartbeat.antt =====
-- The heartbeat collector (scripts/phase2/collect_heartbeat.py): reading a sample of the target's
-- state, judging it against the sample before, and the collecting loop with its evidence.
pub mod Sample
pub mod Check
pub mod Required
pub mod Accepted
pub mod Collect
pub mod Rounds
pub mod Chain
pub mod Outcomes
pub mod Printed
pub mod Numbers
pub mod ReadBack
mod Examples
