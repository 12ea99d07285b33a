-- ===== src/Analyzer.antt =====
-- The reconciliation of an analyzer's log with the device's frames
-- (scripts/phase3/reconcile_p3b_analyzer.py).
pub mod Log
pub mod Frames
pub mod Reconcile
pub mod Matches
pub mod Verdict
pub mod Raises
pub mod PayloadText
mod Examples
