-- ===== src/EventLoss.antt =====
-- The reconciliation of lost USB events (scripts/phase3/reconcile_p3b_backpressure.py): ranges of
-- nonzero 32-bit event sequences, the ranges that the event log misses, the ranges that the
-- DATA_LOSS rows declare, and the verdict on the run.
pub mod Ranges
pub mod Merge
pub mod Canonical
pub mod Count
pub mod Observed
pub mod Declared
pub mod Reconcile
pub mod Gaps
pub mod Climbing
pub mod LossRows
pub mod Losses
pub mod Verdict
mod Examples
