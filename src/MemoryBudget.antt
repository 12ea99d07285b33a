-- ===== src/MemoryBudget.antt =====
-- The memory budget of a linked image (scripts/env/check_memory_budget.py).
pub mod LinkMap
pub mod Measured
pub mod Budget
mod Examples
