-- ===== src/UsbHil.antt =====
-- The USB runner (scripts/phase3/run_usb_hil.py) and its transfers
-- and echo (scripts/phase0/usb_bulk_loopback.py).
pub mod Descriptor
pub mod ItemBytes
pub mod Items
pub mod FullSpeed
pub mod Session
pub mod BulkMain
pub mod BulkRun
pub mod BulkFinish
pub mod Returns
pub mod Sessions
pub mod FullSpeedSteps
pub mod FullSpeedRun
pub mod Matrix
pub mod RunMatrix
pub mod Loopback
pub mod Fallback
mod Examples
pub mod MatrixRun
pub mod MatrixErrors
pub mod LoopTurns
pub mod LoopRun
pub mod Finishes
pub mod CasesFinish
pub mod RunsFinish
mod RunExamples
