-- ===== src/Hotplug.antt =====
-- The hot-plug collector (scripts/phase3/collect_usb_hotplug.py): finding the device in sysfs, the
-- recovery smoke with its retries, and the cycles of disconnect and reconnect.
pub mod Device
pub mod Smoke
pub mod Collect
pub mod Retry
pub mod Closing
pub mod Qualified
pub mod Cycles
pub mod Ends
pub mod GoodCycles
pub mod Schedule
mod Examples
