-- ===== src/Trigger.antt =====
-- lib/trigger: functions that run when a measurement is updated.
pub mod Parse
pub mod Basic
