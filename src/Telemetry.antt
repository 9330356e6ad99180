-- ===== src/Telemetry.antt =====
-- lib/telemetry: access to telemetry in shared memory.
pub mod Shm
pub mod Writer
pub mod Viewer
pub mod RoundTrip
