-- ===== src/Telemetry/Shm.antt =====
-- lib/telemetry/src/TelemetryShm.cpp: packets in shared memory, with a nonce for each packet and a
-- master nonce that every write advances.
pub mod State
pub mod Write
pub mod Read
pub mod Query
pub mod Locking
mod Tests
