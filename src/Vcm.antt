-- ===== src/Vcm.antt =====
-- lib/vcm: the vehicle configuration.
pub mod Types
pub mod Config
pub mod Parse
