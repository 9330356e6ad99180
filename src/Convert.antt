-- ===== src/Convert.antt =====
-- lib/convert/src/convert.cpp: measurements between raw telemetry bytes and C values.
-- `sys` is `vcm->sys_endianness`, which the constructors of VCM set to the byte order of the host.
-- A float or double is its bit pattern.
pub mod To
pub mod From
pub mod RoundTrip
pub mod Text
mod Tests
