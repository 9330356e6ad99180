-- ===== src/Vcm/Types.antt =====
-- include/lib/vcm/vcm.h: the types of the vehicle configuration that other components read.
use gsw.Prelude.{ℕ, Bool, true, false, List}

pub data MeasurementType : Type 0 where
  undefined_type int_type float_type string_type : MeasurementType

pub data MeasurementSign : Type 0 where
  signed_type unsigned_type : MeasurementSign

pub data Endianness : Type 0 where
  gsw_big_endian gsw_little_endian : Endianness

pub record LocationInfo : Type 0 where
  pub offset : ℕ
  pub packet_index : ℕ

pub record MeasurementInfo : Type 0 where
  pub locations : List LocationInfo
  pub size : ℕ
  pub endianness : Endianness
  pub type : MeasurementType
  pub sign : MeasurementSign

pub record PacketInfo : Type 0 where
  pub size : ℕ
  pub port : ℕ
  pub is_virtual : Bool

-- The tests `==` on the enumerations.
abbrev pub eq_endianness : Endianness → Endianness → Bool
eq_endianness gsw_big_endian gsw_big_endian = true
eq_endianness gsw_big_endian gsw_little_endian = false
eq_endianness gsw_little_endian gsw_big_endian = false
eq_endianness gsw_little_endian gsw_little_endian = true

abbrev pub is_int : MeasurementType → Bool
is_int int_type = true
is_int _ = false

abbrev pub is_float : MeasurementType → Bool
is_float float_type = true
is_float _ = false

abbrev pub is_signed : MeasurementSign → Bool
is_signed signed_type = true
is_signed unsigned_type = false
