-- ===== src/Convert/Tests.antt =====
-- The conversions at concrete measurements.
use gsw.Prelude.{ℕ, ◌≡◌, refl, [], ◌∷◌, ok, fault, ◌>>=◌, arith, replicate}
use gsw.Prelude.Int.{negsuc}
use gsw.Text.{codes}
use gsw.Vcm.Types.{
  MeasurementInfo, MeasurementType, int_type, float_type, string_type, MeasurementSign, signed_type,
  unsigned_type, Endianness, gsw_big_endian, gsw_little_endian,
}
use gsw.Convert.To.{
  convert_to_double, convert_to_float, convert_to_int32, convert_to_uint32, convert_to_string,
  Printf,
}
use gsw.Convert.To.Signed.{ReadsInt, convert_to_int32-value}
use gsw.Convert.To.Unsigned.{convert_to_uint32-value}
use gsw.Convert.From.{
  convert_from_double, convert_from_float, convert_from_int32, convert_from_uint32,
  convert_from_string,
}
use gsw.Convert.RoundTrip.{
  convert_to_uint32-convert_from_uint32, convert_to_int32-convert_from_int32,
  convert_to_float-convert_from_float, convert_to_double-convert_from_double,
}
use gsw.Convert.Text.{convert_to_string-convert_from_string, convert_from_string-overflow}

abbrev measurement : MeasurementType → MeasurementSign → Endianness → ℕ → MeasurementInfo
measurement type sign order size = record {
  locations = [];
  size = size;
  endianness = order;
  type = type;
  sign = sign;
}

abbrev int16_be : MeasurementInfo
int16_be = measurement int_type signed_type gsw_big_endian 2

abbrev uint24_be : MeasurementInfo
uint24_be = measurement int_type unsigned_type gsw_big_endian 3

abbrev uint32_be : MeasurementInfo
uint32_be = measurement int_type unsigned_type gsw_big_endian 4

abbrev int32_le : MeasurementInfo
int32_le = measurement int_type signed_type gsw_little_endian 4

abbrev float_be : MeasurementInfo
float_be = measurement float_type signed_type gsw_big_endian 4

abbrev double_be : MeasurementInfo
double_be = measurement float_type signed_type gsw_big_endian 8

abbrev text3 : MeasurementInfo
text3 = measurement string_type signed_type gsw_little_endian 3

abbrev no_size : MeasurementInfo
no_size = measurement int_type signed_type gsw_little_endian 0

abbrev no_printf : Printf
no_printf = record {
  print_int = λ _. [];
  print_uint = λ _. [];
  print_float = λ _. [];
  print_double = λ _. [];
}

minus_two : convert_to_int32 gsw_little_endian int16_be (0xff ∷ 0xfe ∷ []) ≡ ok 0xffff_fffe
unfolding convert_to_int32
minus_two = refl

convert_to_int32-value_example :
    ReadsInt (negsuc 1) (convert_to_int32 gsw_little_endian int16_be (0xff ∷ 0xfe ∷ []))
convert_to_int32-value_example =
    convert_to_int32-value int16_be (0xff ∷ 0xfe ∷ []) refl refl (omega arith) (omega arith)
      (omega arith) (omega arith)

convert_to_uint32-value_example :
    convert_to_uint32 gsw_little_endian uint24_be (1 ∷ 2 ∷ 3 ∷ 9 ∷ []) ≡ ok 0x010203
convert_to_uint32-value_example =
    convert_to_uint32-value uint24_be (1 ∷ 2 ∷ 3 ∷ 9 ∷ []) refl refl (omega arith) (omega arith)

convert_to_uint32-convert_from_uint32_example :
    (convert_from_uint32 gsw_little_endian uint32_be (replicate 6 7) 0x01020304
      >>= convert_to_uint32 gsw_little_endian uint32_be)
    ≡ ok 0x01020304
convert_to_uint32-convert_from_uint32_example =
    convert_to_uint32-convert_from_uint32 gsw_little_endian uint32_be (replicate 6 7) 0x01020304
      refl refl refl (omega arith) (omega arith)

convert_to_int32-convert_from_int32_example :
    (convert_from_int32 gsw_big_endian int32_le (replicate 4 0) 0xffff_fff0
      >>= convert_to_int32 gsw_big_endian int32_le)
    ≡ ok 0xffff_fff0
convert_to_int32-convert_from_int32_example =
    convert_to_int32-convert_from_int32 gsw_big_endian int32_le (replicate 4 0) 0xffff_fff0 refl
      refl refl (omega arith) (omega arith)

convert_to_float-convert_from_float_example :
    (convert_from_float gsw_little_endian float_be (replicate 4 0) 0x3f80_0000
      >>= convert_to_float gsw_little_endian float_be)
    ≡ ok 0x3f80_0000
convert_to_float-convert_from_float_example =
    convert_to_float-convert_from_float gsw_little_endian float_be (replicate 4 0) 0x3f80_0000 refl
      refl (omega arith) (omega arith)

convert_to_double-convert_from_double_example :
    (convert_from_double gsw_little_endian double_be (replicate 8 0) 0x3ff0_0000_0000_0000
      >>= convert_to_double gsw_little_endian double_be)
    ≡ ok 0x3ff0_0000_0000_0000
convert_to_double-convert_from_double_example =
    convert_to_double-convert_from_double gsw_little_endian double_be (replicate 8 0)
      0x3ff0_0000_0000_0000 refl refl (omega arith) (omega arith)

convert_to_string-convert_from_string_example :
    (convert_from_string text3 (replicate 4 9) (codes "ok")
      >>= convert_to_string no_printf gsw_little_endian text3)
    ≡ ok (codes "ok")
convert_to_string-convert_from_string_example =
    convert_to_string-convert_from_string no_printf gsw_little_endian text3 (replicate 4 9)
      (codes "ok") refl refl (omega arith) (omega arith) (omega arith)

convert_from_string-overflow_example :
    convert_from_string text3 (replicate 3 9) (codes "ok") ≡ fault
convert_from_string-overflow_example =
    convert_from_string-overflow text3 (replicate 3 9) (codes "ok") (omega arith) (omega arith)
