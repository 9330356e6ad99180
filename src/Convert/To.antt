-- ===== src/Convert/To.antt =====
-- `convert_to` of lib/convert/src/convert.cpp: raw telemetry to C values.
pub mod Unsigned
pub mod Signed
use Prim.Native.Nat.{bit_and}
use gsw.Prelude.{
  ℕ, zero, suc, ◌+◌, ◌-◌, ◌≡◌, ◌^◌, ◌%◌, refl, Bool, true, false, ◌&&◌, List, [], ◌∷◌, ◌++◌, Exec,
  ok, err, ◌>>=◌, ◌>>◌, guard, load, store, failure, ltb, leb, ◌==◌, if◌then◌else◌, replicate, take,
}
use gsw.Vcm.Types.{
  Endianness, gsw_big_endian, gsw_little_endian, MeasurementInfo, MeasurementType, undefined_type,
  int_type, float_type, string_type, eq_endianness, is_int, is_float, is_signed,
}
use gsw.Bytes.{value, copy_loop, fill_loop}
use mathlib.Core.Bool.{not}

-- A measurement of `n` bytes copied to the start of `val`: backwards if its byte order is not the
-- host's.
abbrev pub copy_to_val : Endianness → MeasurementInfo → List ℕ → List ℕ → Exec (List ℕ)
copy_to_val sys m src val =
    if eq_endianness m.endianness sys
    then copy_loop (λ i. i) (λ i. i) m.size 0 val src
    else copy_loop (λ i. m.size - i - 1) (λ i. i) m.size 0 val src

-- `val` is not initialised for a float: the loop writes each of its bytes.
abbrev convert_to_float_of : ℕ → Endianness → MeasurementInfo → List ℕ → Exec ℕ
convert_to_float_of width sys m src = do
  guard (is_float m.type) failure
  guard (m.size == width) failure
  val ← copy_to_val sys m src (replicate width 0)
  ok (value sys val)

unfoldable pub convert_to_double : Endianness → MeasurementInfo → List ℕ → Exec ℕ
convert_to_double = convert_to_float_of 8

unfoldable pub convert_to_float : Endianness → MeasurementInfo → List ℕ → Exec ℕ
convert_to_float = convert_to_float_of 4

unfoldable pub convert_to_uint32 : Endianness → MeasurementInfo → List ℕ → Exec ℕ
convert_to_uint32 sys m src = do
  guard (is_int m.type && not (is_signed m.sign)) failure
  guard (leb m.size 4) failure
  val ← copy_to_val sys m src (replicate 4 0)
  ok (value sys val)

-- `data[measurement->size - 1]`, where the index is a size_t.
abbrev sign_byte_index : MeasurementInfo → ℕ
sign_byte_index m = elim m.endianness [
  | gsw_big_endian ↦ 0
  | gsw_little_endian ↦ (m.size + 2 ^ 64 - 1) % 2 ^ 64
]

-- The int32_t as its bit pattern, below 2 ^ 32.
unfoldable pub convert_to_int32 : Endianness → MeasurementInfo → List ℕ → Exec ℕ
convert_to_int32 sys m src = do
  guard (is_int m.type && is_signed m.sign) failure
  guard (leb m.size 4) failure
  b ← load src (sign_byte_index m)
  let sign_byte = if bit_and b 0x80 == 0 then 0 else 0xff
  val ← copy_to_val sys m src (replicate 4 0)
  val' ← fill_loop sign_byte (4 - m.size) m.size val
  ok (value sys val')

-- snprintf of the C library with "%i", "%u" and "%f": the characters that it prints.
pub record Printf : Type 0 where
  pub print_int : ℕ → List ℕ
  pub print_uint : ℕ → List ℕ
  pub print_float : ℕ → List ℕ
  pub print_double : ℕ → List ℕ

abbrev pub max_conversion_size : ℕ
max_conversion_size = 256

-- `*dst = result`: the characters of the buffer up to the first NUL.
abbrev pub c_str : List ℕ → List ℕ
c_str [] = []
c_str (c ∷ cs) = let rest = c_str cs in if c == 0 then [] else c ∷ rest

-- snprintf(result, MAX_CONVERSION_SIZE, ...) keeps room for the NUL.
abbrev printed : List ℕ → List ℕ
printed text = c_str (take (max_conversion_size - 1) text ++ 0 ∷ [])

abbrev read_prefix : ℕ → List ℕ → Exec (List ℕ)
read_prefix n src = copy_loop (λ i. i) (λ i. i) n 0 (replicate n 0) src

unfoldable pub convert_to_string : Printf → Endianness → MeasurementInfo → List ℕ → Exec (List ℕ)
unfolding convert_to_int32 convert_to_uint32 convert_to_float convert_to_double
convert_to_string p sys m src = elim m.type [
  | int_type ↦
      if is_signed m.sign
      then (convert_to_int32 sys m src >>= λ v. ok (printed (p.print_int v)))
      else (convert_to_uint32 sys m src >>= λ v. ok (printed (p.print_uint v)))
  | float_type ↦
      if m.size == 4
      then (convert_to_float sys m src >>= λ v. ok (printed (p.print_float v)))
      else if m.size == 8
      then (convert_to_double sys m src >>= λ v. ok (printed (p.print_double v)))
      else err failure
  | string_type ↦
      if ltb (max_conversion_size - 1) m.size
      then err failure
      else (read_prefix m.size src >>= λ text. ok (c_str (text ++ 0 ∷ [])))
  | undefined_type ↦ err failure
]
