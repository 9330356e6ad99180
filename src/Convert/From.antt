-- ===== src/Convert/From.antt =====
-- `convert_from` of lib/convert/src/convert.cpp: C values to raw telemetry.
-- `output` is the memory that the pointer of the source leads to; a write past its end is a fault.
use gsw.Prelude.{
  ℕ, ◌+◌, ◌-◌, List, [], ◌∷◌, ◌++◌, Exec, ◌>>=◌, ◌>>◌, guard, store, failure, leb, ◌==◌, length,
  if◌then◌else◌,
}
use gsw.Vcm.Types.{Endianness, MeasurementInfo, eq_endianness}
use gsw.Bytes.{bytes, copy_loop, fill_loop}

-- `val[i]` of a std::string may be read up to the NUL behind the last character.
unfoldable pub convert_from_string : MeasurementInfo → List ℕ → List ℕ → Exec (List ℕ)
convert_from_string m output val = do
  guard (leb (length val + 1) m.size) failure
  out ← copy_loop (λ i. i) (λ i. i) m.size 0 output (val ++ 0 ∷ [])
  store out m.size 0

-- A word of four bytes, padded with zeros to the size of the measurement.
abbrev convert_from_word : Endianness → MeasurementInfo → List ℕ → ℕ → Exec (List ℕ)
convert_from_word sys m output val = do
  guard (leb 4 m.size) failure
  let valb = bytes sys 4 val
  if eq_endianness sys m.endianness
      then (do out ← copy_loop (λ i. i) (λ i. i) 4 0 output valb; fill_loop 0 (m.size - 4) 4 out)
      else (do
        out ← fill_loop 0 (m.size - 4) 0 output
        copy_loop (λ i. m.size - 4 + i) (λ i. 4 - i - 1) 4 0 out valb)

unfoldable pub convert_from_uint32 : Endianness → MeasurementInfo → List ℕ → ℕ → Exec (List ℕ)
convert_from_uint32 = convert_from_word

-- The int32_t is its bit pattern.
unfoldable pub convert_from_int32 : Endianness → MeasurementInfo → List ℕ → ℕ → Exec (List ℕ)
convert_from_int32 = convert_from_word

abbrev convert_from_float_of : ℕ → Endianness → MeasurementInfo → List ℕ → ℕ → Exec (List ℕ)
convert_from_float_of width sys m output val = do
  guard (m.size == width) failure
  let valb = bytes sys width val
  if eq_endianness sys m.endianness
      then copy_loop (λ i. i) (λ i. i) width 0 output valb
      else copy_loop (λ i. i) (λ i. width - i - 1) width 0 output valb

unfoldable pub convert_from_float : Endianness → MeasurementInfo → List ℕ → ℕ → Exec (List ℕ)
convert_from_float = convert_from_float_of 4

unfoldable pub convert_from_double : Endianness → MeasurementInfo → List ℕ → ℕ → Exec (List ℕ)
convert_from_double = convert_from_float_of 8
