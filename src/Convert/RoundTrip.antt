-- ===== src/Convert/RoundTrip.antt =====
-- Writing a value with `convert_from` and reading it back with `convert_to`.
use gsw.Prelude.{ℕ, ◌^◌, ◌≤◌, ◌<◌, ◌≡◌, List, ◌∷◌, ok, ◌>>=◌, length, arith}
use gsw.Vcm.Types.{MeasurementInfo, int_type, unsigned_type, signed_type, float_type, Endianness}
use gsw.Convert.To.{convert_to_uint32, convert_to_int32, convert_to_float, convert_to_double}
use gsw.Convert.From.{
  convert_from_uint32, convert_from_int32, convert_from_float, convert_from_double,
}

-- A four-byte unsigned measurement reads back as the value below 2 ^ 32 that was written to memory
-- that has room for it, for either byte order of the measurement and of the host.
pub convert_to_uint32-convert_from_uint32 :
    (sys : Endianness) (m : MeasurementInfo) (out : List ℕ) (v : ℕ)
    → m.type ≡ int_type
    → m.sign ≡ unsigned_type
    → m.size ≡ 4
    → 4 ≤ length out
    → v < 2 ^ 32
    → (convert_from_uint32 sys m out v >>= convert_to_uint32 sys m) ≡ ok v
unfolding convert_from_uint32 convert_to_uint32
convert_to_uint32-convert_from_uint32 sys m (a ∷ b ∷ c ∷ d ∷ out) v t s z l h = ground arith
convert_to_uint32-convert_from_uint32 sys m out v t s z l h = absurd (omega arith)

-- A four-byte signed measurement reads back as the pattern below 2 ^ 32 that was written to memory
-- that has room for it, for either byte order of the measurement and of the host.
pub convert_to_int32-convert_from_int32 :
    (sys : Endianness) (m : MeasurementInfo) (out : List ℕ) (v : ℕ)
    → m.type ≡ int_type
    → m.sign ≡ signed_type
    → m.size ≡ 4
    → 4 ≤ length out
    → v < 2 ^ 32
    → (convert_from_int32 sys m out v >>= convert_to_int32 sys m) ≡ ok v
unfolding convert_from_int32 convert_to_int32
convert_to_int32-convert_from_int32 sys m (a ∷ b ∷ c ∷ d ∷ out) v t s z l h = ground arith
convert_to_int32-convert_from_int32 sys m out v t s z l h = absurd (omega arith)

-- A float reads back as the pattern below 2 ^ 32 that was written to memory that has room for it,
-- for either byte order of the measurement and of the host.
pub convert_to_float-convert_from_float :
    (sys : Endianness) (m : MeasurementInfo) (out : List ℕ) (v : ℕ)
    → m.type ≡ float_type
    → m.size ≡ 4
    → 4 ≤ length out
    → v < 2 ^ 32
    → (convert_from_float sys m out v >>= convert_to_float sys m) ≡ ok v
unfolding convert_from_float convert_to_float
convert_to_float-convert_from_float sys m (a ∷ b ∷ c ∷ d ∷ out) v t z l h = ground arith
convert_to_float-convert_from_float sys m out v t z l h = absurd (omega arith)

-- A double reads back as the pattern below 2 ^ 64 that was written to memory that has room for it,
-- for either byte order of the measurement and of the host.
pub convert_to_double-convert_from_double :
    (sys : Endianness) (m : MeasurementInfo) (out : List ℕ) (v : ℕ)
    → m.type ≡ float_type
    → m.size ≡ 8
    → 8 ≤ length out
    → v < 2 ^ 64
    → (convert_from_double sys m out v >>= convert_to_double sys m) ≡ ok v
unfolding convert_from_double convert_to_double
convert_to_double-convert_from_double sys m (a ∷ b ∷ c ∷ d ∷ e ∷ f ∷ g ∷ h ∷ out) v t z l k =
    ground arith
convert_to_double-convert_from_double sys m out v t z l h = absurd (omega arith)
