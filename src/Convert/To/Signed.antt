-- ===== src/Convert/To/Signed.antt =====
-- Reading a signed measurement.
use gsw.Prelude.{
  ℕ, zero, suc, ◌*◌, ◌≤◌, ◌≡◌, List, ◌∷◌, Exec, ok, fault, length, take, zero, ◌+◌, ◌%◌, ◌<◌, ◌^◌,
  ◌-◌, refl, All, arith,
}
use gsw.Prelude.Int.{ℤ}
use gsw.Vcm.Types.{
  LocationInfo, MeasurementInfo, Endianness, gsw_big_endian, gsw_little_endian, int_type,
  signed_type,
}
use gsw.Bytes.{value}
use gsw.Bytes.Copy.{load-fault}
use gsw.Bytes.Values.{signed, sign_bit, IsByte}
use gsw.Convert.To.{convert_to_int32}

-- The call returns a pattern that stands for the integer `z`.
abbrev pub ReadsInt : ℤ → Exec ℕ → Type 0
ReadsInt z (ok p) = signed 32 p ≡ z
ReadsInt z _ = ⊥

abbrev int_measurement : List LocationInfo → Endianness → ℕ → MeasurementInfo
int_measurement locs e n = record {
  locations = locs;
  size = n;
  endianness = e;
  type = int_type;
  sign = signed_type;
}

module _ (locs : List LocationInfo) where
  little :
      (n : ℕ) (src : List ℕ)
      → 1 ≤ n
      → n ≤ 4
      → n ≤ length src
      → All IsByte src
      → ReadsInt
          (signed (8 * n) (value gsw_little_endian (take n src)))
          (convert_to_int32 gsw_little_endian (int_measurement locs gsw_little_endian n) src)
  unfolding convert_to_int32
  little (suc zero) (a ∷ src) p h k (ba, bs) = rw (sign_bit a ba) (ground arith)
  little (suc (suc zero)) (a ∷ b ∷ src) p h k (ba, (bb, bs)) = rw (sign_bit b bb) (ground arith)
  little (suc (suc (suc zero))) (a ∷ b ∷ c ∷ src) p h k (ba, (bb, (bc, bs))) =
      rw (sign_bit c bc) (ground arith)
  little (suc (suc (suc (suc zero)))) (a ∷ b ∷ c ∷ d ∷ src) p h k (ba, (bb, (bc, (bd, bs)))) = refl
  little n src p h k bs = absurd (omega arith)

  big :
      (n : ℕ) (src : List ℕ)
      → 1 ≤ n
      → n ≤ 4
      → n ≤ length src
      → All IsByte src
      → ReadsInt
          (signed (8 * n) (value gsw_big_endian (take n src)))
          (convert_to_int32 gsw_little_endian (int_measurement locs gsw_big_endian n) src)
  unfolding convert_to_int32
  big (suc zero) (a ∷ src) p h k (ba, bs) = rw (sign_bit a ba) (ground arith)
  big (suc (suc zero)) (a ∷ b ∷ src) p h k (ba, (bb, bs)) = rw (sign_bit a ba) (ground arith)
  big (suc (suc (suc zero))) (a ∷ b ∷ c ∷ src) p h k (ba, (bb, (bc, bs))) =
      rw (sign_bit a ba) (ground arith)
  big (suc (suc (suc (suc zero)))) (a ∷ b ∷ c ∷ d ∷ src) p h k (ba, (bb, (bc, (bd, bs)))) =
      ground arith
  big n src p h k bs = absurd (omega arith)

  by_order :
      (e : Endianness) (n : ℕ) (src : List ℕ)
      → 1 ≤ n
      → n ≤ 4
      → n ≤ length src
      → All IsByte src
      → ReadsInt
          (signed (8 * n) (value e (take n src)))
          (convert_to_int32 gsw_little_endian (int_measurement locs e n) src)
  by_order gsw_little_endian = little
  by_order gsw_big_endian = big

-- On a little-endian host a signed measurement of one to four bytes, all of them in the memory,
-- reads as the integer that its bytes stand for in two's complement, in the measurement's own byte
-- order.
pub convert_to_int32-value :
    (m : MeasurementInfo) (src : List ℕ)
    → m.type ≡ int_type
    → m.sign ≡ signed_type
    → 1 ≤ m.size
    → m.size ≤ 4
    → m.size ≤ length src
    → All IsByte src
    → ReadsInt
        (signed (8 * m.size) (value m.endianness (take m.size src)))
        (convert_to_int32 gsw_little_endian m src)
convert_to_int32-value m src t s p h k bs =
    rw (t, s) (by_order m.locations m.endianness m.size src p h k bs)

-- A little-endian signed measurement of size 0 passes the guards, and its sign byte is then read
-- at offset 2 ^ 64 - 1, outside of any memory that is shorter.
convert_to_int32-empty :
    (sys : Endianness) (m : MeasurementInfo) (src : List ℕ)
    → m.type ≡ int_type
    → m.sign ≡ signed_type
    → m.size ≡ 0
    → m.endianness ≡ gsw_little_endian
    → length src < 2 ^ 64
    → convert_to_int32 sys m src ≡ fault
unfolding convert_to_int32
convert_to_int32-empty sys m src t s z e l =
    rw (t, s, e) (ground (arith, load-fault src ((m.size + 2 ^ 64 - 1) % 2 ^ 64) (omega arith)))
