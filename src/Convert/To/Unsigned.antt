-- ===== src/Convert/To/Unsigned.antt =====
-- Reading an unsigned measurement.
use gsw.Prelude.{ℕ, zero, suc, ◌-◌, ◌≤◌, ◌≡◌, refl, List, [], ◌∷◌, ok, ◌>>=◌, length, take, arith}
use gsw.Vcm.Types.{MeasurementInfo, gsw_big_endian, gsw_little_endian, int_type, unsigned_type}
use gsw.Bytes.{value, copy_loop}
use gsw.Convert.To.{convert_to_uint32}

abbrev word : List ℕ
word = 0 ∷ 0 ∷ 0 ∷ 0 ∷ []

forward-value :
    (n : ℕ) (src : List ℕ)
    → n ≤ 4
    → n ≤ length src
    → (copy_loop (λ i. i) (λ i. i) n 0 word src >>= λ val. ok (value gsw_little_endian val))
      ≡ ok (value gsw_little_endian (take n src))
forward-value zero src h k = refl
forward-value (suc zero) (a ∷ src) h k = refl
forward-value (suc (suc zero)) (a ∷ b ∷ src) h k = refl
forward-value (suc (suc (suc zero))) (a ∷ b ∷ c ∷ src) h k = refl
forward-value (suc (suc (suc (suc zero)))) (a ∷ b ∷ c ∷ d ∷ src) h k = refl
forward-value n src h k = absurd (omega arith)

backward-value :
    (n : ℕ) (src : List ℕ)
    → n ≤ 4
    → n ≤ length src
    → (copy_loop (λ i. n - i - 1) (λ i. i) n 0 word src >>= λ val. ok (value gsw_little_endian val))
      ≡ ok (value gsw_big_endian (take n src))
backward-value zero src h k = refl
backward-value (suc zero) (a ∷ src) h k = ground arith
backward-value (suc (suc zero)) (a ∷ b ∷ src) h k = ground arith
backward-value (suc (suc (suc zero))) (a ∷ b ∷ c ∷ src) h k = ground arith
backward-value (suc (suc (suc (suc zero)))) (a ∷ b ∷ c ∷ d ∷ src) h k = ground arith
backward-value n src h k = absurd (omega arith)

-- On a little-endian host an unsigned measurement of at most four bytes, all of them in the
-- memory, reads as the number that its bytes stand for in the measurement's own byte order.
pub convert_to_uint32-value :
    (m : MeasurementInfo) (src : List ℕ)
    → m.type ≡ int_type
    → m.sign ≡ unsigned_type
    → m.size ≤ 4
    → m.size ≤ length src
    → convert_to_uint32 gsw_little_endian m src ≡ ok (value m.endianness (take m.size src))
unfolding convert_to_uint32
convert_to_uint32-value m src t s h k =
    ground (arith, forward-value m.size src h k, backward-value m.size src h k)
