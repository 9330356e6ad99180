-- ===== src/Bytes/Values.antt =====
-- Tests on the bits of a byte, and signed readings of a pattern of bits.
use Prim.Native.Nat.{bit_and}
use gsw.Prelude.{
  ℕ, zero, suc, ◌-◌, ◌^◌, ◌<◌, ◌≡◌, refl, Bool, true, ◌&&◌, ltb, ◌==◌, ==_iff, arith, if◌then◌else◌,
}
use gsw.Prelude.Int.{ℤ, pos, negsuc}

-- A test that every number below `bound` passes.
unfoldable pub passes_below : (ℕ → Bool) → ℕ → Bool
passes_below test zero = true
passes_below test (suc bound) = passes_below test bound && test bound

pub passes_below-test :
    (test : ℕ → Bool) (bound i : ℕ) → i < bound → passes_below test bound ≡ true → test i ≡ true
unfolding passes_below
passes_below-test test zero i low h = absurd (omega arith)
passes_below-test test (suc bound) i low h = ground (arith, passes_below-test test bound i)

sign_bit_table : passes_below (λ b. bit_and b 0x80 == (if ltb b 0x80 then 0 else 0x80)) 256 ≡ true
unfolding passes_below
sign_bit_table = refl

-- `b & (1 << 7)` of a byte.
pub sign_bit : (b : ℕ) → b < 256 → bit_and b 0x80 ≡ (if ltb b 0x80 then 0 else 0x80)
sign_bit b h = (==_iff _ _).0 (passes_below-test _ 256 b h sign_bit_table)

-- The integer that a pattern of `w` bits stands for in two's complement.
abbrev pub signed : ℕ → ℕ → ℤ
signed w v = if ltb v (2 ^ (w - 1)) then pos v else negsuc (2 ^ w - v - 1)

abbrev pub IsByte : ℕ → Type 0
IsByte b = b < 256
