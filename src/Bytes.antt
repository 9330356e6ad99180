-- ===== src/Bytes.antt =====
-- Bytes in memory: copying loops, and the numbers that a run of bytes stands for.
pub mod Values
pub mod Copy
pub mod Reverse
use gsw.Prelude.{
  ℕ, zero, suc, ◌+◌, ◌*◌, ◌/◌, ◌%◌, ◌≡◌, refl, List, [], ◌∷◌, ◌++◌, Exec, ok, ◌>>=◌, load, store,
}
use gsw.Vcm.Types.{Endianness, gsw_big_endian, gsw_little_endian}
use mathlib.Core.List.{reverse}

-- The number that the bytes stand for, least or most significant byte first.
abbrev pub le_value : List ℕ → ℕ
le_value [] = 0
le_value (b ∷ bs) = b + 256 * le_value bs

abbrev pub be_value_from : ℕ → List ℕ → ℕ
be_value_from acc [] = acc
be_value_from acc (b ∷ bs) = be_value_from (acc * 256 + b) bs

abbrev pub be_value : List ℕ → ℕ
be_value = be_value_from 0

abbrev pub le_bytes : ℕ → ℕ → List ℕ
le_bytes zero v = []
le_bytes (suc n) v = v % 256 ∷ le_bytes n (v / 256)

abbrev pub be_bytes : ℕ → ℕ → List ℕ
be_bytes n v = reverse (le_bytes n v)

-- `value e bs` reads the bytes in the order `e`; `bytes e n v` are the n bytes of v in that order.
abbrev pub value : Endianness → List ℕ → ℕ
value gsw_big_endian bs = be_value bs
value gsw_little_endian bs = le_value bs

abbrev pub bytes : Endianness → ℕ → ℕ → List ℕ
bytes gsw_big_endian n v = be_bytes n v
bytes gsw_little_endian n v = le_bytes n v

-- for(; n more rounds; i++) dst[to i] = src[from i];
abbrev pub copy_loop : (ℕ → ℕ) → (ℕ → ℕ) → ℕ → ℕ → List ℕ → List ℕ → Exec (List ℕ)
copy_loop to from zero i dst src = ok dst
copy_loop to from (suc n) i dst src = do
  b ← load src (from i)
  dst' ← store dst (to i) b
  copy_loop to from n (i + 1) dst' src

-- memset(dst + i, v, n)
abbrev pub fill_loop : ℕ → ℕ → ℕ → List ℕ → Exec (List ℕ)
fill_loop v zero i dst = ok dst
fill_loop v (suc n) i dst = store dst i v >>= λ dst'. fill_loop v n (i + 1) dst'
