-- ===== src/Telemetry/Shm/Read/Wakes.antt =====
-- Which writes wake a reader that waits for a list of packets.
use Prim.Native.Nat.{bit_and, bit_or}
use mathlib.Core.Bool.{not}
use gsw.Prelude.{
  ℕ, ◌+◌, ◌^◌, ◌%◌, ◌≤◌, ◌≡◌, refl, Bool, true, List, [], ◌∷◌, ltb, ◌==◌, if◌then◌else◌, length,
  replicate, arith,
}
use gsw.Bytes.Values.{passes_below, passes_below-test}
use gsw.Telemetry.Shm.Read.{bits_loop, wakes}

-- The bits depend on the number of packets alone.
bits_loop-length :
    (i : ℕ) (ids : List ℕ) (bits : ℕ)
    → bits_loop i ids bits ≡ bits_loop i (replicate (length ids) 0) bits
unfolding bits_loop
bits_loop-length i [] bits = refl
bits_loop-length i (id ∷ ids) bits = bits_loop-length (i + 1) ids (bit_or bits (2 ^ i))

has_bit : ℕ → ℕ → Bool
has_bit n k = not (bit_and (bits_loop 0 (replicate n 0) 0) (2 ^ k) == 0)

abbrev agrees : Bool → Bool → Bool
agrees a b = if a then b else not b

bits_table : passes_below (λ n. passes_below (λ k. agrees (has_bit n k) (ltb k n)) 32) 33 ≡ true
unfolding passes_below has_bit bits_loop
bits_table = refl

agrees-eq : (a b : Bool) → agrees a b ≡ true → a ≡ b
agrees-eq a b h = ground arith

-- A write of a packet wakes a reader that waits for at most 32 packets exactly if the packet's id
-- modulo 32 is below the number of packets that the reader waits for, whichever those are.
pub wakes-eq :
    (ids : List ℕ) (id : ℕ)
    → length ids ≤ 32
    → wakes ids (2 ^ (id % 32)) ≡ ltb (id % 32) (length ids)
unfolding wakes has_bit
wakes-eq ids id h = rw (bits_loop-length 0 ids 0) (
    agrees-eq _ _ (
      passes_below-test _ 32 (id % 32) (omega arith) (
        passes_below-test (λ n. passes_below (λ k. agrees (has_bit n k) (ltb k n)) 32) 33
          (length ids) (omega arith) bits_table)))
