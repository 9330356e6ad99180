-- ===== src/Convert/Text.antt =====
-- Text measurements: what `convert_from` leaves in memory, and where it leaves its bounds.
use mathlib.Core.List.{append-nil, append_assoc}
use gsw.Prelude.{
  ℕ, zero, suc, ◌+◌, ◌≤◌, ◌<◌, ◌≡◌, refl, ap, ◌≢◌, List, [], ◌∷◌, ◌++◌, Exec, ok, err, fault, ◌>>=◌,
  store, take, drop, length, length-append, length-replicate, replicate, arith, All,
}
use gsw.Vcm.Types.{MeasurementInfo, Endianness, string_type}
use gsw.Bytes.{copy_loop}
use gsw.Bytes.Copy.{Keeps, copy_loop-Keeps, copy_loop-past, copy_loop-forward, store-fault}
use gsw.Convert.To.{Printf, convert_to_string, c_str}
use gsw.Convert.From.{convert_from_string}

store-Keeps : (r : Exec (List ℕ)) (n i v : ℕ) → Keeps n r → n ≤ i → (r >>= λ d. store d i v) ≡ fault
store-Keeps (ok d) n i v k h = store-fault d i v (omega arith)
store-Keeps (err e) n i v k h = absurd k
store-Keeps fault n i v k h = refl

-- If the text fits by the code's own test, and the memory at `output` is no larger than the
-- measurement, the call writes or reads out of bounds: the NUL goes to `output[size]`.
pub convert_from_string-overflow :
    (m : MeasurementInfo) (output val : List ℕ)
    → length val + 1 ≤ m.size
    → length output ≤ m.size
    → convert_from_string m output val ≡ fault
unfolding convert_from_string
convert_from_string-overflow m output val h k = ground (
  arith,
  store-Keeps (copy_loop (λ i. i) (λ i. i) m.size 0 output (val ++ 0 ∷ [])) (length output) m.size 0
      (copy_loop-Keeps (λ i. i) (λ i. i) m.size 0 output (val ++ 0 ∷ [])) k,
)

-- A text that is shorter than the measurement by more than its NUL is read past its end.
pub convert_from_string-past :
    (m : MeasurementInfo) (output val : List ℕ)
    → length val + 1 < m.size
    → convert_from_string m output val ≡ fault
unfolding convert_from_string
convert_from_string-past m output val h = ground (
  arith,
  copy_loop-past m.size 0 output (val ++ 0 ∷ []) (omega arith)
      (omega (arith, length-append val (0 ∷ []))),
)

take-append {ℓ} : {A : Type ℓ} (xs ys : List A) → take (length xs) (xs ++ ys) ≡ xs
take-append [] ys = refl
take-append (x ∷ xs) ys = ap (◌∷◌ x) (take-append xs ys)

c_str-append : (val rest : List ℕ) → All (λ c. c ≢ 0) val → c_str (val ++ 0 ∷ rest) ≡ val
c_str-append [] rest h = refl
c_str-append (c ∷ val) rest h = ground (arith, c_str-append val rest h.1)

drop-suc :
    (n : ℕ) (xs : List ℕ) → n < length xs → (x : ℕ) × (rest : List ℕ) × (drop n xs ≡ x ∷ rest)
drop-suc n [] h = absurd (omega arith)
drop-suc zero (x ∷ xs) h = (x, xs, refl)
drop-suc (suc n) (x ∷ xs) h = drop-suc n xs (omega arith)

store-append :
    (pre dst : List ℕ) (i x v : ℕ)
    → length pre ≡ i
    → store (pre ++ x ∷ dst) i v ≡ ok (pre ++ v ∷ dst)
store-append [] dst zero x v h = refl
store-append [] dst (suc i) x v h = absurd (omega arith)
store-append (y ∷ pre) dst zero x v h = absurd (omega arith)
store-append (y ∷ pre) dst (suc i) x v h = rw (store-append pre dst i x v (omega arith))

-- What a write of a text that fills the measurement leaves.
written :
    (m : MeasurementInfo) (output val : List ℕ)
    → m.size ≡ length (val ++ 0 ∷ [])
    → m.size < length output
    → (rest : List ℕ) × (convert_from_string m output val ≡ ok ((val ++ 0 ∷ []) ++ 0 ∷ rest))
unfolding convert_from_string
written m output val h k =
    let (x, rest, e) = drop-suc m.size output k in
    (
      rest,
      ground (
        arith,
        length-append val (0 ∷ []),
        e,
        copy_loop-forward m.size 0 [] [] output (val ++ 0 ∷ []) refl refl (omega arith)
            (omega arith),
        take-append (val ++ 0 ∷ []) [],
        append-nil (val ++ 0 ∷ []),
        store-append (val ++ 0 ∷ []) rest m.size x 0 (omega arith),
      ),
    )

read_back :
    (p : Printf) (sys : Endianness) (m : MeasurementInfo) (val rest : List ℕ)
    → m.type ≡ string_type
    → m.size ≡ length (val ++ 0 ∷ [])
    → m.size ≤ 255
    → All (λ c. c ≢ 0) val
    → convert_to_string p sys m ((val ++ 0 ∷ []) ++ rest) ≡ ok val
unfolding convert_to_string
read_back p sys m val rest t z l h = ground (
  arith,
  copy_loop-forward m.size 0 [] [] (replicate m.size 0) ((val ++ 0 ∷ []) ++ rest) refl refl
      (omega (arith, length-replicate {A = ℕ} m.size 0))
      (omega (arith, length-append (val ++ 0 ∷ []) rest)),
  take-append (val ++ 0 ∷ []) rest,
  append_assoc val (0 ∷ []) (drop m.size (replicate m.size 0)),
  append_assoc val (0 ∷ drop m.size (replicate m.size 0)) (0 ∷ []),
  c_str-append val (drop m.size (replicate m.size 0) ++ 0 ∷ []) h,
)

-- A text with no NUL in it reads back as it was written if it fills the measurement up to its
-- terminator, the measurement is of at most 255 bytes, and the memory holds one byte more than the
-- measurement.
pub convert_to_string-convert_from_string :
    (p : Printf) (sys : Endianness) (m : MeasurementInfo) (output val : List ℕ)
    → m.type ≡ string_type
    → m.size ≡ length val + 1
    → m.size ≤ 255
    → m.size < length output
    → All (λ c. c ≢ 0) val
    → (convert_from_string m output val >>= convert_to_string p sys m) ≡ ok val
convert_to_string-convert_from_string p sys m output val t z l k h =
    let fits : m.size ≡ length (val ++ 0 ∷ []) = omega (arith, length-append val (0 ∷ [])) in
    let (rest, e) = written m output val fits k in
    rw e (read_back p sys m val (0 ∷ rest) t fits l h)
