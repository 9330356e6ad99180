-- ===== src/Bytes/Copy.antt =====
-- What a copying loop leaves in memory, and when it faults.
use mathlib.Core.List.{append_assoc}
use gsw.Prelude.{
  ℕ, zero, suc, ◌+◌, ◌≤◌, ◌<◌, ◌≡◌, refl, ap, ◌⊎◌, inl, inr, List, [], ◌∷◌, ◌++◌, Exec, ok, err,
  fault, load, store, take, drop, length, length-append, arith,
}
use gsw.Bytes.{copy_loop}

pub load-fault : (src : List ℕ) (i : ℕ) → length src ≤ i → load src i ≡ fault
load-fault [] i h = refl
load-fault (x ∷ src) zero h = absurd (omega arith)
load-fault (x ∷ src) (suc i) h = load-fault src i (omega arith)

pub store-fault : (dst : List ℕ) (i v : ℕ) → length dst ≤ i → store dst i v ≡ fault
store-fault [] i v h = refl
store-fault (x ∷ dst) zero v h = absurd (omega arith)
store-fault (x ∷ dst) (suc i) v h = rw (store-fault dst i v (omega arith))

-- An access faults or succeeds; it returns no error code, and a write keeps the length.
abbrev pub Keeps : ℕ → Exec (List ℕ) → Type 0
Keeps n (ok xs) = length xs ≡ n
Keeps n (err e) = ⊥
Keeps n fault = Unit

pub load-cases :
    (src : List ℕ) (i : ℕ)
    → (load src i ≡ fault) ⊎ ((b : ℕ) × (load src i ≡ ok b) × (i < length src))
load-cases [] i = inl refl
load-cases (x ∷ src) zero = inr (x, refl, omega arith)
load-cases (x ∷ src) (suc i) = elim (load-cases src i) [
  | inl e ↦ inl e
  | inr (b, e, h) ↦ inr (b, e, omega arith)
]

pub store-cases :
    (dst : List ℕ) (i v : ℕ)
    → (store dst i v ≡ fault) ⊎ ((d : List ℕ) × (store dst i v ≡ ok d) × (length d ≡ length dst))
store-cases [] i v = inl refl
store-cases (x ∷ dst) zero v = inr (v ∷ dst, refl, refl)
store-cases (x ∷ dst) (suc i) v = elim (store-cases dst i v) [
  | inl e ↦ inl (rw e refl)
  | inr (d, e, h) ↦ inr (x ∷ d, rw e refl, ap suc h)
]

pub copy_loop-Keeps :
    (to from : ℕ → ℕ) (n i : ℕ) (dst src : List ℕ)
    → Keeps (length dst) (copy_loop to from n i dst src)
copy_loop-Keeps to from zero i dst src = refl
copy_loop-Keeps to from (suc n) i dst src = elim (load-cases src (from i)) [
  | inl e ↦ rw e tt
  | inr (b, e, h) ↦ elim (store-cases dst (to i) b) [
    | inl f ↦ rw (e, f) tt
    | inr (d, f, l) ↦ rw (e, f, ← l) (copy_loop-Keeps to from n (i + 1) d src)
  ]
]

-- A loop that reads past the end of its source faults.
pub copy_loop-past :
    (n i : ℕ) (dst src : List ℕ)
    → i ≤ length src
    → length src < i + n
    → copy_loop (λ i. i) (λ i. i) n i dst src ≡ fault
copy_loop-past zero i dst src p h = absurd (omega arith)
copy_loop-past (suc n) i dst src p h = elim (load-cases src i) [
  | inl e ↦ rw e refl
  | inr (b, e, l) ↦ elim (store-cases dst i b) [
    | inl f ↦ rw (e, f) refl
    | inr (d, f, k) ↦ rw (e, f) (copy_loop-past n (i + 1) d src (omega arith) (omega arith))
  ]
]

load-append : (pre src : List ℕ) (b : ℕ) → load (pre ++ b ∷ src) (length pre) ≡ ok b
load-append [] src b = refl
load-append (x ∷ pre) src b = load-append pre src b

store-append :
    (pre dst : List ℕ) (x v : ℕ) → store (pre ++ x ∷ dst) (length pre) v ≡ ok (pre ++ v ∷ dst)
store-append [] dst x v = refl
store-append (y ∷ pre) dst x v = rw (store-append pre dst x v)

-- With room on both sides the first n bytes are replaced and the others stay.
pub copy_loop-forward :
    (n i : ℕ) (pre spre dst src : List ℕ)
    → length pre ≡ i
    → length spre ≡ i
    → n ≤ length dst
    → n ≤ length src
    → copy_loop (λ i. i) (λ i. i) n i (pre ++ dst) (spre ++ src)
      ≡ ok (pre ++ (take n src ++ drop n dst))
copy_loop-forward zero i pre spre dst src p q h k = refl
copy_loop-forward (suc n) i pre spre [] src p q h k = absurd (omega arith)
copy_loop-forward (suc n) i pre spre (x ∷ dst) [] p q h k = absurd (omega arith)
copy_loop-forward (suc n) i pre spre (x ∷ dst) (b ∷ src) p q h k =
    rw
      (
        ← q,
        load-append spre src b,
        q,
        ← p,
        store-append pre dst x b,
        p,
        ← append_assoc pre (b ∷ []) dst,
        ← append_assoc spre (b ∷ []) src,
        copy_loop-forward n (i + 1) (pre ++ b ∷ []) (spre ++ b ∷ []) dst src
            (omega (arith, length-append pre (b ∷ []))) (omega (arith, length-append spre (b ∷ [])))
            (omega arith) (omega arith),
      )
      (ap ok (append_assoc pre (b ∷ []) (take n src ++ drop n dst)))
