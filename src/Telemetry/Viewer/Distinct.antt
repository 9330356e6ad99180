-- ===== src/Telemetry/Viewer/Distinct.antt =====
-- Lists of different numbers, and how long they can be.
use gsw.Prelude.{
  ℕ, zero, suc, ◌≤◌, ◌<◌, ◌≡◌, refl, inl, inr, false, List, [], ◌∷◌, ◌++◌, length, mem, ◌==◌, ◌||◌,
  if◌then◌else◌, All, arith, Bool-cases,
}

-- No number stands twice in the list.
abbrev pub IsNodup : List ℕ → Type 0
IsNodup [] = Unit
IsNodup (x ∷ xs) = (mem x xs ≡ false) × IsNodup xs

-- The list without the number `x`.
without : ℕ → List ℕ → List ℕ
without x [] = []
without x (y ∷ ys) = if y == x then without x ys else y ∷ without x ys

mem-without : (x j : ℕ) (ys : List ℕ) → mem j ys ≡ false → mem j (without x ys) ≡ false
unfolding without
mem-without x j [] h = refl
mem-without x j (y ∷ ys) h = ground (arith, mem-without x j ys)

without-IsNodup : (x : ℕ) (ys : List ℕ) → IsNodup ys → IsNodup (without x ys)
unfolding without
without-IsNodup x [] h = tt
without-IsNodup x (y ∷ ys) h = elim (Bool-cases (y == x)) [
  | inl e ↦ rw e (without-IsNodup x ys h.1)
  | inr e ↦ rw e (mem-without x y ys h.0, without-IsNodup x ys h.1)
]

without-absent : (x : ℕ) (ys : List ℕ) → mem x ys ≡ false → length ys ≤ length (without x ys)
unfolding without
without-absent x [] h = omega arith
without-absent x (y ∷ ys) h = ground (arith, without-absent x ys)

length-without : (x : ℕ) (ys : List ℕ) → IsNodup ys → length ys ≤ suc (length (without x ys))
unfolding without
length-without x [] h = omega arith
length-without x (y ∷ ys) h = ground (arith, length-without x ys, without-absent x ys)

All-without : (n : ℕ) (ys : List ℕ) → All (λ y. y < suc n) ys → All (λ y. y < n) (without n ys)
unfolding without
All-without n [] h = tt
All-without n (y ∷ ys) h = elim (Bool-cases (y == n)) [
  | inl e ↦ rw e (All-without n ys h.1)
  | inr e ↦ rw e (ground arith, All-without n ys h.1)
]

-- There are at most `n` different numbers below `n`.
pub pigeonhole : (n : ℕ) (ys : List ℕ) → IsNodup ys → All (λ y. y < n) ys → length ys ≤ n
pigeonhole zero [] d h = omega arith
pigeonhole zero (y ∷ ys) d h = absurd (omega arith)
pigeonhole (suc n) ys d h = omega (
  arith,
  length-without n ys d,
  pigeonhole n (without n ys) (without-IsNodup n ys d) (All-without n ys h),
)

pub mem-snoc : (j x : ℕ) (xs : List ℕ) → mem j (xs ++ x ∷ []) ≡ (mem j xs || (x == j))
mem-snoc j x [] = ground arith
mem-snoc j x (y ∷ ys) = ground (arith, mem-snoc j x ys)

pub IsNodup-snoc : (x : ℕ) (xs : List ℕ) → IsNodup xs → mem x xs ≡ false → IsNodup (xs ++ x ∷ [])
IsNodup-snoc x [] d h = (refl, tt)
IsNodup-snoc x (y ∷ ys) d h =
    (ground (arith, mem-snoc y x ys), IsNodup-snoc x ys d.1 (ground arith))

pub All-snoc {ℓ κ} :
    {A : Type ℓ} (P : A → Type κ) (x : A) (xs : List A) → All P xs → P x → All P (xs ++ x ∷ [])
All-snoc P x [] h p = (p, tt)
All-snoc P x (y ∷ ys) h p = (h.0, All-snoc P x ys h.1 p)
