-- ===== src/Telemetry/Shm/Locking/Counts.antt =====
-- Processes as a family, and how many of the first `n` stand where.
use mathlib.Core.Logic.{ite}
use gsw.Prelude.{ℕ, zero, suc, ◌+◌, ◌≤◌, ◌<◌, ◌≡◌, ◌≢◌, refl, ℕ_discrete, dec_lt, arith}

module _ {ℓ} {A : Type ℓ} where
  -- The family with another element at `i`.
  abbrev pub change : (ℕ → A) → ℕ → A → ℕ → A
  change f i a j = ite (ℕ_discrete i j) a (f j)

module _ {ℓ} {A : Type ℓ} (w : A → ℕ) where
  -- The sum of a weight over the first `n`.
  pub tally : ℕ → (ℕ → A) → ℕ
  tally zero f = 0
  tally (suc n) f = tally n f + w (f n)

  tally-change_of_le :
      (n : ℕ) (f : ℕ → A) (i : ℕ) (a : A) → n ≤ i → tally n (change f i a) ≡ tally n f
  unfolding tally
  tally-change_of_le zero f i a h = refl
  tally-change_of_le (suc n) f i a h = ground (arith, tally-change_of_le n f i a)

  pub tally-change :
      (n : ℕ) (f : ℕ → A) (i : ℕ) (a : A)
      → i < n
      → tally n (change f i a) + w (f i) ≡ tally n f + w a
  unfolding tally
  tally-change zero f i a h = absurd (omega arith)
  tally-change (suc n) f i a h = elim (dec_lt i n) [
    | yes below ↦ ground (arith, tally-change n f i a below)
    | no last ↦ ground (arith, tally-change_of_le n f i a)
  ]

  pub le-tally : (n : ℕ) (f : ℕ → A) (i : ℕ) → i < n → w (f i) ≤ tally n f
  unfolding tally
  le-tally zero f i h = absurd (omega arith)
  le-tally (suc n) f i h = elim (dec_lt i n) [
    | yes below ↦ omega (arith, le-tally n f i below)
    | no last ↦ let e : i ≡ n = omega arith in rw e (omega arith)
  ]

  -- Two different processes.
  pub le-tally-two :
      (n : ℕ) (f : ℕ → A) (i j : ℕ) → i < n → j < n → i ≢ j → w (f i) + w (f j) ≤ tally n f
  unfolding tally
  le-tally-two zero f i j h k d = absurd (omega arith)
  le-tally-two (suc n) f i j h k d = elim (dec_lt i n) [
    | yes bi ↦ elim (dec_lt j n) [
      | yes bj ↦ omega (arith, le-tally-two n f i j bi bj d)
      | no lj ↦ let e : j ≡ n = omega arith in rw e (omega (arith, le-tally n f i bi))
    ]
    | no li ↦ let e : i ≡ n = omega arith in rw e (omega (arith, le-tally n f j (omega arith)))
  ]

  pub tally-le : ((a : A) → w a ≤ 1) → (n : ℕ) (f : ℕ → A) → tally n f ≤ n
  unfolding tally
  tally-le small zero f = omega arith
  tally-le small (suc n) f = omega (arith, small (f n), tally-le small n f)

  pub tally-eq-zero : (n : ℕ) (f : ℕ → A) → ((i : ℕ) → w (f i) ≡ 0) → tally n f ≡ 0
  unfolding tally
  tally-eq-zero zero f h = refl
  tally-eq-zero (suc n) f h = omega (arith, h n, tally-eq-zero n f h)

  -- If the sum is not 0, some element has a weight.
  pub tally-find : (n : ℕ) (f : ℕ → A) → 0 < tally n f → (i : ℕ) × (i < n) × (0 < w (f i))
  unfolding tally
  tally-find zero f h = absurd (omega arith)
  tally-find (suc n) f h = elim (dec_lt 0 (w (f n))) [
    | yes here ↦ (n, omega arith, here)
    | no there ↦ let (i, l, p) = tally-find n f (omega arith) in (i, omega arith, p)
  ]

-- Weights that are related at each element have related sums.
pub tally-balance {ℓ} :
    {A : Type ℓ} (u v w x : A → ℕ)
    → ((a : A) → u a + v a ≡ w a + x a)
    → (n : ℕ) (f : ℕ → A) → tally u n f + tally v n f ≡ tally w n f + tally x n f
unfolding tally
tally-balance u v w x h zero f = refl
tally-balance u v w x h (suc n) f = omega (arith, h (f n), tally-balance u v w x h n f)

pub tally-sum-le {ℓ} :
    {A : Type ℓ} (u v w : A → ℕ)
    → ((a : A) → u a + v a ≤ w a)
    → (n : ℕ) (f : ℕ → A) → tally u n f + tally v n f ≤ tally w n f
unfolding tally
tally-sum-le u v w h zero f = omega arith
tally-sum-le u v w h (suc n) f = omega (arith, h (f n), tally-sum-le u v w h n f)
