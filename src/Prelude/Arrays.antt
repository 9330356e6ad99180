-- ===== src/Prelude/Arrays.antt =====
-- Arrays as lists: reads and writes that are in bounds.
use Prim.Native.Nat.{ℕ, zero, suc, ◌+◌, ◌≤◌, ◌<◌}
use mathlib.Core.Path.{◌≡◌, refl, ap}
use mathlib.Core.Logic.{◌≢◌, ◌⊎◌, inl, inr}
use mathlib.Core.Option.{some}
use mathlib.Core.List.{List, [], ◌∷◌, ◌++◌}
use mathlib.Core.Bool.{Bool, true, false, ◌||◌}
use native.Mathlib.Omega.{arith}
use gsw.Prelude.Effects.{ok, load, store}
use gsw.Prelude.Lists.{All, length, get_or, set, replicate, get_elem?}
use gsw.Prelude.Tests.{◌==◌, ==_iff, Bool-cases}

module _ {ℓ} {A : Type ℓ} where
  pub load-eq : (xs : List A) (i : ℕ) (d : A) → i < length xs → load xs i ≡ ok (get_or xs i d)
  load-eq [] i d h = absurd (omega arith)
  load-eq (x ∷ xs) zero d h = refl
  load-eq (x ∷ xs) (suc i) d h = load-eq xs i d (omega arith)

  pub store-eq : (xs : List A) (i : ℕ) (v : A) → i < length xs → store xs i v ≡ ok (set xs i v)
  store-eq [] i v h = absurd (omega arith)
  store-eq (x ∷ xs) zero v h = refl
  store-eq (x ∷ xs) (suc i) v h = rw (store-eq xs i v (omega arith))

  pub get_or-set_self :
      (xs : List A) (i : ℕ) (v d : A) → i < length xs → get_or (set xs i v) i d ≡ v
  get_or-set_self [] i v d h = absurd (omega arith)
  get_or-set_self (x ∷ xs) zero v d h = refl
  get_or-set_self (x ∷ xs) (suc i) v d h = get_or-set_self xs i v d (omega arith)

  pub get_or-set_ne :
      (xs : List A) (i j : ℕ) (v d : A) → i ≢ j → get_or (set xs i v) j d ≡ get_or xs j d
  get_or-set_ne [] i j v d h = refl
  get_or-set_ne (x ∷ xs) zero zero v d h = absurd (h refl)
  get_or-set_ne (x ∷ xs) zero (suc j) v d h = refl
  get_or-set_ne (x ∷ xs) (suc i) zero v d h = refl
  get_or-set_ne (x ∷ xs) (suc i) (suc j) v d h = get_or-set_ne xs i j v d (λ e. h (ap suc e))

-- Whether a number stands in a list.
abbrev pub mem : ℕ → List ℕ → Bool
mem j [] = false
mem j (x ∷ xs) = (x == j) || mem j xs

pub get_or-replicate {ℓ} : {A : Type ℓ} (n : ℕ) (a : A) (j : ℕ) → get_or (replicate n a) j a ≡ a
get_or-replicate zero a j = refl
get_or-replicate (suc n) a zero = refl
get_or-replicate (suc n) a (suc j) = get_or-replicate n a j

module _ {ℓ} {A : Type ℓ} where
  pub get_elem?-append :
      (xs ys : List A) (i : ℕ) (a : A) → get_elem? xs i ≡ some a → get_elem? (xs ++ ys) i ≡ some a
  get_elem?-append [] ys i a h = cc
  get_elem?-append (x ∷ xs) ys zero a h = h
  get_elem?-append (x ∷ xs) ys (suc i) a h = get_elem?-append xs ys i a h

  -- An element of a list with one more at its end is an old one or that one.
  pub get_elem?-snoc :
      (xs : List A) (y : A) (i : ℕ) (a : A)
      → get_elem? (xs ++ y ∷ []) i ≡ some a
      → (get_elem? xs i ≡ some a) ⊎ ((i ≡ length xs) × (a ≡ y))
  get_elem?-snoc [] y zero a h = ground arith
  get_elem?-snoc [] y (suc i) a h = cc
  get_elem?-snoc (x ∷ xs) y zero a h = inl h
  get_elem?-snoc (x ∷ xs) y (suc i) a h = ground (arith, get_elem?-snoc xs y i a h)

  pub get_elem?-length : (xs : List A) (y : A) → get_elem? (xs ++ y ∷ []) (length xs) ≡ some y
  get_elem?-length [] y = refl
  get_elem?-length (x ∷ xs) y = get_elem?-length xs y

  pub get_elem?-lt : (xs : List A) (i : ℕ) (a : A) → get_elem? xs i ≡ some a → i < length xs
  get_elem?-lt [] i a h = cc
  get_elem?-lt (x ∷ xs) zero a h = omega arith
  get_elem?-lt (x ∷ xs) (suc i) a h = omega (arith, get_elem?-lt xs i a h)

  pub load-get_elem? : (xs : List A) (i : ℕ) (a : A) → get_elem? xs i ≡ some a → load xs i ≡ ok a
  load-get_elem? [] i a h = cc
  load-get_elem? (x ∷ xs) zero a h = cc
  load-get_elem? (x ∷ xs) (suc i) a h = load-get_elem? xs i a h

  pub get_elem?-some : (xs : List A) (i : ℕ) → i < length xs → (a : A) × (get_elem? xs i ≡ some a)
  get_elem?-some [] i h = absurd (omega arith)
  get_elem?-some (x ∷ xs) zero h = (x, refl)
  get_elem?-some (x ∷ xs) (suc i) h = get_elem?-some xs i (omega arith)

-- The numbers from `id` on.
abbrev pub range : ℕ → ℕ → List ℕ
range zero id = []
range (suc n) id = id ∷ range n (id + 1)

pub mem-range : (n id j : ℕ) → id ≤ j → j < id + n → mem j (range n id) ≡ true
mem-range zero id j a b = absurd (omega arith)
mem-range (suc n) id j a b = elim (Bool-cases (id == j)) [
  | inl e ↦ ground arith
  | inr e ↦ ground (arith, mem-range n (id + 1) j (ground arith) (omega arith))
]

pub mem-All : (P : ℕ → Type 0) (j : ℕ) (xs : List ℕ) → All P xs → mem j xs ≡ true → P j
mem-All P j [] h m = cc
mem-All P j (x ∷ xs) h m = elim (Bool-cases (x == j)) [
  | inl e ↦ let same : x ≡ j = (==_iff _ _).0 e in rw (← same) h.0
  | inr e ↦ mem-All P j xs h.1 (ground arith)
]
