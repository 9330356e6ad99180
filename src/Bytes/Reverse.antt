-- ===== src/Bytes/Reverse.antt =====
-- Bytes in reverse order, which is the other byte order.
use mathlib.Core.List.{reverse, reverse-cons}
use gsw.Prelude.{
  ℕ, zero, suc, ◌+◌, ◌-◌, ◌*◌, ◌≤◌, ◌<◌, ◌≡◌, refl, sym, ◌∙◌, List, [], ◌∷◌, ◌++◌, length,
  length-append, get_or, take, drop, arith, inl, inr, Bool-cases, ltb,
}
use gsw.Bytes.{le_value, be_value, be_value_from}

get_or-snoc_left :
    (xs : List ℕ) (x k : ℕ) → k < length xs → get_or (xs ++ x ∷ []) k 0 ≡ get_or xs k 0
get_or-snoc_left [] x k h = absurd (omega arith)
get_or-snoc_left (y ∷ xs) x zero h = refl
get_or-snoc_left (y ∷ xs) x (suc k) h = get_or-snoc_left xs x k (omega arith)

get_or-snoc_last : (xs : List ℕ) (x k : ℕ) → k ≡ length xs → get_or (xs ++ x ∷ []) k 0 ≡ x
get_or-snoc_last [] x zero h = refl
get_or-snoc_last [] x (suc k) h = absurd (omega arith)
get_or-snoc_last (y ∷ xs) x zero h = absurd (omega arith)
get_or-snoc_last (y ∷ xs) x (suc k) h = get_or-snoc_last xs x k (omega arith)

pub length-reverse : (xs : List ℕ) → length (reverse xs) ≡ length xs
length-reverse [] = refl
length-reverse (x ∷ xs) =
    rw (reverse-cons x xs) (omega (arith, length-append (reverse xs) (x ∷ []), length-reverse xs))

get_or-cons_back :
    (x : ℕ) (xs : List ℕ) (n k : ℕ)
    → k < n
    → n ≡ length xs
    → get_or (x ∷ xs) (suc n - k - 1) 0 ≡ get_or xs (n - k - 1) 0
get_or-cons_back x xs n k h e =
    let one_on : suc n - k - 1 ≡ suc (n - k - 1) = omega arith in rw one_on refl

-- The k-th byte from the end.
pub get_or-reverse :
    (xs : List ℕ) (k : ℕ)
    → k < length xs
    → get_or (reverse xs) k 0 ≡ get_or xs (length xs - k - 1) 0
get_or-reverse [] k h = absurd (omega arith)
get_or-reverse (x ∷ xs) k h = elim (Bool-cases (ltb k (length xs))) [
  | inl low ↦ rw (reverse-cons x xs) (
      get_or-snoc_left (reverse xs) x k (ground (arith, length-reverse xs))
      ∙ get_or-reverse xs k (ground arith)
      ∙ sym (get_or-cons_back x xs (length xs) k (ground arith) refl))
  | inr top ↦
      let first : length (x ∷ xs) - k - 1 ≡ 0 = ground arith in
      rw (reverse-cons x xs, first)
        (get_or-snoc_last (reverse xs) x k (ground (arith, length-reverse xs)))
]

be_value_from-snoc :
    (acc : ℕ) (xs : List ℕ) (x : ℕ)
    → be_value_from acc (xs ++ x ∷ []) ≡ be_value_from acc xs * 256 + x
be_value_from-snoc acc [] x = refl
be_value_from-snoc acc (y ∷ xs) x = be_value_from-snoc (acc * 256 + y) xs x

-- Most significant byte first, the reversed bytes are the number of the bytes least significant
-- first.
pub be_value-reverse : (xs : List ℕ) → be_value (reverse xs) ≡ le_value xs
be_value-reverse [] = refl
be_value-reverse (x ∷ xs) =
    rw (reverse-cons x xs, be_value_from-snoc 0 (reverse xs) x, be_value-reverse xs) (omega arith)

-- Bytes in memory that are those of a list, one by one.
pub take-drop-eq :
    (n off : ℕ) (xs ys : List ℕ)
    → length ys ≡ n
    → off + n ≤ length xs
    → ((k : ℕ) → k < n → get_or xs (off + k) 0 ≡ get_or ys k 0)
    → take n (drop off xs) ≡ ys
take-drop-eq zero zero xs [] l h f = refl
take-drop-eq zero zero [] (y ∷ ys) l h f = absurd (omega arith)
take-drop-eq zero zero (x ∷ xs) (y ∷ ys) l h f = absurd (omega arith)
take-drop-eq (suc n) zero xs [] l h f = absurd (omega arith)
take-drop-eq (suc n) zero [] (y ∷ ys) l h f = absurd (omega arith)
take-drop-eq (suc n) zero (x ∷ xs) (y ∷ ys) l h f =
    let same : x ≡ y = f 0 (omega arith) in
    let rest : take n xs ≡ ys = take-drop-eq n 0 xs ys (omega arith) (omega arith) (λ k g.
      let e : 0 + suc k ≡ suc (0 + k) = omega arith in
      let f' : get_or (x ∷ xs) (0 + suc k) 0 ≡ get_or ys k 0 = f (suc k) (omega arith) in
      rw e at f') in
    rw (same, rest) refl
take-drop-eq n (suc off) [] ys l h f = absurd (omega arith)
take-drop-eq n (suc off) (x ∷ xs) ys l h f = take-drop-eq n off xs ys l (omega arith) (λ k g.
    let e : suc off + k ≡ suc (off + k) = omega arith in
    let f' : get_or (x ∷ xs) (suc off + k) 0 ≡ get_or ys k 0 = f k g in rw e at f')
