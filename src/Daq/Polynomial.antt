-- ===== src/Daq/Polynomial.antt =====
-- What the loops over the coefficients in lib/daq/src/sensors.cpp come to, and which decimals the
-- coefficients stand for.
use gsw.Prelude.{
  ℕ, zero, suc, ◌+◌, ◌-◌, ◌*◌, ◌/◌, ◌%◌, ◌^◌, ◌≡◌, refl, ap, ◌∙◌, Bool, true, List, [], ◌∷◌, length,
  get_or, leb, arith,
}
use gsw.Prelude.Int.{pos}
use gsw.Daq.{Floats, poly_loop, dr0, dr1, dr2}

-- A decimal fraction: digits, and how many places the point stands before their end.
pub data Decimal : Type 0 where
  plus minus : ℕ → ℕ → Decimal

-- The positive double of these bits is within half a unit in its last place of `digits / 10 ^ places`.
abbrev pub nearest : ℕ → ℕ → ℕ → Bool
nearest digits places bits =
    let unit : ℕ = 2 ^ (bits / 2 ^ 52) * 10 ^ places in
    let x : ℕ = (2 ^ 52 + bits % 2 ^ 52) * unit in
    let y : ℕ = digits * 2 ^ 1075 in leb (2 * ((x - y) + (y - x))) unit

-- The double for a literal, which for zero is the conversion of the integer 0.
pub data IsDouble (d : Floats) : Decimal → ℕ → Type 0 where
  zero_double : {places : ℕ} → IsDouble d (plus 0 places) (d.of_int (pos 0))
  positive :
      {digits places bits : ℕ}
      → nearest digits places bits ≡ true
      → IsDouble d (plus digits places) bits
  negative :
      {digits places bits : ℕ}
      → nearest digits places bits ≡ true
      → IsDouble d (minus digits places) (d.neg bits)

abbrev pub AreDoubles : Floats → List Decimal → List ℕ → Type 0
AreDoubles d [] [] = Unit
AreDoubles d [] (x ∷ xs) = ⊥
AreDoubles d (q ∷ qs) [] = ⊥
AreDoubles d (q ∷ qs) (x ∷ xs) = IsDouble d q x × AreDoubles d qs xs

-- Below 0 mV.
abbrev pub below : List Decimal
below =
    plus 0 1  -- 0.0E0
    ∷ plus 25173462 6  -- 2.5173462E1
    ∷ minus 11662878 7  -- -1.1662878E0
    ∷ minus 10833638 7  -- -1.0833638E0
    ∷ minus 89773540 8  -- -8.9773540E-1
    ∷ minus 37342377 8  -- -3.7342377E-1
    ∷ minus 86632643 9  -- -8.6632643E-2
    ∷ minus 10450598 9  -- -1.0450598E-2
    ∷ minus 51920577 11  -- -5.1920577E-4
    ∷ []

-- From 0 mV.
abbrev pub middle : List Decimal
middle =
    plus 0 1  -- 0.0E0
    ∷ plus 2508355 5  -- 2.508355E1
    ∷ plus 7860106 8  -- 7.860106E-2
    ∷ minus 2503131 7  -- -2.503131E-1
    ∷ plus 8315270 8  -- 8.315270E-2
    ∷ minus 1228034 8  -- -1.228034E-2
    ∷ plus 9804036 10  -- 9.804036E-4
    ∷ minus 4413030 11  -- -4.413030E-5
    ∷ plus 1057734 12  -- 1.057734E-6
    ∷ minus 1052755 14  -- -1.052755E-8
    ∷ []

-- From 20.664 mV. The powers of ten of the first and the fourth are those of the source.
abbrev pub above : List Decimal
above =
    minus 1318058 8  -- -1.318058E-2
    ∷ plus 4830222 5  -- 4.830222E1
    ∷ minus 1646031 6  -- -1.646031E0
    ∷ plus 5464731 4  -- 5.464731E2
    ∷ minus 9650715 10  -- -9.650715E-4
    ∷ plus 8802193 12  -- 8.802193E-6
    ∷ minus 3110810 14  -- -3.110810E-8
    ∷ []

pub dr0-AreDoubles : (d : Floats) → AreDoubles d below (dr0 d)
dr0-AreDoubles d = (
  zero_double,
  (
    positive refl,
    (
      negative refl,
      (
        negative refl,
        (negative refl, (negative refl, (negative refl, (negative refl, (negative refl, tt))))),
      ),
    ),
  ),
)

pub dr1-AreDoubles : (d : Floats) → AreDoubles d middle (dr1 d)
dr1-AreDoubles d = (
  zero_double,
  (
    positive refl,
    (
      positive refl,
      (
        negative refl,
        (
          positive refl,
          (negative refl, (positive refl, (negative refl, (positive refl, (negative refl, tt))))),
        ),
      ),
    ),
  ),
)

pub dr2-AreDoubles : (d : Floats) → AreDoubles d above (dr2 d)
dr2-AreDoubles d = (
  negative refl,
  (
    positive refl,
    (negative refl, (positive refl, (negative refl, (positive refl, (negative refl, tt))))),
  ),
)

module _ (d : Floats) (v : ℕ) where
  abbrev pub power : ℕ → ℕ
  power zero = d.of_int (pos 1)
  power (suc n) = d.mul (power n) v

  -- The sum of the first terms `c * v ^ k`, from the left.
  abbrev pub series : List ℕ → ℕ → ℕ
  series cs zero = d.of_int (pos 0)
  series cs (suc n) = d.basic.add (series cs n) (d.mul (get_or cs n 0) (power n))

  poly_loop-series_from :
      (cs rest : List ℕ) (n : ℕ)
      → ((k : ℕ) → get_or rest k 0 ≡ get_or cs (n + k) 0)
      → poly_loop d rest v (series cs n) (power n) ≡ series cs (n + length rest)
  unfolding poly_loop
  poly_loop-series_from cs [] n h = ap (series cs) (omega arith)
  poly_loop-series_from cs (c ∷ rest) n h =
      let here : c ≡ get_or cs n 0 = h 0 ∙ ap (λ i. get_or cs i 0) (omega arith) in
      let next : poly_loop d rest v (series cs (suc n)) (power (suc n))
          ≡ series cs (suc n + length rest) =
        poly_loop-series_from cs rest (suc n)
          (λ k. h (suc k) ∙ ap (λ i. get_or cs i 0) (omega arith)) in
      ap
        (λ c.
          poly_loop d rest v (d.basic.add (series cs n) (d.mul c (power n))) (d.mul (power n) v))
        here
      ∙ (next ∙ ap (series cs) (omega arith))

  -- A loop from 0 and 1 comes to the sum of all the terms.
  pub poly_loop-series :
      (cs : List ℕ) → poly_loop d cs v (d.of_int (pos 0)) (d.of_int (pos 1)) ≡ series cs (length cs)
  poly_loop-series cs =
      poly_loop-series_from cs cs 0 (λ k. ap (λ i. get_or cs i 0) (omega arith))
      ∙ ap (series cs) (omega arith)
