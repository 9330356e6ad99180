-- ===== src/Telemetry/Writer/Copies.antt =====
-- What a copying loop does to the bytes of its target, and to the others.
use mathlib.Core.Logic.{◌≢◌}
use gsw.Prelude.{
  ℕ, zero, suc, ◌+◌, ◌-◌, ◌≤◌, ◌<◌, ◌≡◌, refl, ◌∙◌, sym, ◌⊎◌, inl, inr, List, Exec, ok, length,
  get_or, set, length-set, get_or-set_self, get_or-set_ne, load-eq, store-eq, arith, Bool-cases,
  ◌==◌, ==_iff, if◌then◌else◌,
}
use gsw.Vcm.Types.{MeasurementInfo, Endianness, eq_endianness}
use gsw.Bytes.{copy_loop}
use gsw.Telemetry.Writer.{telemetry_copy, raw_copy}

-- The loop stays in bounds, keeps the length, and changes no byte outside of its target.
copy_loop-Within :
    (to from : ℕ → ℕ) (n i lo size : ℕ) (dst src : List ℕ)
    → ((k : ℕ) → i ≤ k → k < i + n → (lo ≤ to k) × (to k < lo + size) × (from k < length src))
    → lo + size ≤ length dst
    → (d : List ℕ) × (copy_loop to from n i dst src ≡ ok d)
      × (length d ≡ length dst)
      × ((j : ℕ) → (j < lo) ⊎ (lo + size ≤ j) → get_or d j 0 ≡ get_or dst j 0)
copy_loop-Within to from zero i lo size dst src h r = (dst, refl, refl, λ j o. refl)
copy_loop-Within to from (suc n) i lo size dst src h r =
    let (a, b, c) = h i (omega arith) (omega arith) in
    let dst₁ : List ℕ = set dst (to i) (get_or src (from i) 0) in
    let l : length dst₁ ≡ length dst = length-set dst (to i) (get_or src (from i) 0) in
    let (d, e, k, f) =
      copy_loop-Within to from n (i + 1) lo size dst₁ src (λ q p s. h q (omega arith) (omega arith))
        (omega arith) in
    (
      d,
      rw (load-eq src (from i) 0 c, store-eq dst (to i) (get_or src (from i) 0) (omega arith)) e,
      k ∙ l,
      λ j o. f j o ∙ get_or-set_ne dst (to i) j (get_or src (from i) 0) 0 (λ w. omega arith),
    )

-- A byte that no round writes to stays.
copy_loop-untouched :
    (to from : ℕ → ℕ) (n i lo size : ℕ) (dst src : List ℕ)
    → ((k : ℕ) → i ≤ k → k < i + n → (lo ≤ to k) × (to k < lo + size) × (from k < length src))
    → lo + size ≤ length dst
    → (d : List ℕ) → copy_loop to from n i dst src ≡ ok d
    → (j : ℕ) → ((k : ℕ) → i ≤ k → k < i + n → to k ≢ j)
    → get_or d j 0 ≡ get_or dst j 0
copy_loop-untouched to from zero i lo size dst src h r d e j f =
    let same : dst ≡ d = cc in rw same refl
copy_loop-untouched to from (suc n) i lo size dst src h r d e j f =
    let (p, q, c) = h i (omega arith) (omega arith) in
    let dst₁ : List ℕ = set dst (to i) (get_or src (from i) 0) in
    let l : length dst₁ ≡ length dst = length-set dst (to i) (get_or src (from i) 0) in
    let e₁ : copy_loop to from n (i + 1) dst₁ src ≡ ok d =
      rw (load-eq src (from i) 0 c, store-eq dst (to i) (get_or src (from i) 0) (omega arith)) at
        e in
    copy_loop-untouched to from n (i + 1) lo size dst₁ src
      (λ x u v. h x (omega arith) (omega arith)) (omega arith) d e₁ j
      (λ x u v. f x (omega arith) (omega arith))
    ∙ get_or-set_ne dst (to i) j (get_or src (from i) 0) 0 (f i (omega arith) (omega arith))

inj_sym {ℓ} : {A : Type ℓ} {a b : A} → a ≢ b → b ≢ a
inj_sym h e = h (sym e)

-- Each byte of the target is the source's.
copy_loop-contents :
    (to from : ℕ → ℕ) (n i lo size : ℕ) (dst src : List ℕ)
    → ((k : ℕ) → i ≤ k → k < i + n → (lo ≤ to k) × (to k < lo + size) × (from k < length src))
    → ((k l : ℕ) → i ≤ k → k < l → l < i + n → to k ≢ to l)
    → lo + size ≤ length dst
    → (d : List ℕ) → copy_loop to from n i dst src ≡ ok d
    → (k : ℕ) → i ≤ k
    → k < i + n
    → get_or d (to k) 0 ≡ get_or src (from k) 0
copy_loop-contents to from zero i lo size dst src h inj r d e k a b = absurd (omega arith)
copy_loop-contents to from (suc n) i lo size dst src h inj r d e k a b =
    let (p, q, c) = h i (omega arith) (omega arith) in
    let dst₁ : List ℕ = set dst (to i) (get_or src (from i) 0) in
    let l : length dst₁ ≡ length dst = length-set dst (to i) (get_or src (from i) 0) in
    let e₁ : copy_loop to from n (i + 1) dst₁ src ≡ ok d =
      rw (load-eq src (from i) 0 c, store-eq dst (to i) (get_or src (from i) 0) (omega arith)) at
        e in
    elim (Bool-cases (i == k)) [
      | inl same ↦
          let now : i ≡ k = (==_iff _ _).0 same in
          rw (← now) (
            copy_loop-untouched to from n (i + 1) lo size dst₁ src
              (λ x u v. h x (omega arith) (omega arith)) (omega arith) d e₁ (to i)
              (λ x u v. inj_sym (inj i x (omega arith) (omega arith) (omega arith)))
            ∙ get_or-set_self dst (to i) (get_or src (from i) 0) 0 (omega arith))
      | inr later ↦
          copy_loop-contents to from n (i + 1) lo size dst₁ src
            (λ x u v. h x (omega arith) (omega arith))
            (λ x y u v w. inj x y (omega arith) v (omega arith)) (omega arith) d e₁ k (ground arith)
            (omega arith)
    ]

-- A copy of the bytes `val 0`, ..., `val (size - 1)` to an offset.
abbrev pub IsCopy : ℕ → (ℕ → ℕ) → (ℕ → List ℕ → Exec (List ℕ)) → Type 0
IsCopy size val copy_to =
    (lo : ℕ) (dst : List ℕ)
    → lo + size ≤ length dst
    → (d : List ℕ) × (copy_to lo dst ≡ ok d)
      × (length d ≡ length dst)
      × ((j : ℕ) → (j < lo) ⊎ (lo + size ≤ j) → get_or d j 0 ≡ get_or dst j 0)
      × ((k : ℕ) → k < size → get_or d (lo + k) 0 ≡ val k)

-- The byte at position `k` of a measurement in memory.
abbrev pub sent : Endianness → MeasurementInfo → ℕ → List ℕ → ℕ → ℕ
sent sys meas len src k =
    if eq_endianness sys meas.endianness then get_or src k 0 else get_or src (len - k - 1) 0

pub forward-IsCopy :
    (len : ℕ) (src : List ℕ)
    → len ≤ length src
    → IsCopy len (λ k. get_or src k 0) (raw_copy len src)
forward-IsCopy len src h lo dst r =
    let within : (k : ℕ)
        → 0 ≤ k
        → k < 0 + len
        → (lo ≤ lo + k) × (lo + k < lo + len) × (k < length src) =
      λ k a b. (omega arith, omega arith, omega arith) in
    let (d, e, l, f) = copy_loop-Within (λ i. lo + i) (λ i. i) len 0 lo len dst src within r in
    (
      d,
      e,
      l,
      f,
      λ k s.
          copy_loop-contents (λ i. lo + i) (λ i. i) len 0 lo len dst src within
            (λ x y a b c q. omega arith) r d e k (omega arith) (omega arith),
    )

backward-IsCopy :
    (len : ℕ) (src : List ℕ)
    → len ≤ length src
    → IsCopy len
        (λ k. get_or src (len - k - 1) 0)
        (λ lo dst. copy_loop (λ i. lo + (len - i - 1)) (λ i. i) len 0 dst src)
backward-IsCopy len src h lo dst r =
    let within : (k : ℕ)
        → 0 ≤ k
        → k < 0 + len
        → (lo ≤ lo + (len - k - 1)) × (lo + (len - k - 1) < lo + len) × (k < length src) =
      λ k a b. (omega arith, omega arith, omega arith) in
    let (d, e, l, f) =
      copy_loop-Within (λ i. lo + (len - i - 1)) (λ i. i) len 0 lo len dst src within r in
    (
      d,
      e,
      l,
      f,
      λ k s.
          let back : len - (len - k - 1) - 1 ≡ k = omega arith in
          let c : get_or d (lo + (len - (len - k - 1) - 1)) 0 ≡ get_or src (len - k - 1) 0 =
            copy_loop-contents (λ i. lo + (len - i - 1)) (λ i. i) len 0 lo len dst src within
              (λ x y a b c q. omega arith) r d e (len - k - 1) (omega arith) (omega arith) in
          rw back at c,
    )

pub telemetry_copy-IsCopy :
    (sys : Endianness) (meas : MeasurementInfo) (len : ℕ) (src : List ℕ)
    → len ≤ length src
    → IsCopy len (sent sys meas len src) (telemetry_copy sys meas len src)
telemetry_copy-IsCopy sys meas len src h lo dst r =
    elim (Bool-cases (eq_endianness sys meas.endianness)) [
      | inl e ↦ rw e (forward-IsCopy len src h lo dst r)
      | inr e ↦ rw e (backward-IsCopy len src h lo dst r)
    ]
