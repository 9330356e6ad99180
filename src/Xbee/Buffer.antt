-- ===== src/Xbee/Buffer.antt =====
-- Assignments into a buffer from its start on.
use mathlib.Core.List.{append_assoc, append-nil}
use gsw.Prelude.{
  ℕ, zero, suc, ◌+◌, ◌-◌, ◌%◌, ◌≤◌, ◌<◌, ◌≡◌, refl, sym, ap, List, [], ◌∷◌, ◌++◌, ok, load, store,
  take, length, length-append, arith,
}
use gsw.Bytes.{copy_loop}
use gsw.Xbee.{put, memcpy, check_loop, add_check}

-- The buffer of `size` bytes starts with the bytes `pre`.
pub record Starts (size : ℕ) (pre buff : List ℕ) : Type 0 where
  pub rest : List ℕ
  pub whole : buff ≡ pre ++ rest
  pub total : length pre + length rest ≡ size

pub start-Starts : (size : ℕ) (buff : List ℕ) → length buff ≡ size → Starts size [] buff
start-Starts size buff l = record { rest = buff; whole = refl; total = omega arith }

pub load-append : (pre rest : List ℕ) (b : ℕ) → load (pre ++ b ∷ rest) (length pre) ≡ ok b
load-append [] rest b = refl
load-append (x ∷ pre) rest b = load-append pre rest b

store-append :
    (pre rest : List ℕ) (x v : ℕ) → store (pre ++ x ∷ rest) (length pre) v ≡ ok (pre ++ v ∷ rest)
store-append [] rest x v = refl
store-append (y ∷ pre) rest x v = rw (store-append pre rest x v)

-- One byte behind the start.
store-rest :
    (size : ℕ) (pre rest buff : List ℕ) (i v : ℕ)
    → buff ≡ pre ++ rest
    → length pre + length rest ≡ size
    → i ≡ length pre
    → i < size
    → (buff' : List ℕ) × (store buff i v ≡ ok buff') × Starts size (pre ++ v ∷ []) buff'
store-rest size pre [] buff i v w z e h = absurd (omega arith)
store-rest size pre (x ∷ rest) buff i v w z e h = (
  pre ++ v ∷ rest,
  rw (w, e) (store-append pre rest x v),
  record {
    rest = rest;
    whole = sym (append_assoc pre (v ∷ []) rest);
    total = omega (arith, length-append pre (v ∷ []));
  },
)

store-Starts :
    (size : ℕ) (pre buff : List ℕ) (i v : ℕ)
    → Starts size pre buff
    → i ≡ length pre
    → i < size
    → (buff' : List ℕ) × (store buff i v ≡ ok buff') × Starts size (pre ++ v ∷ []) buff'
store-Starts size pre buff i v s e h = store-rest size pre s.rest buff i v s.whole s.total e h

pub put-Starts :
    (size : ℕ) (pre bs buff : List ℕ) (off : ℕ)
    → Starts size pre buff
    → off ≡ length pre
    → off + length bs ≤ size
    → (buff' : List ℕ) × (put buff off bs ≡ ok buff') × Starts size (pre ++ bs) buff'
unfolding put
put-Starts size pre [] buff off s e h = (buff, refl, rw (append-nil pre) s)
put-Starts size pre (b ∷ bs) buff off s e h =
    let (b₁, f, s₁) = store-Starts size pre buff off b s e (omega arith) in
    let (b₂, g, s₂) =
      put-Starts size (pre ++ b ∷ []) bs b₁ (off + 1) s₁ (omega (arith, length-append pre (b ∷ [])))
        (omega arith) in
    (b₂, rw (f, g) refl, rw (append_assoc pre (b ∷ []) bs) at s₂)

pub memcpy_loop-Starts :
    (size n i off : ℕ) (pre spre src buff : List ℕ)
    → Starts size pre buff
    → off + i ≡ length pre
    → i ≡ length spre
    → n ≤ length src
    → off + i + n ≤ size
    → (buff' : List ℕ) × (copy_loop (λ i. off + i) (λ i. i) n i buff (spre ++ src) ≡ ok buff')
      × Starts size (pre ++ take n src) buff'
memcpy_loop-Starts size zero i off pre spre src buff s e f h r = (buff, refl, rw (append-nil pre) s)
memcpy_loop-Starts size (suc n) i off pre spre [] buff s e f h r = absurd (omega arith)
memcpy_loop-Starts size (suc n) i off pre spre (b ∷ src) buff s e f h r =
    let (b₁, g, s₁) = store-Starts size pre buff (off + i) b s e (omega arith) in
    let (b₂, k, s₂) =
      memcpy_loop-Starts size n (i + 1) off (pre ++ b ∷ []) (spre ++ b ∷ []) src b₁ s₁
        (omega (arith, length-append pre (b ∷ []))) (omega (arith, length-append spre (b ∷ [])))
        (omega arith) (omega arith) in
    let read : load (spre ++ b ∷ src) i ≡ ok b = rw f (load-append spre src b) in
    let k' : copy_loop (λ i. off + i) (λ i. i) n (i + 1) b₁ (spre ++ b ∷ src) ≡ ok b₂ =
      rw (append_assoc spre (b ∷ []) src) at k in
    (b₂, rw (read, g) k', rw (append_assoc pre (b ∷ []) (take n src)) at s₂)

pub memcpy-Starts :
    (size n off : ℕ) (pre src buff : List ℕ)
    → Starts size pre buff
    → off ≡ length pre
    → n ≤ length src
    → off + n ≤ size
    → (buff' : List ℕ) × (memcpy buff off src n ≡ ok buff') × Starts size (pre ++ take n src) buff'
memcpy-Starts size n off pre src buff s e h r =
    memcpy_loop-Starts size n 0 off pre [] src buff s (omega arith) refl h (omega arith)

-- The sum of bytes, as a uint8_t.
abbrev pub sum_from : ℕ → List ℕ → ℕ
sum_from check [] = check
sum_from check (b ∷ bs) = sum_from ((check + b) % 256) bs

check_loop-append :
    (pre mid rest : List ℕ) (n i check : ℕ)
    → i ≡ length pre
    → n ≡ length mid
    → check_loop (pre ++ (mid ++ rest)) n i check ≡ ok (sum_from check mid)
unfolding check_loop
check_loop-append pre [] rest zero i check e h = refl
check_loop-append pre [] rest (suc n) i check e h = absurd (omega arith)
check_loop-append pre (b ∷ mid) rest zero i check e h = absurd (omega arith)
check_loop-append pre (b ∷ mid) rest (suc n) i check e h =
    let read : load (pre ++ (b ∷ (mid ++ rest))) i ≡ ok b =
      rw e (load-append pre (mid ++ rest) b) in
    let later : check_loop ((pre ++ b ∷ []) ++ (mid ++ rest)) n (i + 1) ((check + b) % 256)
        ≡ ok (sum_from ((check + b) % 256) mid) =
      check_loop-append (pre ++ b ∷ []) mid rest n (i + 1) ((check + b) % 256)
        (omega (arith, length-append pre (b ∷ []))) (omega arith) in
    rw read (rw (append_assoc pre (b ∷ []) (mid ++ rest)) at later)

pub take-append_length : (pre rest : List ℕ) (n : ℕ) → n ≡ length pre → take n (pre ++ rest) ≡ pre
take-append_length [] rest zero e = refl
take-append_length [] rest (suc n) e = absurd (omega arith)
take-append_length (x ∷ pre) rest zero e = absurd (omega arith)
take-append_length (x ∷ pre) rest (suc n) e =
    ap (λ (ys : List ℕ). x ∷ ys) (take-append_length pre rest n (omega arith))

-- The first bytes of the buffer.
pub take-Starts :
    (size n : ℕ) (pre buff : List ℕ) → Starts size pre buff → n ≡ length pre → take n buff ≡ pre
take-Starts size n pre buff s e = rw s.whole (take-append_length pre s.rest n e)

-- The checksum of a body of which a header of three bytes stands in front.
pub add_check-Starts :
    (size n : ℕ) (head body buff : List ℕ)
    → Starts size (head ++ body) buff
    → length head ≡ 3
    → n ≡ 3 + length body
    → n < size
    → (buff' : List ℕ) × (add_check buff n ≡ ok buff')
      × Starts size ((head ++ body) ++ (0xFF - sum_from 0 body) ∷ []) buff'
unfolding add_check
add_check-Starts size n head body buff s three e h =
    let count : length (head ++ body) ≡ n = omega (arith, length-append head body) in
    let sum : check_loop buff (n - 3) 3 0 ≡ ok (sum_from 0 body) =
      rw (s.whole, append_assoc head body s.rest)
        (check_loop-append head body s.rest (n - 3) 3 0 (sym three) (omega arith)) in
    let (buff', g, s') =
      store-Starts size (head ++ body) buff n (0xFF - sum_from 0 body) s (sym count) h in
    (buff', rw sum g, s')
