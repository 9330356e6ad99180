-- ===== src/Prelude/Effects.antt =====
-- Running C++ code: a value, an error code that the code returns, or a fault.
use Prim.Native.Nat.{ℕ, zero, suc}
use mathlib.Core.Option.{Option, none, some}
use mathlib.Core.Bool.{Bool, true, false}
use mathlib.Core.List.{List, [], ◌∷◌}
use mathlib.Core.Path.{◌≡◌, refl, sym, ◌∙◌}

-- `RetType` of include/common/types.h.
pub data RetType : Type 0 where
  success failure blocked interrupted timeout locked nochange filenotfound : RetType

abbrev pub succeeded : RetType → Bool
succeeded success = true
succeeded _ = false

-- `err` is a return with a code that is not SUCCESS. `fault` is undefined behaviour, such as
-- an access outside of the memory that the code was given, or an exception that nobody catches.
pub data Exec {ℓ} (A : Type ℓ) : Type ℓ where
  ok : A → Exec A
  err : RetType → Exec A
  fault : Exec A

infixl 5 ◌>>=◌ ◌>>◌
abbrev pub ◌>>=◌ {ℓ κ} : {B : Type κ} {A : Type ℓ} → Exec A → (A → Exec B) → Exec B
fault >>= next = fault
err code >>= next = err code
ok value >>= next = next value

abbrev pub ◌>>◌ {ℓ} : {B : Type ℓ} → Exec (Unit {0}) → Exec B → Exec B
first >> second = first >>= λ _. second

-- `if(!b) return e;`
abbrev pub guard : Bool → RetType → Exec (Unit {0})
guard false code = err code
guard true code = ok tt

-- A pointer that may be NULL.
abbrev pub or_fail {ℓ} : {A : Type ℓ} → Option A → Exec A
or_fail none = err failure
or_fail (some a) = ok a

module _ {ℓ} {A : Type ℓ} where
  abbrev pub load : List A → ℕ → Exec A
  load [] i = fault
  load (x ∷ xs) zero = ok x
  load (x ∷ xs) (suc i) = load xs i

  abbrev pub store : List A → ℕ → A → Exec (List A)
  store [] i v = fault
  store (x ∷ xs) zero v = ok (v ∷ xs)
  store (x ∷ xs) (suc i) v = store xs i v >>= λ ys. ok (x ∷ ys)

-- Inversion of a bind that succeeds.
pub >>=-eq-ok {ℓ κ} :
    {A : Type ℓ} {B : Type κ} (m : Exec A) (next : A → Exec B) {result : B}
    → (m >>= next) ≡ ok result
    → (value : A) × (m ≡ ok value) × (next value ≡ ok result)
>>=-eq-ok fault next h = cc
>>=-eq-ok (err code) next h = cc
>>=-eq-ok (ok value) next h = (value, refl, h)

pub one_result {ℓ} : {A : Type ℓ} (x : Exec A) (a b : A) → x ≡ ok a → x ≡ ok b → a ≡ b
one_result x a b h k = let same : ok a ≡ ok b = sym h ∙ k in cc
