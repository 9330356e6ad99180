-- ===== src/Trigger/Parse/Laws.antt =====
-- What every trigger file that the parser accepts gives.
use mathlib.Core.Bool.{not}
use gsw.Prelude.{
  ℕ, suc, ◌+◌, ◌≡◌, refl, subst, true, ◌||◌, inl, inr, some, List, [], ◌∷◌, ◌++◌, ok, failure,
  guard, >>=-eq-ok, All, ltb, length, length-append, or_fail, Bool-cases, same_list, nat_eq,
  if◌then◌else◌, arith,
}
use gsw.Text.{Text, reads_as, token}
use gsw.Vcm.Config.{Vcm, get_info}
use gsw.Trigger.Parse.{
  TriggerFunc, copy, sum_uint, max31855k_thermocouple, TriggerMap, trigger_func_list, Trigger,
  find_func, find_args, arg_tokens, is_blank, trigger_line, parse_loop, parse_trigger_file,
}

-- The number of arguments that a function is given.
abbrev pub arity : TriggerFunc → ℕ
arity copy = 2
arity sum_uint = 3
arity max31855k_thermocouple = 5
arity _ = 2

find_func-All {ℓ} :
    (P : TriggerMap → Type ℓ) (name : Text) (ts : List TriggerMap) (e : TriggerMap)
    → All P ts
    → find_func name ts ≡ some e
    → P e
unfolding find_func
find_func-All P name [] e a h = cc
find_func-All P name (t ∷ ts) e a h = elim (Bool-cases (same_list t.name name)) [
  | inl hit ↦
      let found : (if true then some t else find_func name ts) ≡ some e = rw hit at h in
      let same : t ≡ e = cc found in subst P same a.0
  | inr miss ↦ find_func-All P name ts e a.1 (rw miss at h)
]

table_arity : All (λ (e : TriggerMap). e.min_args ≡ arity e.func) trigger_func_list
unfolding trigger_func_list
table_arity = omega arith

-- Triggers numbered from `k`, each with as many arguments as its function is given.
abbrev pub Numbered : ℕ → List Trigger → Type 0
Numbered k [] = Unit
Numbered k (t ∷ ts) = (t.unique_id ≡ k) × (length t.args ≡ arity t.func) × Numbered (suc k) ts

Numbered-append :
    (k : ℕ) (ts : List Trigger) (t : Trigger)
    → Numbered k ts
    → t.unique_id ≡ k + length ts
    → length t.args ≡ arity t.func
    → Numbered k (ts ++ t ∷ [])
Numbered-append k [] t n u a = (omega arith, a, tt)
Numbered-append k (x ∷ ts) t n u a = (n.0, n.1, Numbered-append (suc k) ts t n.2 (omega arith) a)

trigger_line-fits :
    (v : Vcm) (k : ℕ) (line : Text) (t : Trigger)
    → trigger_line v k line ≡ ok t
    → (t.unique_id ≡ k) × (length t.args ≡ arity t.func)
unfolding trigger_line
trigger_line-fits v k line t h =
    let (_, _, h₁) =
      >>=-eq-ok (guard (not (reads_as (token line 0) "" || reads_as (token line 1) "")) failure) _
        h in
    let (meas, _, h₂) = >>=-eq-ok (or_fail (get_info v (token line 0))) _ h₁ in
    let (e, found, h₃) = >>=-eq-ok (or_fail (find_func (token line 1) trigger_func_list)) _ h₂ in
    let (args, _, h₄) = >>=-eq-ok (find_args v (arg_tokens line)) _ h₃ in
    let (_, lo, h₅) = >>=-eq-ok (guard (not (ltb (length args) e.min_args)) failure) _ h₄ in
    let (_, hi, h₆) = >>=-eq-ok (guard (not (ltb e.min_args (length args))) failure) _ h₅ in
    let listed : e.min_args ≡ arity e.func =
      find_func-All (λ (e : TriggerMap). e.min_args ≡ arity e.func) (token line 1) trigger_func_list
        e table_arity (ground (arith, found)) in
    (ground (arith, h₆), ground (arith, h₆, listed, lo, hi))

parse_loop-Numbered :
    (v : Vcm) (k : ℕ) (lines : List Text) (acc ts : List Trigger)
    → parse_loop v k lines acc ≡ ok ts
    → length acc ≡ k
    → Numbered 0 acc
    → Numbered 0 ts
unfolding parse_loop
parse_loop-Numbered v k [] acc ts h l n = let same : acc ≡ ts = cc in subst (Numbered 0) same n
parse_loop-Numbered v k (line ∷ lines) acc ts h l n = elim (Bool-cases (is_blank line)) [
  | inl e ↦ parse_loop-Numbered v k lines acc ts (rw (e, parse_loop) at h) l n
  | inr e ↦
      let (t, et, h₁) = >>=-eq-ok (trigger_line v k line) _ (rw (e, parse_loop) at h) in
      let (u, a) = trigger_line-fits v k line t et in
      parse_loop-Numbered v (k + 1) lines (acc ++ t ∷ []) ts h₁
        (omega (arith, length-append acc (t ∷ []))) (Numbered-append 0 acc t n (omega arith) a)
]

-- The triggers of a file that is accepted, parsed onto an empty list, are numbered in order from
-- 0, and each has exactly the number of arguments that the table names as the least for its
-- function.
pub parse_trigger_file-Numbered :
    (v : Vcm) (lines : List Text) (ts : List Trigger)
    → parse_trigger_file v lines [] ≡ ok ts
    → Numbered 0 ts
unfolding parse_trigger_file
parse_trigger_file-Numbered v lines ts h = parse_loop-Numbered v 0 lines [] ts h refl tt
