-- ===== src/Ec/Laws.antt =====
-- The words of a state as the writer has them.
use gsw.Prelude.{
  ℕ, ◌+◌, ◌≢◌, ◌++◌, Bool-cases, inl, inr, ◌==◌, ◌≡◌, refl, List, [], ◌∷◌, length, arith,
}
use gsw.Text.{Text, text_eq}
use gsw.Ec.{
  StateFunc, solenoid_state_to_str, igniter_state_to_str, mode_state_to_str, safe_state_to_str,
  text_by,
}

-- The word for a state, letter by letter, and ERROR for a number that is no state.
pub data Says : StateFunc → ℕ → List ℕ → Type 0 where
  closed :
      {s : ℕ} → s ≡ 0 → Says solenoid_state_to_str s (b'C' ∷ b'L' ∷ b'O' ∷ b'S' ∷ b'E' ∷ b'D' ∷ [])
  opened : {s : ℕ} → s ≡ 1 → Says solenoid_state_to_str s (b'O' ∷ b'P' ∷ b'E' ∷ b'N' ∷ [])
  no_solenoid_state :
      {s : ℕ} → s ≢ 0 → s ≢ 1 → Says solenoid_state_to_str s (b'E' ∷ b'R' ∷ b'R' ∷ b'O' ∷ b'R' ∷ [])
  off : {s : ℕ} → s ≡ 0 → Says igniter_state_to_str s (b'O' ∷ b'F' ∷ b'F' ∷ [])
  spark : {s : ℕ} → s ≡ 1 → Says igniter_state_to_str s (b'S' ∷ b'P' ∷ b'A' ∷ b'R' ∷ b'K' ∷ [])
  no_igniter_state :
      {s : ℕ} → s ≢ 0 → s ≢ 1 → Says igniter_state_to_str s (b'E' ∷ b'R' ∷ b'R' ∷ b'O' ∷ b'R' ∷ [])
  disabled :
      {s : ℕ}
      → s ≡ 0
      → Says mode_state_to_str s (b'D' ∷ b'I' ∷ b'S' ∷ b'A' ∷ b'B' ∷ b'L' ∷ b'E' ∷ b'D' ∷ [])
  cold : {s : ℕ} → s ≡ 1 → Says mode_state_to_str s (b'C' ∷ b'O' ∷ b'L' ∷ b'D' ∷ [])
  test : {s : ℕ} → s ≡ 69 → Says mode_state_to_str s (b'T' ∷ b'E' ∷ b'S' ∷ b'T' ∷ [])
  hot : {s : ℕ} → s ≡ 99 → Says mode_state_to_str s (b'H' ∷ b'O' ∷ b'T' ∷ [])
  no_mode_state :
      {s : ℕ}
      → s ≢ 0
      → s ≢ 1
      → s ≢ 69
      → s ≢ 99
      → Says mode_state_to_str s (b'E' ∷ b'R' ∷ b'R' ∷ b'O' ∷ b'R' ∷ [])
  idle : {s : ℕ} → s ≡ 0 → Says safe_state_to_str s (b'I' ∷ b'D' ∷ b'L' ∷ b'E' ∷ [])
  safing : {s : ℕ} → s ≡ 1 → Says safe_state_to_str s (b'S' ∷ b'A' ∷ b'F' ∷ b'I' ∷ b'N' ∷ b'G' ∷ [])
  no_safe_state :
      {s : ℕ} → s ≢ 0 → s ≢ 1 → Says safe_state_to_str s (b'E' ∷ b'R' ∷ b'R' ∷ b'O' ∷ b'R' ∷ [])

-- The switch of a function has the word of the state, its NUL and its length with it.
abbrev Named : StateFunc → ℕ → Type 0
Named f state =
    (word : List ℕ) × Says f state word × (text_by f state ≡ (word ++ 0 ∷ [], length word + 1))

solenoid-Named : (state : ℕ) → Named solenoid_state_to_str state
solenoid-Named state = elim (Bool-cases (state == 0)) [
  | inl e0 ↦ (_, closed (ground arith), rw e0 refl)
  | inr e0 ↦ elim (Bool-cases (state == 1)) [
    | inl e1 ↦ (_, opened (ground arith), rw (e0, e1) refl)
    | inr e1 ↦ (_, no_solenoid_state (ground arith) (ground arith), rw (e0, e1) refl)
  ]
]

igniter-Named : (state : ℕ) → Named igniter_state_to_str state
igniter-Named state = elim (Bool-cases (state == 0)) [
  | inl e0 ↦ (_, off (ground arith), rw e0 refl)
  | inr e0 ↦ elim (Bool-cases (state == 1)) [
    | inl e1 ↦ (_, spark (ground arith), rw (e0, e1) refl)
    | inr e1 ↦ (_, no_igniter_state (ground arith) (ground arith), rw (e0, e1) refl)
  ]
]

mode-Named : (state : ℕ) → Named mode_state_to_str state
mode-Named state = elim (Bool-cases (state == 0)) [
  | inl e0 ↦ (_, disabled (ground arith), rw e0 refl)
  | inr e0 ↦ elim (Bool-cases (state == 1)) [
    | inl e1 ↦ (_, cold (ground arith), rw (e0, e1) refl)
    | inr e1 ↦ elim (Bool-cases (state == 69)) [
      | inl e2 ↦ (_, test (ground arith), rw (e0, e1, e2) refl)
      | inr e2 ↦ elim (Bool-cases (state == 99)) [
        | inl e3 ↦ (_, hot (ground arith), rw (e0, e1, e2, e3) refl)
        | inr e3 ↦ (
          _,
          no_mode_state (ground arith) (ground arith) (ground arith) (ground arith),
          rw (e0, e1, e2, e3) refl,
        )
      ]
    ]
  ]
]

safe-Named : (state : ℕ) → Named safe_state_to_str state
safe-Named state = elim (Bool-cases (state == 0)) [
  | inl e0 ↦ (_, idle (ground arith), rw e0 refl)
  | inr e0 ↦ elim (Bool-cases (state == 1)) [
    | inl e1 ↦ (_, safing (ground arith), rw (e0, e1) refl)
    | inr e1 ↦ (_, no_safe_state (ground arith) (ground arith), rw (e0, e1) refl)
  ]
]

pub says : (f : StateFunc) (state : ℕ) → Named f state
says solenoid_state_to_str = solenoid-Named
says igniter_state_to_str = igniter-Named
says mode_state_to_str = mode-Named
says safe_state_to_str = safe-Named
