-- ===== src/Telemetry/Shm/Read/Held.antt =====
-- Shared memory as it is while a reader holds the lock that a call of `read_lock` took.
use gsw.Prelude.{
  ◌+◌, ℕ, ◌≡◌, refl, ◌∙◌, true, false, ◌&&◌, ◌⊎◌, inl, inr, List, [], ◌∷◌, Exec, ok, err, fault,
  Option, none, some, RetType, success, failure, blocked, interrupted, timeout, ◌≢◌, get_or, ◌==◌,
  if◌then◌else◌, Bool-cases, All, mem, arith,
}
use gsw.Telemetry.Shm.State.{
  Shared, TelemetryShm, ReadMode, standard_read, blocking_read, nonblocking_read,
}
use gsw.Telemetry.Shm.Read.{
  Round, Reply, Attempt, on_unchanged, WaitResult, woken, timed_out, again, failed, acquired,
  signalled, unchanged, read_loop, after_wait,
}
use gsw.Telemetry.Shm.Read.Notes.{IsSized, changed}
use gsw.Telemetry.Shm.Read.Lock.{IsFitted, Leaves}

-- Shared memory when the lock is taken: it stays so until the lock is released.
unfoldable pub held :
    (Shared → TelemetryShm → Exec (TelemetryShm × Attempt))
    → List Round
    → TelemetryShm
    → Option Shared
held pass [] t = none
held pass (r ∷ rounds) t = elim (pass r.shared t) [
  | ok (t', acquired) ↦ some r.shared
  | ok (t', unchanged) ↦ held pass rounds t'
  | ok (t', signalled) ↦ none
  | err e ↦ none
  | fault ↦ none
]

-- The object that holds a lock which was taken over `s`: it has the nonces of the packets of the
-- list, and marks exactly those that changed.
pub record Taken (ids : List ℕ) (s : Shared) (t t' : TelemetryShm) : Type 0 where
  pub nonce : t'.last_nonce ≡ s.nonce
  pub last :
      (j : ℕ)
      → get_or t'.last_nonces j 0
        ≡ (if mem j ids then get_or s.nonces j 0 else get_or t.last_nonces j 0)
  pub marks : (j : ℕ) → get_or t'.updated j false ≡ (mem j ids && changed s t j)
  pub sized : IsSized s t'
  pub rest : t' ≡ record t {
    last_nonce = s.nonce;
    last_nonces = t'.last_nonces;
    updated = t'.updated;
    read_locked = true;
    entered = t.entered + 1;
  }

-- What a pass of either `read_lock` may come to.
abbrev pub PassCases :
    (Shared → TelemetryShm → Exec (TelemetryShm × Attempt)) → List ℕ → TelemetryShm → Type 0
PassCases pass ids t₀ =
    (s : Shared) (n : ℕ)
    → IsSized s t₀
    → ((pass s (record t₀ { last_nonce = n; read_locked = false })
        ≡ ok (
          record t₀ { last_nonce = 0; read_locked = false; entered = t₀.entered + 1 },
          signalled,
        )))
      ⊎ ((k : ℕ) × (pass s (record t₀ { last_nonce = n; read_locked = false })
            ≡ ok (record t₀ { last_nonce = k; read_locked = false }, unchanged)))
      ⊎ ((t' : TelemetryShm) × (pass s (record t₀ { last_nonce = n; read_locked = false })
            ≡ ok (t', acquired))
          × Taken ids s t₀ t')

abbrev pub IsHeld :
    (Shared → TelemetryShm → Exec (TelemetryShm × Attempt))
    → List ℕ
    → TelemetryShm
    → List Round
    → TelemetryShm
    → TelemetryShm
    → Type 0
IsHeld pass ids t₀ rounds t t' = (s : Shared) × (held pass rounds t ≡ some s) × Taken ids s t₀ t'

-- The call returns: with the lock over some memory, or unlocked. `none` still waits.
abbrev pub HeldReplies :
    (Shared → TelemetryShm → Exec (TelemetryShm × Attempt))
    → List ℕ
    → TelemetryShm
    → List Round
    → TelemetryShm
    → Reply
    → Type 0
HeldReplies pass ids t₀ rounds t (ok (t', some success)) = IsHeld pass ids t₀ rounds t t'
HeldReplies pass ids t₀ rounds t (ok (t', r)) = (t'.read_locked ≡ false) × Leaves t₀ t' r
HeldReplies pass ids t₀ rounds t (err e) = ⊥
HeldReplies pass ids t₀ rounds t fault = ⊥

-- A reader that found nothing new either goes round or returns with a code that is not SUCCESS.
pub retry_cases :
    (mode : ReadMode) (r : Round) (t : TelemetryShm) (retry : TelemetryShm → Reply)
    → (on_unchanged mode r t retry ≡ retry t)
      ⊎ ((x : RetType) × (x ≢ success) × (on_unchanged mode r t retry ≡ ok (t, some x)))
retry_cases standard_read r t retry = inr (blocked, λ e. cc, refl)
retry_cases nonblocking_read r t retry = inr (blocked, λ e. cc, refl)
retry_cases blocking_read r t retry = wait_cases r.wait r.nonce_after
  where
    wait_cases :
        (w : WaitResult) (n : ℕ)
        → (after_wait w n t retry ≡ retry t)
          ⊎ ((x : RetType) × (x ≢ success) × (after_wait w n t retry ≡ ok (t, some x)))
    wait_cases timed_out n = inr (timeout, λ e. cc, refl)
    wait_cases failed n = inr (failure, λ e. cc, refl)
    wait_cases woken n = elim (Bool-cases (n == 0)) [
      | inl z ↦ inr (interrupted, λ e. cc, rw z refl)
      | inr z ↦ inl (rw z refl)
    ]
    wait_cases again n = elim (Bool-cases (n == 0)) [
      | inl z ↦ inr (interrupted, λ e. cc, rw z refl)
      | inr z ↦ inl (rw z refl)
    ]

pub HeldReplies-shift :
    (pass : Shared → TelemetryShm → Exec (TelemetryShm × Attempt)) (ids : List ℕ)
    (t₀ t u : TelemetryShm) (rounds rounds' : List Round) (reply : Reply)
    → held pass rounds' t ≡ held pass rounds u
    → HeldReplies pass ids t₀ rounds u reply
    → HeldReplies pass ids t₀ rounds' t reply
HeldReplies-shift pass ids t₀ t u rounds rounds' (ok (t', some success)) e (s, f, k) = (s, e ∙ f, k)
HeldReplies-shift pass ids t₀ t u rounds rounds' reply e h = h

pub HeldReplies-refused :
    (pass : Shared → TelemetryShm → Exec (TelemetryShm × Attempt)) (ids : List ℕ)
    (t₀ t t' : TelemetryShm) (rounds : List Round) (x : RetType)
    → x ≢ success
    → t'.read_locked ≡ false
    → Leaves t₀ t' (some x)
    → HeldReplies pass ids t₀ rounds t (ok (t', some x))
HeldReplies-refused pass ids t₀ t t' rounds success n e left = absurd (n refl)
HeldReplies-refused pass ids t₀ t t' rounds x n e left = (e, left)

pub held-acquired :
    (pass : Shared → TelemetryShm → Exec (TelemetryShm × Attempt)) (r : Round) (rounds : List Round)
    (t u : TelemetryShm)
    → pass r.shared t ≡ ok (u, acquired)
    → held pass (r ∷ rounds) t ≡ some r.shared
unfolding held
held-acquired pass r rounds t u e = ground (arith, e)

pub held-unchanged :
    (pass : Shared → TelemetryShm → Exec (TelemetryShm × Attempt)) (r : Round) (rounds : List Round)
    (t u : TelemetryShm)
    → pass r.shared t ≡ ok (u, unchanged)
    → held pass (r ∷ rounds) t ≡ held pass rounds u
unfolding held
held-unchanged pass r rounds t u e = ground (arith, e)

module _ (pass : Shared → TelemetryShm → Exec (TelemetryShm × Attempt)) (ids : List ℕ)
    (t₀ : TelemetryShm) (cases : PassCases pass ids t₀) where
  pub loop-Held :
      (rounds : List Round) (n : ℕ)
      → IsFitted t₀ rounds
      → HeldReplies pass ids t₀ rounds
          (record t₀ { last_nonce = n; read_locked = false })
          (read_loop pass rounds (record t₀ { last_nonce = n; read_locked = false }))
  unfolding read_loop
  loop-Held [] n z = (refl, inl refl)
  loop-Held (r ∷ rounds) n z = elim (cases r.shared n z.0) [
    | inl e ↦ rw e (refl, inr (refl, refl, refl))
    | inr (inl (k, e)) ↦
        let u : TelemetryShm = record t₀ { last_nonce = k; read_locked = false } in
        elim (retry_cases t₀.read_mode r u (λ t'. read_loop pass rounds t')) [
          | inl f ↦
              rw (e, f)
                (HeldReplies-shift pass ids t₀ (record t₀ { last_nonce = n; read_locked = false }) u
                  rounds (r ∷ rounds) (read_loop pass rounds u) (held-unchanged pass r rounds _ u e)
                  (loop-Held rounds k z.1))
          | inr (x, d, f) ↦
              rw (e, f)
                (HeldReplies-refused pass ids t₀ (record t₀ { last_nonce = n; read_locked = false })
                  u (r ∷ rounds) x d refl (inl refl))
        ]
    | inr (inr (u, e, l)) ↦ rw e (r.shared, held-acquired pass r rounds _ _ e, l)
  ]

-- What holds of the memory of each pass holds of the one that is locked.
pub held-All :
    (P : Shared → Type 0) (pass : Shared → TelemetryShm → Exec (TelemetryShm × Attempt))
    (rounds : List Round) (t : TelemetryShm) (s : Shared)
    → All (λ (r : Round). P r.shared) rounds
    → held pass rounds t ≡ some s
    → P s
unfolding held
held-All P pass [] t s h e = cc
held-All P pass (r ∷ rounds) t s h e =
    pass_cases (pass r.shared t) (λ t'. held-All P pass rounds t' s h.1) e
  where
    pass_cases :
        (x : Exec (TelemetryShm × Attempt))
        → ((t' : TelemetryShm) → held pass rounds t' ≡ some s → P s)
        → (elim x [
          | ok (t', acquired) ↦ some r.shared
          | ok (t', unchanged) ↦ held pass rounds t'
          | ok (t', signalled) ↦ none
          | err e ↦ none
          | fault ↦ none
        ])
          ≡ some s
        → P s
    pass_cases (ok (t', acquired)) next f = let same : r.shared ≡ s = cc in rw (← same) h.0
    pass_cases (ok (t', unchanged)) next f = next t' f
    pass_cases (ok (t', signalled)) next f = cc
    pass_cases (err e) next f = cc
    pass_cases fault next f = cc
