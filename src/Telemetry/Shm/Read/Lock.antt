-- ===== src/Telemetry/Shm/Read/Lock.antt =====
-- What `read_lock` of a list of packets returns, over every course that its wait may take.
use gsw.Prelude.{
  ◌+◌, ℕ, ◌<◌, ◌≡◌, refl, ap, true, false, ◌||◌, ◌&&◌, ◌⊎◌, inl, inr, List, [], ◌∷◌, Exec, ok, err,
  fault, Option, some, RetType, success, interrupted, length, get_or, ◌==◌, if◌then◌else◌,
  Bool-cases, All, mem, arith, replicate, length-replicate, get_or-replicate,
}
use gsw.Telemetry.Shm.State.{Shared, TelemetryShm}
use gsw.Telemetry.Shm.Read.{
  Round, acquired, signalled, unchanged, attempt, read_loop, read_lock, clear_updated, is_standard,
}
use gsw.Telemetry.Shm.Read.Notes.{IsSized, changed, any_changed, check_loop-Noted, check_loop-quiet}

-- The object after a lock that was taken when shared memory was `s`: the nonces of the list are
-- those of `s`, exactly the packets of the list whose nonce has changed are marked, and outside of
-- the standard mode there is one.
pub record Locked (ids : List ℕ) (s : Shared) (t t' : TelemetryShm) : Type 0 where
  pub locked : t'.read_locked ≡ true
  pub nonce : t'.last_nonce ≡ s.nonce
  pub last :
      (j : ℕ)
      → get_or t'.last_nonces j 0
        ≡ (if mem j ids then get_or s.nonces j 0 else get_or t.last_nonces j 0)
  pub marks : (j : ℕ) → get_or t'.updated j false ≡ (mem j ids && changed s t j)
  pub news : (is_standard t.read_mode || any_changed s t ids) ≡ true
  pub sized : IsSized s t'
  pub rest : t' ≡ record t {
    last_nonce = s.nonce;
    last_nonces = t'.last_nonces;
    updated = t'.updated;
    read_locked = true;
    entered = t.entered + 1;
  }

module _ (ids : List ℕ) (s : Shared) (t : TelemetryShm) (z : IsSized s t)
    (h : All (λ id. id < t.num_packets) ids) (b : t.updated ≡ replicate t.num_packets false) where
  blank : (j : ℕ) → get_or t.updated j false ≡ false
  blank j = rw b (get_or-replicate t.num_packets false j)

  abbrev seen : TelemetryShm
  seen = record t { last_nonce = s.nonce }

  pub attempt-cases :
      ((s.nonce ≡ 0) × (attempt ids s t ≡ ok (record seen { entered = t.entered + 1 }, signalled)))
      ⊎ ((any_changed s t ids ≡ false)
          × (is_standard t.read_mode ≡ false)
          × (attempt ids s t ≡ ok (record seen { read_locked = false }, unchanged)))
      ⊎ ((t' : TelemetryShm) × (attempt ids s t ≡ ok (t', acquired)) × Locked ids s t t')
  unfolding attempt
  attempt-cases = elim (Bool-cases (s.nonce == 0)) [
    | inl e ↦ inl (ground arith, rw e refl)
    | inr e ↦ elim (Bool-cases (is_standard t.read_mode || any_changed s t ids)) [
      | inl news ↦
          let z' : IsSized s seen = record {
            nonces = z.nonces;
            last = z.last;
            updated = z.updated;
          } in
          let (t', eq, n) = check_loop-Noted s ids seen true z' h in
          inr (
            inr (
              record t' { read_locked = true; entered = t'.entered + 1 },
              rw (e, eq) (ground arith),
              record {
                locked = refl;
                nonce = cc n.same;
                last = n.last;
                marks = λ j. ground (arith, n.marks j, blank j);
                news = news;
                sized = record {
                  nonces = n.sized.nonces;
                  last = n.sized.last;
                  updated = n.sized.updated;
                };
                rest =
                    ap
                      (λ (u : TelemetryShm). record u {
                        read_locked = true;
                        entered = u.entered + 1;
                      })
                      n.same;
              },
            ))
      | inr quiet ↦
          let z' : IsSized s seen = record {
            nonces = z.nonces;
            last = z.last;
            updated = z.updated;
          } in
          inr (
            inl (
              ground arith,
              ground arith,
              rw (e, check_loop-quiet s ids seen true z' h (ground arith)) (ground arith),
            ))
    ]
  ]

-- A call that does not get the lock has left as a reader, but for one that returned INTERRUPTED because
-- the master nonce was 0: that one is still counted.
abbrev pub Leaves : TelemetryShm → TelemetryShm → Option RetType → Type 0
Leaves t t' r =
    (t'.entered ≡ t.entered)
    ⊎ ((t'.entered ≡ t.entered + 1) × (t'.last_nonce ≡ 0) × (r ≡ some interrupted))

-- The object after a call that does not get the lock: only the master nonce has been read.
pub record Refused (t t' : TelemetryShm) (r : Option RetType) : Type 0 where
  pub left : Leaves t t' r
  pub unlocked : t'.read_locked ≡ false
  pub last : t'.last_nonces ≡ t.last_nonces
  pub marks : t'.updated ≡ replicate t.num_packets false

-- The call returns, with the lock if it reports success and without it if not; `none` is a reader
-- that still waits.
abbrev pub Replies : List ℕ → TelemetryShm → Exec (TelemetryShm × Option RetType) → Type 0
Replies ids t (ok (t', some success)) = (s : Shared) × Locked ids s t t'
Replies ids t (ok (t', r)) = Refused t t' r
Replies ids t (err e) = ⊥
Replies ids t fault = ⊥

abbrev pub IsFitted : TelemetryShm → List Round → Type 0
IsFitted t = All (λ (r : Round). IsSized r.shared t)

pub IsFitted-clear :
    (t : TelemetryShm) (rounds : List Round)
    → length t.updated ≡ t.num_packets
    → IsFitted t rounds
    → IsFitted (clear_updated t) rounds
IsFitted-clear t [] e z = tt
IsFitted-clear t (r ∷ rounds) e z = (
  record { nonces = z.0.nonces; last = z.0.last; updated = length-replicate t.num_packets false },
  IsFitted-clear t rounds e z.1,
)

pub read_lock-eq :
    (t : TelemetryShm) (ids : List ℕ) (rounds : List Round)
    → t.read_locked ≡ false
    → t.initialised ≡ true
    → t.attached ≡ true
    → read_lock t ids rounds
      ≡ read_loop
          (attempt ids)
          rounds
          (record (clear_updated t) { last_nonce = t.last_nonce; read_locked = false })
unfolding read_lock
read_lock-eq t ids rounds l i a = ground arith
