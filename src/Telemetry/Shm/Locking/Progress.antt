-- ===== src/Telemetry/Shm/Locking/Progress.antt =====
-- The semaphores cannot bring every process to wait.
use gsw.Prelude.{
  ℕ, ◌^◌, ◌<◌, ◌≡◌, ◌≢◌, some, none, List, arith, dec_lt, ◌⊎◌, inl, inr, Option-cases,
}
use gsw.Vcm.Types.{PacketInfo}
use gsw.Telemetry.Shm.State.{Shared, create}
use gsw.Telemetry.Shm.Locking.Counts.{tally, le-tally, tally-find}
use gsw.Telemetry.Shm.Locking.Roles.{
  Inv, balanced, writes, reads, bars_readers, in_rmutex, in_wmutex, in_read_try, at_first_reader,
  at_first_writer,
}
use gsw.Telemetry.Shm.Locking.Invariant.{Reach-Inv}
use gsw.Telemetry.Shm.Locking.{
  Process, idle, interrupted, write_step, read_step, advance, System, Reach,
}

-- Some process can take its next step.
abbrev pub CanMove : ℕ → Shared → (ℕ → Process) → Type 0
CanMove n m f = (i : ℕ) × (i < n) × (q : Shared × Process) × (advance m (f i) ≡ some q)

module _ {n : ℕ} (m : Shared) (f : ℕ → Process) (v : Inv n m f)
    (live : (i : ℕ) → i < n → f i ≢ interrupted) where
  -- A process moves, or something is left to show of a process that waits.
  moves_or : (i : ℕ) → i < n → (advance m (f i) ≡ none → CanMove n m f) → CanMove n m f
  moves_or i h waits = elim (Option-cases (advance m (f i))) [
    | inl e ↦ waits e
    | inr (q, e) ↦ (i, h, q, e)
  ]

  writes-moves : (p : Process) → 0 < writes p → advance m p ≢ none
  unfolding write_step
  writes-moves p h e = ground arith

  from_writes : 0 < tally writes n f → CanMove n m f
  from_writes h =
      let (i, l, p) = tally-find writes n f h in moves_or i l (λ e. absurd (writes-moves (f i) p e))

  -- Only the first reader can wait while `rmutex` is held, and then a writer writes.
  rmutex-waits :
      (p : Process)
      → 0 < in_rmutex p
      → advance m p ≡ none
      → (m.resource ≡ 0) × (m.readers ≡ 1) × (at_first_reader p ≡ 1)
  unfolding read_step
  rmutex-waits p h e = ground arith

  from_rmutex : 0 < tally in_rmutex n f → CanMove n m f
  from_rmutex h =
      let (i, l, p) = tally-find in_rmutex n f h in
      let b = balanced n f in
      moves_or i l λ e.
        let (r, one, first) = rmutex-waits (f i) p e in
        from_writes
          (omega (arith, v.resource, v.readers, b.readers, le-tally at_first_reader n f i l))

  read_try-waits :
      (p : Process) → 0 < in_read_try p → advance m p ≡ none → (m.rmutex ≡ 0) ⊎ (0 < in_rmutex p)
  unfolding read_step
  read_try-waits p h e = ground arith

  from_read_try : 0 < tally in_read_try n f → CanMove n m f
  from_read_try h =
      let (i, l, p) = tally-find in_read_try n f h in
      moves_or i l λ e. elim (read_try-waits (f i) p e) [
        | inl r ↦ from_rmutex (omega (arith, v.rmutex))
        | inr k ↦ from_rmutex (omega (arith, le-tally in_rmutex n f i l))
      ]

  -- Only the first writer can wait while `wmutex` is held, and then a reader is about to enter.
  wmutex-waits :
      (p : Process)
      → 0 < in_wmutex p
      → advance m p ≡ none
      → (m.read_try ≡ 0) × (m.writers ≡ 1) × (at_first_writer p ≡ 1)
  unfolding write_step
  wmutex-waits p h e = ground arith

  from_wmutex : 0 < tally in_wmutex n f → CanMove n m f
  from_wmutex h =
      let (i, l, p) = tally-find in_wmutex n f h in
      let b = balanced n f in
      moves_or i l λ e.
        let (r, one, first) = wmutex-waits (f i) p e in
        from_read_try
          (omega (arith, v.read_try, v.writers, b.writers, le-tally at_first_writer n f i l))

  reads-waits : (p : Process) → 0 < reads p → p ≢ interrupted → advance m p ≡ none → m.rmutex ≡ 0
  unfolding read_step
  reads-waits p h alive e = ground arith

  from_reads : 0 < tally reads n f → CanMove n m f
  from_reads h =
      let (i, l, p) = tally-find reads n f h in
      moves_or i l
        λ e. let r = reads-waits (f i) p (live i l) e in from_rmutex (omega (arith, v.rmutex))

  from_resource : m.resource ≡ 0 → CanMove n m f
  from_resource h = elim (dec_lt 0 (tally writes n f)) [
    | yes w ↦ from_writes w
    | no w ↦ from_reads (omega (arith, v.resource))
  ]

  bars-waits :
      (p : Process) → 0 < bars_readers p → advance m p ≡ none → (m.resource ≡ 0) ⊎ (m.wmutex ≡ 0)
  unfolding write_step
  bars-waits p h e = ground arith

  from_bars : 0 < tally bars_readers n f → CanMove n m f
  from_bars h =
      let (i, l, p) = tally-find bars_readers n f h in
      moves_or i l λ e. elim (bars-waits (f i) p e) [
        | inl r ↦ from_resource r
        | inr w ↦ from_wmutex (omega (arith, v.wmutex))
      ]

  -- What a process that has begun and cannot move waits for.
  waits_for :
      (p : Process)
      → p ≢ idle
      → p ≢ interrupted
      → advance m p ≡ none
      → (m.wmutex ≡ 0) ⊎ (m.resource ≡ 0) ⊎ (m.rmutex ≡ 0) ⊎ (m.read_try ≡ 0)
  unfolding read_step write_step
  waits_for p h alive e = ground arith

  can_move : (i : ℕ) → i < n → f i ≢ idle → CanMove n m f
  can_move i l h = moves_or i l λ e. elim (waits_for (f i) h (live i l) e) [
    | inl w ↦ from_wmutex (omega (arith, v.wmutex))
    | inr (inl r) ↦ from_resource r
    | inr (inr (inl r)) ↦ from_rmutex (omega (arith, v.rmutex))
    | inr (inr (inr t)) ↦ elim (dec_lt 0 (tally in_read_try n f)) [
      | yes k ↦ from_read_try k
      | no k ↦ from_bars (omega (arith, v.read_try))
    ]
  ]

-- With fewer than 2 ^ 32 processes over memory that `create` made: in every reachable state in which
-- some process has begun and is not done, and no call has returned INTERRUPTED at master nonce 0, some
-- process can take its next step.
pub no_deadlock :
    {n : ℕ} (packets : List PacketInfo) {s : System}
    → n < 2 ^ 32
    → Reach n (create packets) s
    → ((j : ℕ) → j < n → s.process j ≢ interrupted)
    → (i : ℕ) → i < n
    → s.process i ≢ idle
    → CanMove n s.mem s.process
no_deadlock packets {s} h r live i l d = can_move s.mem s.process (Reach-Inv packets h r) live i l d
