-- ===== src/Telemetry/Shm/Read.antt =====
-- The two `read_lock` of lib/telemetry/src/TelemetryShm.cpp, and `read_unlock`.
-- A call goes round its loop once for each element of a list: what the reader sees in shared memory
-- when it holds the read lock, and how its wait on the futex ends. (`Locking` is about the
-- semaphores.)
pub mod Notes
pub mod Lock
pub mod Held
pub mod Calls
pub mod Wakes
use Prim.Native.Nat.{bit_and, bit_or}
use mathlib.Core.Bool.{not}
use gsw.Prelude.{
  ℕ, zero, suc, ◌+◌, ◌-◌, ◌^◌, Bool, true, false, ◌||◌, ◌&&◌, Option, none, some, List, [], ◌∷◌,
  Exec, ok, ◌>>=◌, ◌>>◌, guard, load, store, RetType, success, failure, blocked, interrupted,
  timeout, ◌==◌, length, replicate, if◌then◌else◌,
}
use gsw.Telemetry.Shm.State.{
  Shared, TelemetryShm, ReadMode, standard_read, blocking_read, nonblocking_read, u32,
}

-- How the futex call ends: by a wake-up, at the timeout, by EAGAIN, by another error.
pub data WaitResult : Type 0 where
  woken timed_out again failed : WaitResult

-- `shared` is what the reader sees under the lock; `wait` and `nonce_after` are for a reader that
-- blocks: how its wait ends, and the master nonce that it reads then.
pub record Round : Type 0 where
  pub shared : Shared
  pub wait : WaitResult
  pub nonce_after : ℕ

-- What a pass under the lock comes to: the lock is kept, a signal was seen, nothing has changed.
pub data Attempt : Type 0 where
  acquired signalled unchanged : Attempt

abbrev pub is_standard : ReadMode → Bool
is_standard standard_read = true
is_standard _ = false

-- A packet whose nonce has changed is noted in `last_nonces` and `updated`.
unfoldable pub note_packet : Shared → TelemetryShm → ℕ → Exec (TelemetryShm × Bool)
note_packet s t id = do
  nonce ← load s.nonces id
  last ← load t.last_nonces id
  if nonce == last then ok (t, false) else (do
    last_nonces ← store t.last_nonces id nonce
    updated ← store t.updated id true
    ok (record t { last_nonces = last_nonces; updated = updated }, true))

unfoldable pub check_loop : Shared → List ℕ → TelemetryShm → Bool → Exec (TelemetryShm × Bool)
check_loop s [] t block = ok (t, block)
check_loop s (id ∷ ids) t block = do
  (t', changed) ← note_packet s t id
  check_loop s ids t' (if changed then false else block)

-- A pass begins when the object has entered as a reader. It stays one with the lock, and also when it
-- returns INTERRUPTED at master nonce 0; when nothing has changed, it leaves again.
unfoldable pub attempt : List ℕ → Shared → TelemetryShm → Exec (TelemetryShm × Attempt)
attempt ids s t =
    let t₁ : TelemetryShm = record t { last_nonce = s.nonce } in
    if s.nonce == 0
    then ok (record t₁ { entered = t.entered + 1 }, signalled)
    else check_loop s ids t₁ true >>= λ (t₂, block).
        if not block || is_standard t.read_mode
        then ok (record t₂ { read_locked = true; entered = t₂.entered + 1 }, acquired)
        else ok (record t₂ { read_locked = false }, unchanged)

unfoldable pub update_loop : ℕ → ℕ → Shared → TelemetryShm → Exec TelemetryShm
update_loop zero i s t = ok t
update_loop (suc n) i s t = do (t', _) ← note_packet s t i; update_loop n (i + 1) s t'

unfoldable pub attempt_all : Shared → TelemetryShm → Exec (TelemetryShm × Attempt)
attempt_all s t =
    if not (is_standard t.read_mode) && (t.last_nonce == s.nonce)
    then ok (record t { read_locked = false }, unchanged)
    else update_loop t.num_packets 0 s t >>= λ t'.
        ok (
          record t' { last_nonce = s.nonce; read_locked = true; entered = t'.entered + 1 },
          acquired,
        )

-- Behind a pass: `retry` is the next round of the loop. `none` is a reader that still waits.
abbrev pub Reply : Type 0
Reply = Exec (TelemetryShm × Option RetType)

abbrev pub after_wait : WaitResult → ℕ → TelemetryShm → (TelemetryShm → Reply) → Reply
after_wait timed_out nonce t retry = ok (t, some timeout)
after_wait failed nonce t retry = ok (t, some failure)
after_wait woken nonce t retry = if nonce == 0 then ok (t, some interrupted) else retry t
after_wait again nonce t retry = if nonce == 0 then ok (t, some interrupted) else retry t

abbrev pub on_unchanged : ReadMode → Round → TelemetryShm → (TelemetryShm → Reply) → Reply
on_unchanged blocking_read r t retry = after_wait r.wait r.nonce_after t retry
on_unchanged standard_read r t retry = ok (t, some blocked)
on_unchanged nonblocking_read r t retry = ok (t, some blocked)

abbrev pub conclude : Round → (TelemetryShm → Reply) → TelemetryShm × Attempt → Reply
conclude r retry (t, acquired) = ok (t, some success)
conclude r retry (t, signalled) = ok (t, some interrupted)
conclude r retry (t, unchanged) = on_unchanged t.read_mode r t retry

unfoldable pub read_loop :
    (Shared → TelemetryShm → Exec (TelemetryShm × Attempt)) → List Round → TelemetryShm → Reply
read_loop pass [] t = ok (t, none)
read_loop pass (r ∷ rounds) t = pass r.shared t >>= conclude r (λ t'. read_loop pass rounds t')

abbrev check_unlocked : TelemetryShm → Exec (Unit {0})
check_unlocked t = do
  guard (not t.read_locked) failure
  guard t.initialised failure
  guard t.attached failure

abbrev pub clear_updated : TelemetryShm → TelemetryShm
clear_updated t = record t { updated = replicate t.num_packets false }

-- `read_lock(packet_ids, num, timeout)`
unfoldable pub read_lock : TelemetryShm → List ℕ → List Round → Reply
read_lock t ids rounds = do check_unlocked t; read_loop (attempt ids) rounds (clear_updated t)

-- `read_lock(timeout)`
unfoldable pub read_lock_all : TelemetryShm → List Round → Reply
read_lock_all t rounds = do check_unlocked t; read_loop attempt_all rounds (clear_updated t)

-- A forced unlock of an object that has not entered leaves in another's place: `entered` stays 0.
unfoldable pub read_unlock : TelemetryShm → Bool → Exec TelemetryShm
read_unlock t force = do
  guard (t.read_locked || force) failure
  guard t.initialised failure
  guard t.attached failure
  ok (record t { read_locked = false; entered = t.entered - 1 })

-- The bits that a reader of `ids` waits for: `bitset |= (1 << i)` for the i-th of them.
unfoldable pub bits_loop : ℕ → List ℕ → ℕ → ℕ
bits_loop i [] bitset = bitset
bits_loop i (id ∷ ids) bitset = bits_loop (i + 1) ids (bit_or bitset (2 ^ i))

unfoldable pub wait_bits : List ℕ → ℕ
unfolding bits_loop
wait_bits ids = bits_loop 0 ids 0

-- The futex wakes a reader of `ids` for a writer that wakes the bits `wake`.
unfoldable pub wakes : List ℕ → ℕ → Bool
unfolding wait_bits
wakes ids wake = not (bit_and (wait_bits ids) wake == 0)
