-- ===== src/Telemetry/Shm/Write.antt =====
-- `write`, `clear`, `write_lock` and `write_unlock` of lib/telemetry/src/TelemetryShm.cpp: what they
-- do once their semaphores have let them pass. (`Locking` is about the waiting.)
pub mod Laws
use gsw.Prelude.{
  ℕ, ◌+◌, ◌-◌, ◌%◌, ◌^◌, Bool, true, false, Option, none, some, List, Exec, ok, ◌>>=◌, ◌>>◌, guard,
  load, store, failure, ltb, ◌&&◌, length, ◌==◌, if◌then◌else◌, replicate,
}
use mathlib.Core.Bool.{not}
use gsw.Bytes.{copy_loop, fill_loop}
use gsw.Telemetry.Shm.State.{Shared, TelemetryShm, u32}

-- The bits with which readers that wait on the master nonce are woken, if they are woken.
abbrev pub Wake : Type 0
Wake = Option ℕ

abbrev check_access : TelemetryShm → ℕ → Exec (Unit {0})
check_access t packet_id = do
  guard (ltb packet_id t.num_packets) failure
  guard t.initialised failure
  guard t.attached failure

-- `info->nonce++; (*packet_nonce) = info->nonce;` behind a new content of the packet's block.
abbrev pub commit : Shared → ℕ → List ℕ → Exec Shared
commit s packet_id block = do
  packets ← store s.packets packet_id block
  let nonce = u32 (s.nonce + 1)
  nonces ← store s.nonces packet_id nonce
  ok (record s { info = record (s.info) { nonce = nonce }; packets = packets; nonces = nonces })

-- memcpy copies `packet->size` bytes, whatever the size of `src`.
unfoldable pub write : TelemetryShm → Shared → ℕ → List ℕ → Exec (Shared × Wake)
write t s packet_id src = do
  check_access t packet_id
  old ← load s.packets packet_id
  block ← copy_loop (λ i. i) (λ i. i) (length old) 0 old src
  s' ← commit s packet_id block
  ok (s', some (2 ^ (packet_id % 32)))

-- The futex call is given the nonce's value for its address, so nobody who waits on the nonce is
-- woken.
unfoldable pub clear : TelemetryShm → Shared → ℕ → ℕ → Exec (Shared × Wake)
clear t s packet_id val = do
  check_access t packet_id
  old ← load s.packets packet_id
  s' ← commit s packet_id (replicate (length old) val)
  ok (s', none)

-- `none` is to wait for the semaphore.
unfoldable pub write_lock : TelemetryShm → Shared → ℕ → Exec (Option (TelemetryShm × Shared))
write_lock t s packet_id = do
  guard (ltb packet_id t.num_packets) failure
  held ← load t.locked_packets packet_id
  guard (not held) failure
  v ← load s.write_locks packet_id
  if v == 0 then ok none else (do
    locks ← store s.write_locks packet_id (v - 1)
    locked ← store t.locked_packets packet_id true
    ok (some (record t { locked_packets = locked }, record s { write_locks = locks })))

unfoldable pub write_unlock : TelemetryShm → Shared → ℕ → Exec (TelemetryShm × Shared)
write_unlock t s packet_id = do
  guard (ltb packet_id t.num_packets) failure
  held ← load t.locked_packets packet_id
  guard held failure
  v ← load s.write_locks packet_id
  locks ← store s.write_locks packet_id (v + 1)
  locked ← store t.locked_packets packet_id false
  ok (record t { locked_packets = locked }, record s { write_locks = locks })
