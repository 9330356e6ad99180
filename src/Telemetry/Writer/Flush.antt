-- ===== src/Telemetry/Writer/Flush.antt =====
-- `flush` of lib/telemetry/src/TelemetryWriter.cpp, over `write` of TelemetryShm. Packets are also
-- logged: `logs i` says whether the packet logger took the i-th packet.
pub mod Laws
use mathlib.Core.Logic.{◌≢◌}
use mathlib.Core.Bool.{not}
use gsw.Prelude.{
  ℕ, zero, suc, ◌+◌, ◌-◌, ◌^◌, ◌%◌, ◌≤◌, ◌<◌, ◌≡◌, refl, ap, ◌∙◌, ◌⊎◌, inl, inr, Bool, true, false,
  ◌&&◌, Option, none, some, List, [], ◌∷◌, Exec, ok, err, fault, ◌>>=◌, load, store, length, get_or,
  set, length-set, get_or-set_self, get_or-set_ne, load-eq, store-eq, take, arith, Bool-cases, ◌==◌,
  ==_iff, if◌then◌else◌, sym,
}
use gsw.Telemetry.Shm.State.{Shared, TelemetryShm}
use gsw.Telemetry.Shm.Write as Shm
use gsw.Telemetry.Shm.Write.Laws.{IsOpen, Published, block_of, write-Published}
use gsw.Telemetry.Writer.{TelemetryWriter, deref}

-- Shared memory, the writer, and whether every call so far returned SUCCESS.
abbrev pub FlushState : Type 0
FlushState = Shared × TelemetryWriter × Bool

-- `ret |= shm->write(i, buffer)`: codes are 0 and -1.
abbrev pub write_shm : TelemetryShm → Shared → ℕ → List ℕ → Exec (Shared × Bool)
write_shm t s i buffer = elim (Shm.write t s i buffer) [
  | ok (s', _) ↦ ok (s', true)
  | err _ ↦ ok (s, false)
  | fault ↦ Exec.fault
]

unfoldable pub flush_packet : (ℕ → Bool) → TelemetryShm → ℕ → FlushState → Exec FlushState
flush_packet logs t i (s, w, good) = do
  marked ← load w.updated i
  if marked
      then (do
        entry ← load w.packet_buffers i
        buffer ← deref entry
        (s', written) ← write_shm t s i buffer
        updated ← store w.updated i false
        ok (s', record w { updated = updated }, good && logs i && written))
      else ok (s, w, good)

unfoldable pub flush_loop : (ℕ → Bool) → TelemetryShm → ℕ → ℕ → FlushState → Exec FlushState
flush_loop logs t zero i f = ok f
flush_loop logs t (suc n) i f = flush_packet logs t i f >>= λ f'. flush_loop logs t n (i + 1) f'

-- The Boolean is true where the code returns SUCCESS.
unfoldable pub flush : (ℕ → Bool) → TelemetryShm → Shared → TelemetryWriter → Exec FlushState
unfolding flush_loop flush_packet
flush logs t s w = flush_loop logs t (length w.packet_buffers) 0 (s, w, true)
