-- ===== src/Telemetry/Writer.antt =====
-- `TelemetryWriter` of lib/telemetry/src/TelemetryWriter.cpp: writes of measurements to the buffers
-- of virtual packets. (`Flush` is about `flush`.)
pub mod Copies
pub mod Places
pub mod Laws
pub mod Holds
pub mod Flush
mod Tests
use gsw.Prelude.{
  ℕ, zero, suc, ◌+◌, ◌-◌, Bool, true, false, Option, none, some, List, [], ◌∷◌, map, Exec, ok,
  fault, ◌>>=◌, ◌>>◌, guard, load, store, failure, leb, ◌==◌, if◌then◌else◌, replicate, or_fail,
}
use gsw.Text.{Text}
use gsw.Vcm.Types.{MeasurementInfo, PacketInfo, LocationInfo, Endianness, eq_endianness}
use gsw.Vcm.Config.{Vcm, get_info}
use gsw.Bytes.{copy_loop}

-- `packet_buffers[i]` is none where it is NULL.
pub record TelemetryWriter : Type 0 where
  pub vcm : Vcm
  pub packet_buffers : List (Option (List ℕ))
  pub packet_sizes : List ℕ
  pub updated : List Bool

-- `init(vcm, shm)` with an open `shm`, of a configuration whose `num_packets` counts its packets.
unfoldable pub init : Vcm → TelemetryWriter
init v = record {
  vcm = v;
  packet_buffers = map (λ p. if p.is_virtual then some (replicate p.size 0) else none) v.packets;
  packet_sizes = map (λ p. if p.is_virtual then p.size else 0) v.packets;
  updated = map (λ _. false) v.packets;
}

-- A copy of `len` bytes to `dst + offset`, backwards if the byte order is not the host's.
abbrev pub telemetry_copy : Endianness → MeasurementInfo → ℕ → List ℕ → ℕ → List ℕ → Exec (List ℕ)
telemetry_copy sys meas len src offset dst =
    if eq_endianness sys meas.endianness
    then copy_loop (λ i. offset + i) (λ i. i) len 0 dst src
    else copy_loop (λ i. offset + (len - i - 1)) (λ i. i) len 0 dst src

abbrev pub raw_copy : ℕ → List ℕ → ℕ → List ℕ → Exec (List ℕ)
raw_copy len src offset dst = copy_loop (λ i. offset + i) (λ i. i) len 0 dst src

-- NULL is no buffer.
abbrev pub deref : Option (List ℕ) → Exec (List ℕ)
deref none = fault
deref (some buffer) = ok buffer

-- A round of the loop over the places of a measurement.
unfoldable pub write_place :
    (ℕ → List ℕ → Exec (List ℕ)) → TelemetryWriter → LocationInfo → Exec TelemetryWriter
write_place copy_to w loc = do
  packet ← load w.vcm.packets loc.packet_index
  if packet.is_virtual
      then (do
        entry ← load w.packet_buffers loc.packet_index
        buffer ← deref entry
        buffer' ← copy_to loc.offset buffer
        buffers ← store w.packet_buffers loc.packet_index (some buffer')
        updated ← store w.updated loc.packet_index true
        ok (record w { packet_buffers = buffers; updated = updated }))
      else ok w

unfoldable pub write_places :
    (ℕ → List ℕ → Exec (List ℕ)) → TelemetryWriter → List LocationInfo → Exec TelemetryWriter
write_places copy_to w [] = ok w
write_places copy_to w (loc ∷ locs) =
    write_place copy_to w loc >>= λ w'. write_places copy_to w' locs

unfoldable pub write : TelemetryWriter → MeasurementInfo → List ℕ → ℕ → Exec TelemetryWriter
unfolding write_places
write w meas src len = do
  guard (len == meas.size) failure
  write_places (telemetry_copy w.vcm.sys_endianness meas len src) w meas.locations

unfoldable pub write_name : TelemetryWriter → Text → List ℕ → ℕ → Exec TelemetryWriter
unfolding write
write_name w name src len = do m ← or_fail (get_info w.vcm name); write w m src len

unfoldable pub write_raw : TelemetryWriter → MeasurementInfo → List ℕ → ℕ → Exec TelemetryWriter
unfolding write_places
write_raw w meas src len = do
  guard (leb len meas.size) failure
  write_places (raw_copy len src) w meas.locations
