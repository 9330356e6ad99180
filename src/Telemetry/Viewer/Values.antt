-- ===== src/Telemetry/Viewer/Values.antt =====
-- What `get_uint` says behind an update.
use gsw.Prelude.{
  ℕ, ◌+◌, ◌^◌, ◌≤◌, ◌<◌, ◌≡◌, ap, ◌∙◌, List, ok, length, take, drop, length-drop, get_elem?, some,
  arith,
}
use gsw.Vcm.Types.{
  PacketInfo, MeasurementInfo, LocationInfo, int_type, unsigned_type, gsw_little_endian,
}
use gsw.Bytes.{value}
use gsw.Convert.To.Unsigned.{convert_to_uint32-value}
use gsw.Telemetry.Shm.State.{Shared, TelemetryShm}
use gsw.Telemetry.Shm.Query.Laws.{IsStamped}
use gsw.Telemetry.Shm.Write.Laws.{block_of}
use gsw.Telemetry.Writer.Places.{AreInside}
use gsw.Telemetry.Viewer.{TelemetryViewer, get_uint}
use gsw.Telemetry.Viewer.Tracking.{IsTracking}
use gsw.Telemetry.Viewer.Copies.{HasBlocks}
use gsw.Telemetry.Viewer.Update.{Snapshot}
use gsw.Telemetry.Viewer.Latest.{
  IsLatest, AreTracked, HasRecent, latest_data-IsLatest, get_elem?-member,
}

-- An unsigned number of at most four bytes.
pub record IsUint (meas : MeasurementInfo) : Type 0 where
  pub type : meas.type ≡ int_type
  pub sign : meas.sign ≡ unsigned_type
  pub size : meas.size ≤ 4

-- On a little-endian host, behind an update from shared memory `s` whose packet nonces are at most
-- the master nonce: an unsigned measurement of at most four bytes, whose places are inside their
-- packets, in packets that the viewer tracks, and one of them in a packet written within the last
-- 2 ^ 31 - 2 writes, reads as the number that its bytes in `s` stand for in its byte order, at a place
-- such that the packet of no other place was written later.
pub get_uint-IsLatest :
    (v v' : TelemetryViewer) (t' : TelemetryShm) (s : Shared) (meas : MeasurementInfo)
    → Snapshot v v' t' s
    → IsTracking v
    → HasBlocks v.vcm s
    → IsStamped s
    → s.nonce < 2 ^ 32
    → v.vcm.sys_endianness ≡ gsw_little_endian
    → IsUint meas
    → AreInside v.vcm.packets meas.size meas.locations
    → AreTracked v meas.locations
    → HasRecent s meas.locations
    → (la : LocationInfo) × IsLatest s meas.locations la
      × (get_uint v' t' meas
          ≡ ok (
              value meas.endianness (take meas.size (drop la.offset (block_of s la.packet_index)))))
unfolding get_uint
get_uint-IsLatest v v' t' s meas p k blocks z w host u inside h r =
    let (la, l, e) = latest_data-IsLatest v v' t' s p k z w meas h r in
    let (packet, f, low) =
      get_elem?-member
        (λ loc.
          (packet : PacketInfo) × (get_elem? v.vcm.packets loc.packet_index ≡ some packet)
          × (loc.offset + meas.size ≤ packet.size))
        meas.locations l.place.0 la inside l.place.1 in
    let block : List ℕ = block_of s la.packet_index in
    let whole : length block ≡ packet.size = blocks.size la.packet_index packet f in
    let same : v'.vcm.sys_endianness ≡ gsw_little_endian =
      ap (λ (u : TelemetryViewer). u.vcm.sys_endianness) p.rest ∙ host in
    let enough : meas.size ≤ length (drop la.offset block) =
      omega (arith, length-drop la.offset block) in
    (
      la,
      l,
      rw (e, same)
          (convert_to_uint32-value meas (drop la.offset block) u.type u.sign u.size enough),
    )
