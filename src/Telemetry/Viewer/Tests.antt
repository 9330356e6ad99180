-- ===== src/Telemetry/Viewer/Tests.antt =====
-- A viewer of a vehicle with two packets, behind a write of one of them.
use gsw.Prelude.{
  ℕ, zero, suc, ◌<◌, ◌≡◌, refl, true, false, some, List, [], ◌∷◌, ok, success, length, take, drop,
  mem, get_or, get_elem?, arith,
}
use gsw.Text.{codes}
use gsw.Bytes.{value}
use gsw.Vcm.Types.{
  PacketInfo, MeasurementInfo, LocationInfo, gsw_little_endian, gsw_big_endian, int_type,
  unsigned_type,
}
use gsw.Vcm.Config.{Vcm, named_vcm}
use gsw.Telemetry.Shm.State as State
use gsw.Telemetry.Shm.State.{Shared, TelemetryShm}
use gsw.Telemetry.Shm.Write.Laws.{block_of}
use gsw.Telemetry.Shm.Read.{Round, woken}
use gsw.Telemetry.Shm.Query.Laws.{IsStamped}
use gsw.Telemetry.Viewer.{TelemetryViewer, init, add_all, latest_data, get_uint}
use gsw.Telemetry.Viewer.Tracking.{IsTracking, init-IsTracking, add_all-Added}
use gsw.Telemetry.Viewer.Copies.{HasBlocks, buffer_of}
use gsw.Telemetry.Viewer.Update.{Snapshot}
use gsw.Telemetry.Viewer.Latest.{IsLatest}
use gsw.Telemetry.Viewer.Values.{get_uint-IsLatest}

abbrev packets : List PacketInfo
packets =
    record { size = 2; port = 8080; is_virtual = false }
    ∷ record { size = 3; port = 0; is_virtual = true }
    ∷ []

-- A measurement of both packets.
abbrev meas : MeasurementInfo
meas = record {
  locations =
      record { offset = 0; packet_index = 0 } ∷ record { offset = 1; packet_index = 1 } ∷ [];
  size = 2;
  endianness = gsw_big_endian;
  type = int_type;
  sign = unsigned_type;
}

abbrev vcm : Vcm
unfolding named_vcm
vcm = record (named_vcm gsw_little_endian [] (codes "config") 0) {
  num_packets = 2;
  packets = packets;
}

abbrev empty_viewer : TelemetryViewer
unfolding init named_vcm
empty_viewer = init vcm false (0 ∷ 0 ∷ [])

abbrev viewer : TelemetryViewer
unfolding init named_vcm
viewer = record empty_viewer {
  packet_ids = 0 ∷ 1 ∷ [];
  packet_sizes = 2 ∷ 3 ∷ [];
  packet_buffers = some (0 ∷ 0 ∷ []) ∷ some (0 ∷ 0 ∷ 0 ∷ []) ∷ [];
}

abbrev handle : TelemetryShm
unfolding State.init State.open_shm
handle = State.open_shm (State.init packets)

abbrev fresh : Shared
unfolding State.create
fresh = State.create packets

-- Packet 1 has been written once.
abbrev written : Shared
unfolding State.create
written = record fresh {
  info = record (fresh.info) { nonce = 2 };
  nonces = 1 ∷ 2 ∷ [];
  packets = (0 ∷ 0 ∷ []) ∷ (7 ∷ 8 ∷ 9 ∷ []) ∷ [];
}

abbrev rounds : List Round
unfolding State.create
rounds =
    record { shared = fresh; wait = woken; nonce_after = 2 }
    ∷ record { shared = written; wait = woken; nonce_after = 2 }
    ∷ []

abbrev updated_viewer : TelemetryViewer
unfolding init named_vcm
updated_viewer = record viewer { packet_buffers = some (0 ∷ 0 ∷ []) ∷ some (7 ∷ 8 ∷ 9 ∷ []) ∷ [] }

abbrev updated_handle : TelemetryShm
unfolding State.init State.open_shm
updated_handle = record handle {
  last_nonce = 2;
  last_nonces = 1 ∷ 2 ∷ [];
  updated = false ∷ true ∷ [];
}

empty-IsTracking : IsTracking empty_viewer
unfolding named_vcm empty_viewer init
empty-IsTracking = init-IsTracking vcm false (0 ∷ 0 ∷ []) refl refl

sizes :
    (i : ℕ) (p : PacketInfo)
    → get_elem? packets i ≡ some p
    → (length (block_of fresh i) ≡ p.size) × (length (block_of written i) ≡ p.size)
unfolding State.create
sizes zero p e = ground arith
sizes (suc zero) p e = ground arith
sizes (suc (suc i)) p e = absurd (ground arith)

viewer-sized :
    (i : ℕ) (p : PacketInfo)
    → mem i (0 ∷ 1 ∷ []) ≡ true
    → get_elem? packets i ≡ some p
    → (get_or (2 ∷ 3 ∷ []) i 0 ≡ p.size)
      × (b : List ℕ) × (buffer_of viewer i ≡ some b)
      × (length b ≡ p.size)
unfolding init named_vcm
viewer-sized zero p m e = (ground arith, 0 ∷ 0 ∷ [], refl, ground arith)
viewer-sized (suc zero) p m e = (ground arith, 0 ∷ 0 ∷ 0 ∷ [], refl, ground arith)
viewer-sized (suc (suc i)) p m e = absurd (ground arith)

viewer-IsTracking : IsTracking viewer
unfolding init named_vcm
viewer-IsTracking = record {
  counted = refl;
  sizes = refl;
  buffers = refl;
  distinct = (refl, (refl, tt));
  known = ground arith;
  sized = viewer-sized;
}

updated-sized :
    (i : ℕ) (p : PacketInfo)
    → mem i (0 ∷ 1 ∷ []) ≡ true
    → get_elem? packets i ≡ some p
    → (get_or (2 ∷ 3 ∷ []) i 0 ≡ p.size)
      × (b : List ℕ) × (buffer_of updated_viewer i ≡ some b)
      × (length b ≡ p.size)
unfolding init named_vcm
updated-sized zero p m e = (ground arith, 0 ∷ 0 ∷ [], refl, ground arith)
updated-sized (suc zero) p m e = (ground arith, 7 ∷ 8 ∷ 9 ∷ [], refl, ground arith)
updated-sized (suc (suc i)) p m e = absurd (ground arith)

updated-IsTracking : IsTracking updated_viewer
unfolding init named_vcm
updated-IsTracking = record {
  counted = refl;
  sizes = refl;
  buffers = refl;
  distinct = (refl, (refl, tt));
  known = ground arith;
  sized = updated-sized;
}

written-HasBlocks : HasBlocks viewer.vcm written
unfolding init named_vcm State.create
written-HasBlocks = record { count = refl; size = λ i p e. (sizes i p e).1 }

updated-whole :
    (id : ℕ)
    → mem id (0 ∷ 1 ∷ []) ≡ true
    → (buffer_of updated_viewer id ≡ some (block_of written id))
      × (get_or (1 ∷ 2 ∷ []) id 0 ≡ get_or written.nonces id 0)
unfolding init named_vcm State.create
updated-whole zero m = (refl, refl)
updated-whole (suc zero) m = (refl, refl)
updated-whole (suc (suc i)) m = absurd (ground arith)

updated-Snapshot : Snapshot viewer updated_viewer updated_handle written
unfolding init named_vcm State.create State.init State.open_shm
updated-Snapshot = record {
  tracking = updated-IsTracking;
  rest = refl;
  whole = λ id m. (updated-whole id m).0;
  unlocked = refl;
  nonce = refl;
  nonces = λ id m. (updated-whole id m).1;
  sized = refl;
  same_count = refl;
}

written-IsStamped : IsStamped written
unfolding State.create
written-IsStamped zero = omega arith
written-IsStamped (suc zero) = omega arith
written-IsStamped (suc (suc j)) = omega arith

add_all-Added_example :
    (v' : TelemetryViewer) × (add_all empty_viewer ≡ ok (v', success))
    × IsTracking v'
    × (v'.vcm ≡ empty_viewer.vcm)
    × ((id : ℕ) → id < 2 → mem id v'.packet_ids ≡ true)
unfolding init named_vcm
add_all-Added_example = add_all-Added empty_viewer empty-IsTracking

get_uint-IsLatest_example :
    (la : LocationInfo) × IsLatest written meas.locations la
    × (get_uint updated_viewer updated_handle meas
        ≡ ok (value gsw_big_endian (take 2 (drop la.offset (block_of written la.packet_index)))))
unfolding init named_vcm State.create
get_uint-IsLatest_example =
    get_uint-IsLatest viewer updated_viewer updated_handle written meas updated-Snapshot
      viewer-IsTracking written-HasBlocks written-IsStamped (omega arith) refl
      (record { type = refl; sign = refl; size = omega arith })
      (
        (record { size = 2; port = 8080; is_virtual = false }, refl, omega arith),
        ((record { size = 3; port = 0; is_virtual = true }, refl, omega arith), tt),
      )
      (refl, (refl, tt)) (1, record { offset = 1; packet_index = 1 }, refl, omega arith)

-- The measurement is read from packet 1.
latest_value : get_uint updated_viewer updated_handle meas ≡ ok 2057
unfolding get_uint latest_data init named_vcm State.init State.open_shm
    gsw.Telemetry.Shm.Query.update_value gsw.Convert.To.convert_to_uint32
latest_value = refl
