-- ===== src/Trigger/Basic/Tests.antt =====
-- The sum of two measurements, from a trigger to a viewer.
use gsw.Prelude.{
  ℕ, zero, suc, ◌≡◌, refl, sym, ◌∙◌, true, false, some, List, [], ◌∷◌, Exec, ok, err, fault, length,
  mem, get_or, get_elem?, arith,
}
use gsw.Text.{Text, codes, stoi, words}
use gsw.Vcm.Types.{PacketInfo, MeasurementInfo, gsw_little_endian, int_type, unsigned_type}
use gsw.Vcm.Config.{Vcm, named_vcm}
use gsw.Vcm.Parse as Parse
use gsw.Vcm.Parse.Layout.{IsLaidOut}
use gsw.Vcm.Parse.Sound.{init-IsLaidOut}
use gsw.Telemetry.Shm.State as State
use gsw.Telemetry.Shm.State.{Shared, TelemetryShm}
use gsw.Telemetry.Shm.Write.Laws.{block_of}
use gsw.Telemetry.Shm.Query.Laws.{IsStamped}
use gsw.Telemetry.Writer as Writer
use gsw.Telemetry.Writer.{TelemetryWriter}
use gsw.Telemetry.Writer.Laws.{init-IsFitted}
use gsw.Telemetry.Writer.Flush.{flush}
use gsw.Telemetry.Viewer.{TelemetryViewer, get_uint}
use gsw.Telemetry.Viewer.Tracking.{IsTracking}
use gsw.Telemetry.Viewer.Copies.{buffer_of}
use gsw.Telemetry.Viewer.Update.{Snapshot}
use gsw.Telemetry.RoundTrip.{IsStation}
use gsw.Trigger.Basic.{run_sum_uint}
use gsw.Trigger.Basic.Laws.{AreValues, run_sum_uint-get_uint}

abbrev no_vcm : Vcm
unfolding named_vcm
no_vcm = named_vcm gsw_little_endian [] (codes "config") 0

abbrev config : List Text
config =
    codes "protocol = udp"
    ∷ codes "S 4 int unsigned little"
    ∷ codes "A 1 int unsigned little"
    ∷ codes "B 2 int unsigned little"
    ∷ codes "virtual {"
    ∷ codes "S"
    ∷ codes "A"
    ∷ codes "B"
    ∷ codes "}"
    ∷ []

abbrev parsed : Exec Vcm → Vcm
parsed (ok v) = v
parsed (err e) = no_vcm
parsed fault = no_vcm

abbrev vcm : Vcm
unfolding Parse.init stoi words named_vcm
vcm = parsed (Parse.init (λ _ a. a) no_vcm config)

vcm-IsLaidOut : IsLaidOut vcm.packets vcm.addr_map
unfolding Parse.init stoi words named_vcm
vcm-IsLaidOut =
    (init-IsLaidOut (λ _ a. a) no_vcm vcm config
      (record { packets = refl; num_packets = refl; addr_map = refl }) (omega arith) (ground arith)
      refl).1

abbrev place : ℕ → ℕ → MeasurementInfo
place offset size = record {
  locations = record { offset = offset; packet_index = 0 } ∷ [];
  size = size;
  endianness = gsw_little_endian;
  type = int_type;
  sign = unsigned_type;
}

abbrev writer : TelemetryWriter
unfolding Writer.init Parse.init stoi words named_vcm
writer = Writer.init vcm

-- Behind the trigger, and behind the flush.
abbrev dirty : TelemetryWriter
unfolding Writer.init Parse.init stoi words named_vcm
dirty = record writer {
  packet_buffers = some (6 ∷ 2 ∷ 0 ∷ 0 ∷ 0 ∷ 0 ∷ 0 ∷ []) ∷ [];
  updated = true ∷ [];
}

abbrev clean : TelemetryWriter
unfolding Writer.init Parse.init stoi words named_vcm
clean = record dirty { updated = false ∷ [] }

abbrev handle : TelemetryShm
unfolding State.open_shm State.init Parse.init stoi words named_vcm
handle = State.open_shm (State.init vcm.packets)

abbrev fresh : Shared
unfolding State.create Parse.init stoi words named_vcm
fresh = State.create vcm.packets

abbrev flushed : Shared
unfolding State.create Parse.init stoi words named_vcm
flushed = record fresh {
  info = record (fresh.info) { nonce = 2 };
  nonces = 2 ∷ [];
  packets = (6 ∷ 2 ∷ 0 ∷ 0 ∷ 0 ∷ 0 ∷ 0 ∷ []) ∷ [];
}

-- A viewer of the packet with a content.
abbrev viewer : List ℕ → TelemetryViewer
unfolding Parse.init stoi words named_vcm
viewer content = record {
  vcm = vcm;
  check_all = true;
  packet_ids = 0 ∷ [];
  packet_sizes = 7 ∷ [];
  packet_buffers = some content ∷ [];
}

abbrev updated_handle : TelemetryShm
unfolding State.open_shm State.init Parse.init stoi words named_vcm
updated_handle = record handle { last_nonce = 2; last_nonces = 2 ∷ []; updated = true ∷ [] }

sizes :
    (i : ℕ) (p : PacketInfo)
    → get_elem? vcm.packets i ≡ some p
    → (length (block_of fresh i) ≡ p.size) × (i ≡ 0) × (p.size ≡ 7)
unfolding State.create Parse.init stoi words named_vcm
sizes zero p e = ground arith
sizes (suc i) p e = absurd (ground arith)

fresh-IsStamped : IsStamped fresh
unfolding State.create Parse.init stoi words named_vcm
fresh-IsStamped zero = omega arith
fresh-IsStamped (suc j) = omega arith

writer-IsStation : IsStation writer handle fresh
unfolding Writer.init State.open_shm State.init State.create Parse.init stoi words named_vcm
writer-IsStation = record {
  fitted = init-IsFitted vcm;
  laid_out = vcm-IsLaidOut;
  host = refl;
  opened = record {
    initialised = refl;
    attached = refl;
    nonces = refl;
    packets = refl;
    write_locks = refl;
  };
  same_count = refl;
  blocks = record { count = refl; size = λ i p e. (sizes i p e).0 };
  stamped = fresh-IsStamped;
  early = omega arith;
}

viewer-IsTracking : (content : List ℕ) → length content ≡ 7 → IsTracking (viewer content)
unfolding Parse.init stoi words named_vcm
viewer-IsTracking content l = record {
  counted = refl;
  sizes = refl;
  buffers = refl;
  distinct = (refl, tt);
  known = ground arith;
  sized = λ i p m e.
      let (_, first, seven) = sizes i p e in
      (rw (first, seven) refl, content, rw first refl, l ∙ sym seven);
}

updated-whole :
    (id : ℕ)
    → mem id (0 ∷ []) ≡ true
    → (buffer_of (viewer (6 ∷ 2 ∷ 0 ∷ 0 ∷ 0 ∷ 0 ∷ 0 ∷ [])) id ≡ some (block_of flushed id))
      × (get_or (2 ∷ []) id 0 ≡ get_or flushed.nonces id 0)
unfolding State.create Parse.init stoi words named_vcm
updated-whole zero m = (refl, refl)
updated-whole (suc i) m = absurd (ground arith)

updated-Snapshot :
    Snapshot
      (viewer (0 ∷ 0 ∷ 0 ∷ 0 ∷ 5 ∷ 1 ∷ 2 ∷ []))
      (viewer (6 ∷ 2 ∷ 0 ∷ 0 ∷ 0 ∷ 0 ∷ 0 ∷ []))
      updated_handle
      flushed
unfolding State.open_shm State.init State.create Parse.init stoi words named_vcm
updated-Snapshot = record {
  tracking = viewer-IsTracking (6 ∷ 2 ∷ 0 ∷ 0 ∷ 0 ∷ 0 ∷ 0 ∷ []) refl;
  rest = refl;
  whole = λ id m. (updated-whole id m).0;
  unlocked = refl;
  nonce = refl;
  nonces = λ id m. (updated-whole id m).1;
  sized = refl;
  same_count = refl;
}

-- The arguments are 5 and 513.
arguments :
    AreValues
      (viewer (0 ∷ 0 ∷ 0 ∷ 0 ∷ 5 ∷ 1 ∷ 2 ∷ []))
      handle
      (place 4 1 ∷ place 5 2 ∷ [])
      (5 ∷ 513 ∷ [])
unfolding get_uint gsw.Telemetry.Viewer.latest_data gsw.Telemetry.Shm.Query.update_value
    gsw.Convert.To.convert_to_uint32 State.open_shm State.init Parse.init stoi words named_vcm
arguments = (refl, (refl, tt))

ran_once :
    run_sum_uint
      (viewer (0 ∷ 0 ∷ 0 ∷ 0 ∷ 5 ∷ 1 ∷ 2 ∷ []))
      handle
      writer
      (place 0 4 ∷ place 4 1 ∷ place 5 2 ∷ [])
    ≡ ok dirty
unfolding run_sum_uint gsw.Trigger.Basic.sum_loop Writer.write Writer.write_places
    Writer.write_place Writer.init get_uint gsw.Telemetry.Viewer.latest_data
    gsw.Telemetry.Shm.Query.update_value gsw.Convert.To.convert_to_uint32 State.open_shm State.init
    Parse.init stoi words named_vcm
ran_once = refl

flushed_once : flush (λ i. true) handle fresh dirty ≡ ok (flushed, clean, true)
unfolding flush gsw.Telemetry.Writer.Flush.flush_loop gsw.Telemetry.Writer.Flush.flush_packet
    gsw.Telemetry.Shm.Write.write Writer.init State.open_shm State.init State.create Parse.init stoi
    words named_vcm
flushed_once = refl

run_sum_uint-get_uint_example :
    get_uint (viewer (6 ∷ 2 ∷ 0 ∷ 0 ∷ 0 ∷ 0 ∷ 0 ∷ [])) updated_handle (place 0 4) ≡ ok 518
unfolding Writer.init State.open_shm State.init State.create Parse.init stoi words named_vcm
run_sum_uint-get_uint_example =
    run_sum_uint-get_uint writer dirty clean handle fresh flushed (λ i. true) true (codes "S")
      (place 0 4) (viewer (0 ∷ 0 ∷ 0 ∷ 0 ∷ 5 ∷ 1 ∷ 2 ∷ []))
      (viewer (0 ∷ 0 ∷ 0 ∷ 0 ∷ 5 ∷ 1 ∷ 2 ∷ [])) (viewer (6 ∷ 2 ∷ 0 ∷ 0 ∷ 0 ∷ 0 ∷ 0 ∷ [])) handle
      updated_handle (place 4 1 ∷ place 5 2 ∷ []) (5 ∷ 513 ∷ []) writer-IsStation refl
      (record { type = refl; sign = refl; size = omega arith }) refl
      ((record { size = 7; port = 0; is_virtual = true }, refl, refl), tt)
      (0, record { offset = 0; packet_index = 0 }, refl) arguments ran_once flushed_once refl
      (viewer-IsTracking (0 ∷ 0 ∷ 0 ∷ 0 ∷ 5 ∷ 1 ∷ 2 ∷ []) refl) (refl, tt) updated-Snapshot
