-- ===== src/Telemetry/RoundTrip/Tests.antt =====
-- A measurement of two virtual packets on its way from a writer to a viewer.
use gsw.Prelude.{
  ℕ, zero, suc, ◌≡◌, refl, ◌∙◌, true, false, none, some, List, [], ◌∷◌, Exec, ok, err, fault,
  length, mem, get_or, get_elem?, arith,
}
use gsw.Text.{Text, codes, stoi, words}
use gsw.Vcm.Types.{
  PacketInfo, MeasurementInfo, gsw_little_endian, gsw_big_endian, int_type, unsigned_type,
}
use gsw.Vcm.Config.{Vcm, named_vcm, get_info}
use gsw.Vcm.Parse as Parse
use gsw.Vcm.Parse.Layout.{IsLaidOut}
use gsw.Vcm.Parse.Sound.{init-IsLaidOut}
use gsw.Telemetry.Shm.State as State
use gsw.Telemetry.Shm.State.{Shared, TelemetryShm}
use gsw.Telemetry.Shm.Query.Laws.{IsStamped}
use gsw.Telemetry.Shm.Write as Shm
use gsw.Telemetry.Shm.Write.Laws.{block_of}
use gsw.Telemetry.Writer as Writer
use gsw.Telemetry.Writer.{TelemetryWriter, write_name}
use gsw.Telemetry.Writer.Laws.{init-IsFitted}
use gsw.Telemetry.Writer.Flush.{flush}
use gsw.Telemetry.Viewer.{TelemetryViewer, get_uint}
use gsw.Telemetry.Viewer.Tracking.{IsTracking}
use gsw.Telemetry.Viewer.Copies.{buffer_of}
use gsw.Telemetry.Viewer.Update.{Snapshot}
use gsw.Telemetry.RoundTrip.{IsStation, write_name-get_uint}

abbrev no_vcm : Vcm
unfolding named_vcm
no_vcm = named_vcm gsw_little_endian [] (codes "config") 0

abbrev config : List Text
config =
    codes "protocol = udp"
    ∷ codes "V 2 int unsigned big"
    ∷ codes "U 1 int unsigned"
    ∷ codes "virtual {"
    ∷ codes "U"
    ∷ codes "V"
    ∷ codes "}"
    ∷ codes "virtual {"
    ∷ codes "V"
    ∷ codes "}"
    ∷ []

abbrev parsed : Exec Vcm → Vcm
parsed (ok v) = v
parsed (err e) = no_vcm
parsed fault = no_vcm

abbrev vcm : Vcm
unfolding Parse.init stoi words named_vcm
vcm = parsed (Parse.init (λ _ a. a) no_vcm config)

vcm-IsLaidOut : IsLaidOut vcm.packets vcm.addr_map
unfolding Parse.init stoi words named_vcm
vcm-IsLaidOut =
    (init-IsLaidOut (λ _ a. a) no_vcm vcm config
      (record { packets = refl; num_packets = refl; addr_map = refl }) (omega arith) (ground arith)
      refl).1

abbrev meas : MeasurementInfo
meas = record {
  locations =
      record { offset = 1; packet_index = 0 } ∷ record { offset = 0; packet_index = 1 } ∷ [];
  size = 2;
  endianness = gsw_big_endian;
  type = int_type;
  sign = unsigned_type;
}

abbrev writer : TelemetryWriter
unfolding Writer.init Parse.init stoi words named_vcm
writer = Writer.init vcm

-- Behind the write of the bytes 7 and 9, and behind the flush.
abbrev dirty : TelemetryWriter
unfolding Writer.init Parse.init stoi words named_vcm
dirty = record writer {
  packet_buffers = some (0 ∷ 9 ∷ 7 ∷ []) ∷ some (9 ∷ 7 ∷ []) ∷ [];
  updated = true ∷ true ∷ [];
}

abbrev clean : TelemetryWriter
unfolding Writer.init Parse.init stoi words named_vcm
clean = record dirty { updated = false ∷ false ∷ [] }

abbrev handle : TelemetryShm
unfolding State.open_shm State.init Parse.init stoi words named_vcm
handle = State.open_shm (State.init vcm.packets)

abbrev fresh : Shared
unfolding State.create Parse.init stoi words named_vcm
fresh = State.create vcm.packets

abbrev flushed : Shared
unfolding State.create Parse.init stoi words named_vcm
flushed = record fresh {
  info = record (fresh.info) { nonce = 3 };
  nonces = 2 ∷ 3 ∷ [];
  packets = (0 ∷ 9 ∷ 7 ∷ []) ∷ (9 ∷ 7 ∷ []) ∷ [];
}

abbrev viewer : TelemetryViewer
unfolding Parse.init stoi words named_vcm
viewer = record {
  vcm = vcm;
  check_all = true;
  packet_ids = 0 ∷ 1 ∷ [];
  packet_sizes = 3 ∷ 2 ∷ [];
  packet_buffers = some (0 ∷ 0 ∷ 0 ∷ []) ∷ some (0 ∷ 0 ∷ []) ∷ [];
}

abbrev updated_viewer : TelemetryViewer
unfolding Parse.init stoi words named_vcm
updated_viewer = record viewer { packet_buffers = some (0 ∷ 9 ∷ 7 ∷ []) ∷ some (9 ∷ 7 ∷ []) ∷ [] }

abbrev updated_handle : TelemetryShm
unfolding State.open_shm State.init Parse.init stoi words named_vcm
updated_handle = record handle {
  last_nonce = 3;
  last_nonces = 2 ∷ 3 ∷ [];
  updated = true ∷ true ∷ [];
}

sizes :
    (i : ℕ) (p : PacketInfo)
    → get_elem? vcm.packets i ≡ some p
    → (length (block_of fresh i) ≡ p.size) × (get_or (3 ∷ 2 ∷ []) i 0 ≡ p.size)
unfolding State.create Parse.init stoi words named_vcm
sizes zero p e = ground arith
sizes (suc zero) p e = ground arith
sizes (suc (suc i)) p e = absurd (ground arith)

fresh-IsStamped : IsStamped fresh
unfolding State.create Parse.init stoi words named_vcm
fresh-IsStamped zero = omega arith
fresh-IsStamped (suc zero) = omega arith
fresh-IsStamped (suc (suc j)) = omega arith

writer-IsStation : IsStation writer handle fresh
unfolding Writer.init State.open_shm State.init State.create Parse.init stoi words named_vcm
writer-IsStation = record {
  fitted = init-IsFitted vcm;
  laid_out = vcm-IsLaidOut;
  host = refl;
  opened = record {
    initialised = refl;
    attached = refl;
    nonces = refl;
    packets = refl;
    write_locks = refl;
  };
  same_count = refl;
  blocks = record { count = refl; size = λ i p e. (sizes i p e).0 };
  stamped = fresh-IsStamped;
  early = omega arith;
}

two_buffers :
    (xs ys : List ℕ) (i : ℕ) (p : PacketInfo)
    → length xs ≡ 3
    → length ys ≡ 2
    → mem i (0 ∷ 1 ∷ []) ≡ true
    → get_or (3 ∷ 2 ∷ []) i 0 ≡ p.size
    → (get_or (3 ∷ 2 ∷ []) i 0 ≡ p.size)
      × (b : List ℕ) × (get_or (some xs ∷ some ys ∷ []) i none ≡ some b)
      × (length b ≡ p.size)
two_buffers xs ys zero p l k m h = (h, xs, refl, l ∙ h)
two_buffers xs ys (suc zero) p l k m h = (h, ys, refl, k ∙ h)
two_buffers xs ys (suc (suc i)) p l k m h = absurd (ground arith)

viewer-IsTracking : IsTracking viewer
unfolding Parse.init stoi words named_vcm
viewer-IsTracking = record {
  counted = refl;
  sizes = refl;
  buffers = refl;
  distinct = (refl, (refl, tt));
  known = ground arith;
  sized = λ i p m e. two_buffers (0 ∷ 0 ∷ 0 ∷ []) (0 ∷ 0 ∷ []) i p refl refl m (sizes i p e).1;
}

updated-IsTracking : IsTracking updated_viewer
unfolding Parse.init stoi words named_vcm
updated-IsTracking = record {
  counted = refl;
  sizes = refl;
  buffers = refl;
  distinct = (refl, (refl, tt));
  known = ground arith;
  sized = λ i p m e. two_buffers (0 ∷ 9 ∷ 7 ∷ []) (9 ∷ 7 ∷ []) i p refl refl m (sizes i p e).1;
}

updated-whole :
    (id : ℕ)
    → mem id (0 ∷ 1 ∷ []) ≡ true
    → (buffer_of updated_viewer id ≡ some (block_of flushed id))
      × (get_or updated_handle.last_nonces id 0 ≡ get_or flushed.nonces id 0)
unfolding State.open_shm State.init State.create Parse.init stoi words named_vcm
updated-whole zero m = (refl, refl)
updated-whole (suc zero) m = (refl, refl)
updated-whole (suc (suc i)) m = absurd (ground arith)

updated-Snapshot : Snapshot viewer updated_viewer updated_handle flushed
unfolding State.open_shm State.init State.create Parse.init stoi words named_vcm
updated-Snapshot = record {
  tracking = updated-IsTracking;
  rest = refl;
  whole = λ id m. (updated-whole id m).0;
  unlocked = refl;
  nonce = refl;
  nonces = λ id m. (updated-whole id m).1;
  sized = refl;
  same_count = refl;
}

written_once : write_name writer (codes "V") (7 ∷ 9 ∷ []) 2 ≡ ok dirty
unfolding write_name Writer.write Writer.write_places Writer.write_place get_info Writer.init
    Parse.init stoi words named_vcm
written_once = refl

flushed_once : flush (λ i. true) handle fresh dirty ≡ ok (flushed, clean, true)
unfolding flush gsw.Telemetry.Writer.Flush.flush_loop gsw.Telemetry.Writer.Flush.flush_packet
    Shm.write Writer.init State.open_shm State.init State.create Parse.init stoi words named_vcm
flushed_once = refl

write_name-get_uint_example : get_uint updated_viewer updated_handle meas ≡ ok 2311
unfolding Writer.init State.open_shm State.init State.create Parse.init stoi words named_vcm
write_name-get_uint_example =
    write_name-get_uint writer dirty clean handle fresh flushed (λ i. true) true (codes "V") meas
      (7 ∷ 9 ∷ []) viewer updated_viewer updated_handle writer-IsStation refl
      (record { type = refl; sign = refl; size = omega arith }) refl
      (
        (record { size = 3; port = 0; is_virtual = true }, refl, refl),
        ((record { size = 2; port = 0; is_virtual = true }, refl, refl), tt),
      )
      (0, record { offset = 1; packet_index = 0 }, refl) written_once flushed_once refl
      viewer-IsTracking (refl, (refl, tt)) updated-Snapshot
