-- ===== src/Telemetry/Writer/Tests.antt =====
-- Writes to the virtual packets of a small configuration.
use gsw.Prelude.{
  zero, suc, Bool, true, ℕ, ◌≡◌, refl, List, [], ◌∷◌, Exec, ok, err, fault, Option, some, arith,
  get_or,
}
use gsw.Text.{Text, text_eq, codes, stoi, words}
use gsw.Vcm.Types.{gsw_little_endian, gsw_big_endian, int_type, unsigned_type, MeasurementInfo}
use gsw.Vcm.Config.{Vcm, named_vcm, get_info}
use gsw.Vcm.Parse as Parse
use gsw.Vcm.Parse.Layout.{IsLaidOut}
use gsw.Vcm.Parse.Sound.{init-IsLaidOut}
use gsw.Telemetry.Writer.{
  TelemetryWriter, init, write, write_name, write_raw, write_place, write_places,
}
use gsw.Telemetry.Shm.State as State
use gsw.Telemetry.Shm.State.{TelemetryShm, Shared}
use gsw.Telemetry.Shm.Write.Laws.{IsOpen}
use gsw.Telemetry.Writer.Flush.{flush}
use gsw.Telemetry.Writer.Flush.Laws.{IsReady, IsFlushed, flush-IsFlushed}
use gsw.Telemetry.Writer.Copies.{sent}
use gsw.Telemetry.Writer.Laws.{Stored, init-IsFitted, write_name-Stored, write_raw-Stored}

abbrev no_vcm : Vcm
unfolding named_vcm
no_vcm = named_vcm gsw_little_endian [] (codes "config") 0

-- `V` stands in both virtual packets.
abbrev config : List Text
config =
    codes "protocol = udp"
    ∷ codes "U 1 int unsigned"
    ∷ codes "V 2 int unsigned big"
    ∷ codes "virtual {"
    ∷ codes "U"
    ∷ codes "V"
    ∷ codes "}"
    ∷ codes "virtual {"
    ∷ codes "V"
    ∷ codes "}"
    ∷ []

abbrev accepted : Exec Vcm → Vcm
accepted (ok v) = v
accepted (err e) = no_vcm
accepted fault = no_vcm

abbrev vcm : Vcm
unfolding Parse.init stoi words named_vcm
vcm = accepted (Parse.init (λ _ a. a) no_vcm config)

vcm-IsLaidOut : IsLaidOut vcm.packets vcm.addr_map
unfolding Parse.init stoi words named_vcm
vcm-IsLaidOut =
    (init-IsLaidOut (λ _ a. a) no_vcm vcm config
      (record { packets = refl; num_packets = refl; addr_map = refl }) (omega arith) (ground arith)
      refl).1

abbrev small : TelemetryWriter
unfolding init Parse.init stoi words named_vcm
small = init vcm

abbrev two_bytes : MeasurementInfo
two_bytes = record {
  locations =
      record { offset = 1; packet_index = 0 } ∷ record { offset = 0; packet_index = 1 } ∷ [];
  size = 2;
  endianness = gsw_big_endian;
  type = int_type;
  sign = unsigned_type;
}

abbrev buffers : Exec TelemetryWriter → List (Option (List ℕ))
buffers (ok w) = w.packet_buffers
buffers (err e) = []
buffers fault = []

swapped :
    buffers (write_name small (codes "V") (7 ∷ 9 ∷ []) 2)
    ≡ some (0 ∷ 9 ∷ 7 ∷ []) ∷ some (9 ∷ 7 ∷ []) ∷ []
unfolding write_name write write_places write_place get_info init Parse.init stoi words named_vcm
swapped = refl

write_name-Stored_example :
    (w' : TelemetryWriter) × (write_name small (codes "V") (7 ∷ 9 ∷ []) 2 ≡ ok w')
    × Stored small w' (codes "V") two_bytes 2 (sent gsw_little_endian two_bytes 2 (7 ∷ 9 ∷ []))
unfolding init Parse.init stoi words named_vcm
write_name-Stored_example =
    write_name-Stored small (codes "V") two_bytes (7 ∷ 9 ∷ []) (init-IsFitted vcm) vcm-IsLaidOut
      refl refl

write_raw-Stored_example :
    (w' : TelemetryWriter) × (write_raw small two_bytes (7 ∷ []) 1 ≡ ok w')
    × Stored small w' (codes "V") two_bytes 1 (λ k. get_or (7 ∷ []) k 0)
unfolding init Parse.init stoi words named_vcm
write_raw-Stored_example =
    write_raw-Stored small (codes "V") two_bytes (7 ∷ []) 1 (init-IsFitted vcm) vcm-IsLaidOut refl
      (omega arith) (omega arith)

-- The writer behind a write of `V`, with shared memory that was just made.
abbrev changed : TelemetryWriter
unfolding init Parse.init stoi words named_vcm
changed = record small {
  packet_buffers = some (0 ∷ 9 ∷ 7 ∷ []) ∷ some (9 ∷ 7 ∷ []) ∷ [];
  updated = true ∷ true ∷ [];
}

abbrev shm : TelemetryShm
unfolding State.open_shm State.init Parse.init stoi words named_vcm
shm = State.open_shm (State.init vcm.packets)

abbrev memory : Shared
unfolding State.create Parse.init stoi words named_vcm
memory = State.create vcm.packets

changed-IsReady : IsReady memory changed
unfolding init State.create Parse.init stoi words named_vcm
changed-IsReady zero m = (0 ∷ 9 ∷ 7 ∷ [], refl, omega arith)
changed-IsReady (suc zero) m = (9 ∷ 7 ∷ [], refl, omega arith)
changed-IsReady (suc (suc i)) m = absurd (ground arith)

shm-IsOpen : IsOpen shm memory
unfolding State.open_shm State.init State.create Parse.init stoi words named_vcm
shm-IsOpen = record {
  initialised = refl;
  attached = refl;
  nonces = refl;
  packets = refl;
  write_locks = refl;
}

flush-IsFlushed_example :
    (s' : Shared) × (w' : TelemetryWriter) × (good : Bool) × (flush (λ i. true) shm memory changed
      ≡ ok (s', w', good))
    × IsFlushed shm memory s' changed w'
    × (((j : ℕ) → true ≡ true) → good ≡ true)
unfolding init State.open_shm State.init State.create Parse.init stoi words named_vcm
flush-IsFlushed_example =
    flush-IsFlushed (λ i. true) shm memory changed shm-IsOpen changed-IsReady refl refl
