-- ===== src/Ec/Tests.antt =====
-- The state of a solenoid.
use Prim.Native.String.{String}
use gsw.Prelude.{true, Option, none, some, List, [], ◌∷◌, Exec, ok, err, fault, lookup}
use gsw.Text.{Text, codes, text_eq, stoi, words}
use gsw.Vcm.Types.{MeasurementInfo, gsw_little_endian, int_type, unsigned_type}
use gsw.Vcm.Config.{Vcm, named_vcm}
use gsw.Vcm.Parse as Parse
use gsw.Telemetry.Shm.State as State
use gsw.Telemetry.Shm.State.{TelemetryShm}
use gsw.Telemetry.Writer as Writer
use gsw.Telemetry.Writer.{TelemetryWriter}
use gsw.Telemetry.Viewer.{TelemetryViewer}

abbrev no_vcm : Vcm
unfolding named_vcm
no_vcm = named_vcm gsw_little_endian [] (codes "config") 0

abbrev config : List Text
config =
    codes "protocol = udp"
    ∷ codes "V 2 int unsigned little"
    ∷ codes "W 8 string"
    ∷ codes "virtual {"
    ∷ codes "V"
    ∷ codes "W"
    ∷ codes "}"
    ∷ []

abbrev parsed : Exec Vcm → Vcm
parsed (ok v) = v
parsed (err e) = no_vcm
parsed fault = no_vcm

abbrev vcm : Vcm
unfolding Parse.init stoi words named_vcm
vcm = parsed (Parse.init (λ _ a. a) no_vcm config)

abbrev found : Option MeasurementInfo → MeasurementInfo
found none = record {
  locations = [];
  size = 0;
  endianness = gsw_little_endian;
  type = int_type;
  sign = unsigned_type;
}
found (some m) = m

abbrev meas : String → MeasurementInfo
unfolding Parse.init stoi words named_vcm
meas name = found (lookup (codes name) vcm.addr_map)

abbrev writer : TelemetryWriter
unfolding Writer.init Parse.init stoi words named_vcm
writer = Writer.init vcm

abbrev handle : TelemetryShm
unfolding State.open_shm State.init Parse.init stoi words named_vcm
handle = State.open_shm (State.init vcm.packets)

-- The solenoid is open.
abbrev viewer : TelemetryViewer
unfolding Parse.init stoi words named_vcm
viewer = record {
  vcm = vcm;
  check_all = true;
  packet_ids = 0 ∷ [];
  packet_sizes = 10 ∷ [];
  packet_buffers = some (1 ∷ 0 ∷ 0 ∷ 0 ∷ 0 ∷ 0 ∷ 0 ∷ 0 ∷ 0 ∷ 0 ∷ []) ∷ [];
}
