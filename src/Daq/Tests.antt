-- ===== src/Daq/Tests.antt =====
-- A thermocouple at 25 °C with the board at 20 °C.
use Prim.Native.String.{String}
use gsw.Prelude.{
  ℕ, ◌+◌, ◌-◌, ◌≡◌, refl, true, List, [], ◌∷◌, Exec, ok, err, fault, RetType, ltb, arith, Option,
  none, some, lookup, replicate, ap, ◌≢◌, ◌*◌, ◌^◌, get_or,
}
use gsw.Prelude.Int.{pos_part}
use gsw.Text.{Text, codes, text_eq, stoi, words}
use gsw.Vcm.Types.{MeasurementInfo, gsw_little_endian, int_type, unsigned_type}
use gsw.Vcm.Config.{Vcm, named_vcm}
use gsw.Vcm.Parse as Parse
use gsw.Vcm.Parse.Layout.{IsLaidOut}
use gsw.Vcm.Parse.Sound.{init-IsLaidOut}
use gsw.Telemetry.Shm.State as State
use gsw.Telemetry.Shm.State.{TelemetryShm}
use gsw.Telemetry.Writer as Writer
use gsw.Telemetry.Writer.{TelemetryWriter}
use gsw.Telemetry.Writer.Laws.{init-IsFitted}
use gsw.Telemetry.Viewer.{TelemetryViewer, get_uint}
use gsw.Daq.{Floats, run_max31855k_thermocouple}
use gsw.Daq.Polynomial.{nearest}
use gsw.Daq.Laws.{Outputs, IsWired, IsWord, Reports, arguments, run_max31855k_thermocouple-Reports}

abbrev no_vcm : Vcm
unfolding named_vcm
no_vcm = named_vcm gsw_little_endian [] (codes "config") 0

abbrev config : List Text
config =
    codes "protocol = udp"
    ∷ codes "R 4 int unsigned little"
    ∷ codes "C 1 int unsigned little"
    ∷ codes "T 8 float signed little"
    ∷ codes "A 8 float signed little"
    ∷ codes "X 8 float signed little"
    ∷ codes "virtual {"
    ∷ codes "R"
    ∷ codes "C"
    ∷ codes "T"
    ∷ codes "A"
    ∷ codes "X"
    ∷ codes "}"
    ∷ []

abbrev parsed : Exec Vcm → Vcm
parsed (ok v) = v
parsed (err e) = no_vcm
parsed fault = no_vcm

abbrev vcm : Vcm
unfolding Parse.init stoi words named_vcm
vcm = parsed (Parse.init (λ _ a. a) no_vcm config)

vcm-IsLaidOut : IsLaidOut vcm.packets vcm.addr_map
unfolding Parse.init stoi words named_vcm
vcm-IsLaidOut =
    (init-IsLaidOut (λ _ a. a) no_vcm vcm config
      (record { packets = refl; num_packets = refl; addr_map = refl }) (omega arith) (ground arith)
      refl).1

abbrev found : Option MeasurementInfo → MeasurementInfo
found none = record {
  locations = [];
  size = 0;
  endianness = gsw_little_endian;
  type = int_type;
  sign = unsigned_type;
}
found (some m) = m

abbrev meas : String → MeasurementInfo
unfolding Parse.init stoi words named_vcm
meas name = found (lookup (codes name) vcm.addr_map)

abbrev writer : TelemetryWriter
unfolding Writer.init Parse.init stoi words named_vcm
writer = Writer.init vcm

abbrev handle : TelemetryShm
unfolding State.open_shm State.init Parse.init stoi words named_vcm
handle = State.open_shm (State.init vcm.packets)

-- The reading has 100 for the remote temperature and 320 for the ambient one.
abbrev reading_of : ℕ
reading_of = 100 * 2 ^ 18 + 320 * 2 ^ 4

abbrev viewer : TelemetryViewer
unfolding Parse.init stoi words named_vcm
viewer = record {
  vcm = vcm;
  check_all = true;
  packet_ids = 0 ∷ [];
  packet_sizes = 29 ∷ [];
  packet_buffers = some (0x00 ∷ 0x14 ∷ 0x90 ∷ 0x01 ∷ replicate 25 0) ∷ [];
}

-- Some machine: numbers for doubles.
abbrev machine : Floats
machine = record {
  basic = record {
    add = λ a b. a + b;
    sub = λ a b. a - b;
    div = λ a b. a;
    greater = λ a b. ltb b a;
    of_uint64 = λ n. n;
  };
  mul = λ a b. a;
  neg = λ a. 0;
  sqrt = λ a. a;
  of_int = pos_part;
}

abbrev outputs : Outputs
unfolding Parse.init stoi words named_vcm
outputs = record {
  status = codes "C";
  remote = codes "T";
  ambient = codes "A";
  corrected = codes "X";
  status_of = meas "C";
  remote_in = meas "T";
  ambient_in = meas "A";
  corrected_in = meas "X";
}

-- Two names of one letter.
two_names : (a b : ℕ) → a ≢ b → a ∷ [] ≢ b ∷ []
two_names a b ne e = ne (ap (λ (name : List ℕ). get_or name 0 0) e)

outputs-IsWired : IsWired vcm outputs
unfolding Parse.init stoi words named_vcm
outputs-IsWired = record {
  laid_out = vcm-IsLaidOut;
  at_status = refl;
  at_remote = refl;
  at_ambient = refl;
  at_corrected = refl;
  status_size = refl;
  remote_size = refl;
  ambient_size = refl;
  corrected_size = refl;
  status_apart = (
    two_names b'T' b'C' (ground arith),
    two_names b'A' b'C' (ground arith),
    two_names b'X' b'C' (ground arith),
  );
  remote_apart = (two_names b'A' b'T' (ground arith), two_names b'X' b'T' (ground arith));
  ambient_apart = two_names b'X' b'A' (ground arith);
}

viewer_reads : get_uint viewer handle (meas "R") ≡ ok reading_of
unfolding get_uint gsw.Telemetry.Viewer.latest_data gsw.Telemetry.Shm.Query.update_value
    gsw.Convert.To.convert_to_uint32 State.open_shm State.init Parse.init stoi words named_vcm
viewer_reads = refl

-- The scales, the limits of the ranges and DAQ_ADC_SCALE's factor.
literals_are_nearest :
    (nearest 25 2 0x3FD0000000000000 ≡ true)
    × (nearest 625 4 0x3FB0000000000000 ≡ true)
    × (nearest 41276 3 0x4044A353F7CED917 ≡ true)
    × (nearest 5891 3 0x401790624DD2F1AA ≡ true)
    × (nearest 20664 3 0x4034A9FBE76C8B44 ≡ true)
    × (nearest 54886 3 0x404B716872B020C5 ≡ true)
    × (nearest 2442 3 0x400389374BC6A7F0 ≡ true)
literals_are_nearest = (refl, refl, refl, refl, refl, refl, refl)

reading-IsWord : IsWord reading_of 100 0 320
reading-IsWord = record {
  reserved = 0;
  low = 0;
  sum = omega arith;
  reserved_bound = omega arith;
  f_bound = omega arith;
  a_bound = omega arith;
  low_bound = omega arith;
}

run_max31855k_thermocouple-Reports_example :
    (w : TelemetryWriter) × (ret : RetType) × (run_max31855k_thermocouple machine viewer handle
        writer
        (arguments (meas "R") outputs)
      ≡ ok (w, ret))
    × Reports machine writer w outputs 100 0 320 ret
unfolding Writer.init Parse.init stoi words named_vcm
run_max31855k_thermocouple-Reports_example =
    run_max31855k_thermocouple-Reports machine viewer handle writer (meas "R") outputs reading_of
      100 0 320 (init-IsFitted vcm) outputs-IsWired viewer_reads reading-IsWord
