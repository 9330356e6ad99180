-- ===== src/Trigger/Basic.antt =====
-- The functions of lib/trigger/src/basic.cpp on a little-endian host. A double is its bits; arithmetic on
-- doubles is the machine's, and a parameter.
pub mod Laws
mod Tests
use gsw.Prelude.{
  ℕ, ◌+◌, ◌-◌, ◌*◌, ◌/◌, ◌%◌, ◌^◌, Bool, true, false, Option, none, some, List, [], ◌∷◌, Exec, ok,
  err, fault, ◌>>=◌, ◌>>◌, guard, load, failure, nochange, ◌==◌, if◌then◌else◌,
}
use gsw.Vcm.Types.{MeasurementInfo}
use gsw.Bytes.{le_bytes}
use gsw.Telemetry.Shm.State.{TelemetryShm}
use gsw.Telemetry.Writer.{TelemetryWriter, write, write_raw}
use gsw.Telemetry.Viewer.{TelemetryViewer, get_uint, get_double, get_place}

-- `arg_t`: a function of the list of arguments, on the viewer with its object, and the writer.
abbrev pub Handle : Type 0
Handle =
    TelemetryViewer → TelemetryShm → TelemetryWriter → List MeasurementInfo → Exec TelemetryWriter

-- If the read fails, `src` is not initialised.
abbrev pub source_of : Exec (List ℕ) → Exec (List ℕ)
source_of (ok src) = ok src
source_of _ = fault

unfoldable pub run_copy : Handle
run_copy tv t tw args = do
  from ← load args 0
  to ← load args 1
  guard (from.size == to.size) failure
  src ← source_of (get_place tv t from)
  write_raw tw to src from.size

-- The loop over the arguments from 1 on.
unfoldable pub sum_loop : TelemetryViewer → TelemetryShm → List MeasurementInfo → ℕ → Exec ℕ
sum_loop tv t [] sum = ok sum
sum_loop tv t (arg ∷ args) sum = do
  temp ← get_uint tv t arg
  sum_loop tv t args ((sum + temp) % 2 ^ 32)

unfoldable pub run_sum_uint : Handle
unfolding sum_loop
run_sum_uint tv t tw [] = fault
run_sum_uint tv t tw (to ∷ args) = do sum ← sum_loop tv t args 0; write tw to (le_bytes 4 sum) 4

-- What the machine does with doubles.
pub record Doubles : Type 0 where
  pub add : ℕ → ℕ → ℕ
  pub sub : ℕ → ℕ → ℕ
  pub div : ℕ → ℕ → ℕ
  pub greater : ℕ → ℕ → Bool
  pub of_uint64 : ℕ → ℕ

abbrev pub write_double : TelemetryWriter → MeasurementInfo → ℕ → Exec TelemetryWriter
write_double tw to x = write tw to (le_bytes 8 x) 8

unfoldable pub run_rolling_avg_double_20 : Doubles → Handle
run_rolling_avg_double_20 d tv t tw args = do
  mean ← load args 1
  m ← get_double tv t mean
  sample ← load args 0
  x ← get_double tv t sample
  write_double tw mean (d.add m (d.div (d.sub x m) (d.of_uint64 20)))

unfoldable pub run_max_double : Doubles → Handle
run_max_double d tv t tw args = do
  sample ← load args 0
  x ← get_double tv t sample
  largest ← load args 1
  max ← get_double tv t largest
  if d.greater x max then write_double tw largest x else err nochange

unfoldable pub run_min_double : Doubles → Handle
run_min_double d tv t tw args = do
  sample ← load args 0
  x ← get_double tv t sample
  smallest ← load args 1
  min ← get_double tv t smallest
  if d.greater min x then write_double tw smallest x else err nochange

-- `last_p` and `last_us`, which stay from call to call.
pub record Velocity : Type 0 where
  pub last_p : ℕ
  pub last_us : ℕ

-- `curr_time` is the clock's, in microseconds; none is a failure of `clock_gettime`. The statics stay
-- as they are when a call fails early.
unfoldable pub run_velocity_double :
    Doubles
    → Option ℕ
    → TelemetryViewer
    → TelemetryShm
    → TelemetryWriter
    → List MeasurementInfo
    → Velocity
    → Velocity × Exec TelemetryWriter
run_velocity_double d curr_time tv t tw args s = elim (load args 0 >>= get_double tv t) [
  | err e ↦ (s, err failure)
  | fault ↦ (s, fault)
  | ok p ↦
      let delta_p : ℕ = d.sub s.last_p p in
      let s' : Velocity = record s { last_p = p } in
      elim curr_time [
        | none ↦ (s', err failure)
        | some now ↦
            if s.last_us == 0
            then (s', load args 1 >>= λ to. write_double tw to (d.of_uint64 0))
            else (
              record s' { last_us = now },
              load args 1 >>= λ to.
                  write_double tw to
                    (d.div delta_p (d.of_uint64 ((now + 2 ^ 64 - s.last_us) % 2 ^ 64 / 1000000))),
            )
      ]
]
