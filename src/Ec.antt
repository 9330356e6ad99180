-- ===== src/Ec.antt =====
-- lib/ec/src/ec.cpp: triggers that put the states of the engine controller into words.
pub mod Laws
mod Tests
use Prim.Native.String.{String}
use gsw.Prelude.{
  ℕ, List, [], ◌∷◌, ◌++◌, Exec, ok, err, fault, ◌>>=◌, load, failure, ◌==◌, if◌then◌else◌,
}
use gsw.Text.{Text, codes}
use gsw.Vcm.Types.{MeasurementInfo}
use gsw.Telemetry.Shm.State.{TelemetryShm}
use gsw.Telemetry.Writer.{TelemetryWriter, write_raw}
use gsw.Telemetry.Viewer.{TelemetryViewer, get_uint}

-- The string literal, with its terminating NUL, and `len`.
abbrev pub str_len : String → ℕ → List ℕ × ℕ
str_len text len = (codes text ++ 0 ∷ [], len)

abbrev pub solenoid_text : ℕ → List ℕ × ℕ
solenoid_text state =
    if state == 0
    then str_len "CLOSED" 7
    else if state == 1
    then str_len "OPEN" 5
    else str_len "ERROR" 6

abbrev pub igniter_text : ℕ → List ℕ × ℕ
igniter_text state =
    if state == 0
    then str_len "OFF" 4
    else if state == 1
    then str_len "SPARK" 6
    else str_len "ERROR" 6

abbrev pub mode_text : ℕ → List ℕ × ℕ
mode_text state =
    if state == 0
    then str_len "DISABLED" 9
    else if state == 1
    then str_len "COLD" 5
    else if state == 69
    then str_len "TEST" 5
    else if state == 99
    then str_len "HOT" 4
    else str_len "ERROR" 6

abbrev pub safe_text : ℕ → List ℕ × ℕ
safe_text state =
    if state == 0
    then str_len "IDLE" 5
    else if state == 1
    then str_len "SAFING" 7
    else str_len "ERROR" 6

-- A read, or FAILURE.
abbrev pub or_failure : Exec ℕ → Exec ℕ
or_failure (ok state) = ok state
or_failure (err code) = err failure
or_failure fault = fault

-- What the four functions share: `text_of` is their switch.
abbrev pub state_to_str :
    (ℕ → List ℕ × ℕ)
    → TelemetryViewer
    → TelemetryShm
    → TelemetryWriter
    → List MeasurementInfo
    → Exec TelemetryWriter
state_to_str text_of tv t tw args = do
  from ← load args 0
  state ← or_failure (get_uint tv t from)
  to ← load args 1
  write_raw tw to (text_of state).0 (text_of state).1

pub data StateFunc : Type 0 where
  solenoid_state_to_str igniter_state_to_str mode_state_to_str safe_state_to_str : StateFunc

abbrev pub text_by : StateFunc → ℕ → List ℕ × ℕ
text_by solenoid_state_to_str = solenoid_text
text_by igniter_state_to_str = igniter_text
text_by mode_state_to_str = mode_text
text_by safe_state_to_str = safe_text

unfoldable pub run_state_to_str :
    StateFunc
    → TelemetryViewer
    → TelemetryShm
    → TelemetryWriter
    → List MeasurementInfo
    → Exec TelemetryWriter
run_state_to_str f tv t tw args = state_to_str (text_by f) tv t tw args
