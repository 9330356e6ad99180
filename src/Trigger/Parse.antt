-- ===== src/Trigger/Parse.antt =====
-- `parse_trigger_file` of lib/trigger/src/trigger.cpp, with the table of include/lib/trigger/map.h.
pub mod Laws
mod Tests
use mathlib.Core.Bool.{not}
use gsw.Prelude.{
  ℕ, ◌+◌, ◌-◌, ◌^◌, Bool, true, false, ◌||◌, Option, none, some, List, [], ◌∷◌, ◌++◌, Exec, ok, err,
  failure, ◌>>=◌, ◌>>◌, guard, ltb, leb, ◌==◌, if◌then◌else◌, length, drop, same_list, nat_eq,
  or_fail,
}
use gsw.Text.{Text, codes, reads_as, token, words, is_space}
use gsw.Vcm.Types.{MeasurementInfo}
use gsw.Vcm.Config.{Vcm, get_info}

-- The functions of the table.
pub data TriggerFunc : Type 0 where
  copy sum_uint rolling_avg_double_20 max_double min_double daq_adc_scale : TriggerFunc
  max31855k_thermocouple pcb1403_current_excite pressure_transducer_8252 : TriggerFunc
  ltljs_current_excite solenoid_state_to_str igniter_state_to_str : TriggerFunc
  mode_state_to_str safe_state_to_str velocity_double : TriggerFunc

-- `trigger_map_t`
pub record TriggerMap : Type 0 where
  pub name : Text
  pub func : TriggerFunc
  pub min_args : ℕ
  pub max_args : ℕ

abbrev entry : Text → TriggerFunc → ℕ → ℕ → TriggerMap
entry name func lo hi = record { name = name; func = func; min_args = lo; max_args = hi }

abbrev uint_max : ℕ
uint_max = 2 ^ 32 - 1

unfoldable pub trigger_func_list : List TriggerMap
trigger_func_list =
    entry (codes "COPY") copy 2 2
    ∷ entry (codes "SUM_UINT") sum_uint 3 uint_max
    ∷ entry (codes "ROLLING_AVG_DOUBLE_20") rolling_avg_double_20 2 2
    ∷ entry (codes "MAX_DOUBLE") max_double 2 2
    ∷ entry (codes "MIN_DOUBLE") min_double 2 2
    ∷ entry (codes "DAQ_ADC_SCALE") daq_adc_scale 2 2
    ∷ entry (codes "MAX31855K_THERMOCOUPLE") max31855k_thermocouple 5 5
    ∷ entry (codes "PCB1403_CURRENT_EXCITE") pcb1403_current_excite 2 2
    ∷ entry (codes "PRESSURE_TRANSDUCER_8252") pressure_transducer_8252 2 2
    ∷ entry (codes "LTLJS_CURRENT_EXCITE") ltljs_current_excite 2 2
    ∷ entry (codes "SOLENOID_STATE_TO_STR") solenoid_state_to_str 2 2
    ∷ entry (codes "IGNITER_STATE_TO_STR") igniter_state_to_str 2 2
    ∷ entry (codes "MODE_STATE_TO_STR") mode_state_to_str 2 2
    ∷ entry (codes "SAFE_STATE_TO_STR") safe_state_to_str 2 2
    ∷ entry (codes "VELOCITY_DOUBLE") velocity_double 2 2
    ∷ []

-- `trigger_t`
pub record Trigger : Type 0 where
  pub unique_id : ℕ
  pub meas : MeasurementInfo
  pub func : TriggerFunc
  pub args : List MeasurementInfo

find_func : Text → List TriggerMap → Option TriggerMap
find_func name [] = none
find_func name (t ∷ ts) = if same_list t.name name then some t else find_func name ts

-- Whether the stream is at the end of the line behind its last token.
abbrev ends_in_space : Text → Bool
ends_in_space [] = false
ends_in_space (c ∷ []) = is_space c
ends_in_space (c ∷ d ∷ cs) = ends_in_space (d ∷ cs)

abbrev last_or : Text → List Text → Text
last_or d [] = d
last_or d (t ∷ ts) = last_or t ts

-- The rounds of `while(!ss.eof()) { ss >> tok; ... }`: where white space ends the line, the last
-- read fails and leaves `tok` as it was.
abbrev arg_tokens : Text → List Text
arg_tokens line =
    let rest = drop 2 (words line) in
    if ends_in_space line then rest ++ last_or [] rest ∷ [] else rest

find_args : Vcm → List Text → Exec (List MeasurementInfo)
find_args v [] = ok []
find_args v (tok ∷ toks) = do m ← or_fail (get_info v tok); ms ← find_args v toks; ok (m ∷ ms)

abbrev is_blank : Text → Bool
is_blank [] = true
is_blank (c ∷ cs) = c == b'#'

-- A line that is neither blank nor a comment; `unique_id` is the number of triggers so far.
pub trigger_line : Vcm → ℕ → Text → Exec Trigger
unfolding find_func find_args
trigger_line v unique_id line = do
  guard (not (reads_as (token line 0) "" || reads_as (token line 1) "")) failure
  meas ← or_fail (get_info v (token line 0))
  t ← or_fail (find_func (token line 1) trigger_func_list)
  args ← find_args v (arg_tokens line)
  guard (not (ltb (length args) t.min_args)) failure
  guard (not (ltb t.min_args (length args))) failure
  ok (record { unique_id = unique_id; meas = meas; func = t.func; args = args })

parse_loop : Vcm → ℕ → List Text → List Trigger → Exec (List Trigger)
parse_loop v unique_id [] triggers = ok triggers
parse_loop v unique_id (line ∷ lines) triggers = elim (is_blank line) [
  | true ↦ parse_loop v unique_id lines triggers
  | false ↦
      trigger_line v unique_id line >>= λ t. parse_loop v (unique_id + 1) lines (triggers ++ t ∷ [])
]

-- The lines of the file are appended to `triggers`.
pub parse_trigger_file : Vcm → List Text → List Trigger → Exec (List Trigger)
unfolding parse_loop
parse_trigger_file v lines triggers = parse_loop v 0 lines triggers
