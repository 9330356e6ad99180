-- ===== src/Daq.antt =====
-- lib/daq/src/sensors.cpp on a little-endian host: triggers that scale readings of sensors. A double is
-- its bits, here with the source's literal beside it; arithmetic on doubles is a parameter.
pub mod Polynomial
pub mod Laws
mod Tests
use gsw.Prelude.{
  ℕ, ◌+◌, ◌-◌, ◌*◌, ◌/◌, ◌%◌, ◌^◌, Bool, true, false, List, [], ◌∷◌, Exec, ok, err, fault, ◌>>=◌,
  load, RetType, success, failure, ltb, ◌==◌, if◌then◌else◌,
}
use gsw.Prelude.Int.{ℤ, pos, negsuc}
use gsw.Vcm.Types.{MeasurementInfo}
use gsw.Bytes.{le_bytes}
use gsw.Telemetry.Shm.State.{TelemetryShm}
use gsw.Telemetry.Writer.{TelemetryWriter, write}
use gsw.Telemetry.Viewer.{TelemetryViewer, get_uint, get_int, get_double}
use gsw.Trigger.Basic.{Doubles}

-- What the functions use of doubles, with the conversion from an int.
pub record Floats : Type 0 where
  pub basic : Doubles
  pub mul : ℕ → ℕ → ℕ
  pub neg : ℕ → ℕ
  pub sqrt : ℕ → ℕ
  pub of_int : ℤ → ℕ

-- What a function leaves in the writer, and what it returns.
abbrev pub Run : Type 0
Run = Exec (TelemetryWriter × RetType)

abbrev pub Sensor : Type 0
Sensor = TelemetryViewer → TelemetryShm → TelemetryWriter → List MeasurementInfo → Run

-- A read, or FAILURE.
abbrev pub reading {ℓ} : {A : Type ℓ} → Exec A → TelemetryWriter → (A → Run) → Run
reading (ok value) tw next = next value
reading (err code) tw next = ok (tw, failure)
reading fault tw next = fault

-- The int32_t of these bits.
abbrev pub int32 : ℕ → ℤ
int32 bits = if ltb bits (2 ^ 31) then pos bits else negsuc (2 ^ 32 - 1 - bits)

-- A write, or FAILURE. A write that fails leaves the writer as it was.
abbrev pub after_write : Exec TelemetryWriter → TelemetryWriter → (TelemetryWriter → Run) → Run
after_write (ok tw') tw next = next tw'
after_write (err code) tw next = ok (tw, failure)
after_write fault tw next = fault

abbrev pub writing : TelemetryWriter → MeasurementInfo → List ℕ → ℕ → (TelemetryWriter → Run) → Run
writing tw to src len next = after_write (write tw to src len) tw next

abbrev pub finish : TelemetryWriter → Run
finish tw = ok (tw, success)

-- The bit for a fault of the thermocouple.
abbrev pub connected_of : ℕ → ℕ
connected_of data_read = if data_read / 2 ^ 16 % 2 == 0 then 1 else 0

module _ (d : Floats) where
  unfoldable pub run_daq_adc_scale : Sensor
  run_daq_adc_scale tv t tw args = do
    raw ← load args 0
    reading (get_int tv t raw) tw (λ bits. do
      to ← load args 1
      writing tw to
          (le_bytes 8 (
            d.basic.div (d.mul (d.of_int (int32 bits)) 0x400389374BC6A7F0)  -- 2.442
              (d.of_int (pos (2 ^ 23)))))
          8 finish)

  -- A loop over the coefficients of a polynomial: `t` and `E` go along.
  unfoldable pub poly_loop : List ℕ → ℕ → ℕ → ℕ → ℕ
  poly_loop [] vout t e = t
  poly_loop (c ∷ coefficients) vout t e =
      poly_loop coefficients vout (d.basic.add t (d.mul c e)) (d.mul e vout)

  abbrev pub dr0 : List ℕ
  dr0 =
      d.of_int (pos 0)  -- 0.0E0
      ∷ 0x40392C6801711948  -- 2.5173462E1
      ∷ d.neg 0x3FF2A91D656B94A4  -- 1.1662878E0
      ∷ d.neg 0x3FF1557547AAB97D  -- 1.0833638E0
      ∷ d.neg 0x3FECBA3F96EEC46E  -- 8.9773540E-1
      ∷ d.neg 0x3FD7E62CCFECBCD7  -- 3.7342377E-1
      ∷ d.neg 0x3FB62D8E90737793  -- 8.6632643E-2
      ∷ d.neg 0x3F85671F8511B36D  -- 1.0450598E-2
      ∷ d.neg 0x3F410369E6A964E4  -- 5.1920577E-4
      ∷ []

  abbrev pub dr1 : List ℕ
  dr1 =
      d.of_int (pos 0)  -- 0.0E0
      ∷ 0x40391563886594AF  -- 2.508355E1
      ∷ 0x3FB41F32F62184E0  -- 7.860106E-2
      ∷ d.neg 0x3FD005213C90AA07  -- 2.503131E-1
      ∷ 0x3FB5497ECF12F82A  -- 8.315270E-2
      ∷ d.neg 0x3F89266F55785780  -- 1.228034E-2
      ∷ 0x3F50101C598742C5  -- 9.804036E-4
      ∷ d.neg 0x3F0723118FE5DFC5  -- 4.413030E-5
      ∷ 0x3EB1BEEED5041D19  -- 1.057734E-6
      ∷ d.neg 0x3E469B94F20E972B  -- 1.052755E-8
      ∷ []

  abbrev pub dr2 : List ℕ
  dr2 =
      d.neg 0x3F8AFE6B8056A782  -- 1.318058E-2
      ∷ 0x404826AF251C193B  -- 4.830222E1
      ∷ d.neg 0x3FFA56249A133C1D  -- 1.646031E0
      ∷ 0x408113C8E8A71DE7  -- 5.464731E2
      ∷ d.neg 0x3F4F9F9B43F14F16  -- 9.650715E-4
      ∷ 0x3EE275A431B5AFB6  -- 8.802193E-6
      ∷ d.neg 0x3E60B376F722EBA7  -- 3.110810E-8
      ∷ []

  abbrev pub less : ℕ → ℕ → Bool
  less a b = d.basic.greater b a

  -- The temperature for a voltage in one of the three ranges, which is corrected and written.
  unfoldable pub correct : TelemetryWriter → List MeasurementInfo → ℕ → ℕ → Run
  unfolding poly_loop
  correct tw args vout ambient =
      let by : List ℕ → Run = λ coefficients. (do
        to ← load args 4
        writing tw to
            (le_bytes 8 (
              d.basic.add (poly_loop coefficients vout (d.of_int (pos 0)) (d.of_int (pos 1)))
                ambient))
            8 finish) in
      if less vout (d.neg 0x401790624DD2F1AA)  -- 5.891
      then ok (tw, failure)
      else if less vout (d.of_int (pos 0))
      then by dr0
      else if less vout 0x4034A9FBE76C8B44  -- 20.664
      then by dr1
      else if less vout 0x404B716872B020C5  -- 54.886
      then by dr2
      else ok (tw, failure)

  -- The remote temperature's 14 bits and the ambient one's 12 bits, each as an int16_t.
  abbrev pub remote_of : ℕ → ℕ
  remote_of data_read = d.mul (d.of_int (pos (data_read / 2 ^ 18))) 0x3FD0000000000000  -- 0.25

  abbrev pub ambient_of : ℕ → ℕ
  ambient_of data_read = d.mul (d.of_int (pos (data_read / 2 ^ 4 % 2 ^ 12))) 0x3FB0000000000000  -- 0.0625

  abbrev pub vout_of : ℕ → ℕ
  vout_of data_read =
      d.mul (d.basic.div 0x4044A353F7CED917 (d.of_int (pos 1000)))  -- 41.276
        (d.basic.sub (remote_of data_read) (ambient_of data_read))

  unfoldable pub run_max31855k_thermocouple : Sensor
  unfolding correct
  run_max31855k_thermocouple tv t tw args = do
    raw ← load args 0
    reading (get_uint tv t raw) tw (λ data_read. do
      status ← load args 1
      writing tw status (connected_of data_read ∷ []) 1 (λ tw₁.
          if connected_of data_read == 0 then finish tw₁ else (do
            remote ← load args 2
            writing tw₁ remote (le_bytes 8 (remote_of data_read)) 8 (λ tw₂. do
              ambient ← load args 3
              writing tw₂ ambient (le_bytes 8 (ambient_of data_read)) 8
                  (λ tw₃. correct tw₃ args (vout_of data_read) (ambient_of data_read))))))

  -- The rest of the functions: a voltage is read, scaled and written.
  abbrev pub scaling : (ℕ → ℕ) → Sensor
  scaling scale tv t tw args = do
    measured ← load args 0
    reading (get_double tv t measured) tw
        (λ vmeas. do to ← load args 1; writing tw to (le_bytes 8 (scale vmeas)) 8 finish)

  abbrev pub pcb1403_force : ℕ → ℕ
  pcb1403_force vmeas =
      let f : ℕ =
        d.mul (d.basic.div (d.basic.div vmeas 0x3F847AE147AE147B) 0x4076000000000000)  -- 0.01, 352.00
          0x400086BCE8533B10  -- 2.06579
      in let a : ℕ = d.neg 0x3DD9E30A032F9ACA  -- 9.417589e-11
        in let b : ℕ = d.neg 0x3F4B11DAE6188CE5  -- 8.261031e-4
          in let c : ℕ = d.basic.sub 0x3F20F74C91CED604 f  -- 1.294404e-4
            in d.basic.div
              (d.basic.sub (d.neg b)
                (d.sqrt (d.basic.sub (d.mul b b) (d.mul (d.mul (d.of_int (pos 4)) a) c))))
              (d.mul (d.of_int (pos 2)) a)

  unfoldable pub run_pcb1403_current_excite : Sensor
  run_pcb1403_current_excite tv t tw args = scaling pcb1403_force tv t tw args

  abbrev pub ltljs_force : ℕ → ℕ
  ltljs_force vmeas =
      d.mul
        (d.mul (d.basic.div (d.basic.div vmeas 0x3F847AE147AE147B) 0x4075E00000000000)  -- 0.01, 350.0
          (d.of_int (pos 500)))
        0x4001A30FCF80DC33  -- 2.20462

  unfoldable pub run_ltljs_current_excite : Sensor
  run_ltljs_current_excite tv t tw args = scaling ltljs_force tv t tw args

  abbrev pub pressure : ℕ → ℕ
  pressure vmeas =
      d.mul
        (d.basic.div (d.basic.sub (d.basic.div vmeas (d.of_int (pos 121))) 0x3F70624DD2F1A9FC)  -- 0.004
          0x3F90624DD2F1A9FC)  -- 0.016
        (d.of_int (pos 1500))

  unfoldable pub run_pressure_transducer_8252 : Sensor
  run_pressure_transducer_8252 tv t tw args = scaling pressure tv t tw args
