-- ===== src/Telemetry/Writer/Holds.antt =====
-- Several writes of measurements, one behind another.
use gsw.Prelude.{
  ℕ, ◌+◌, ◌<◌, ◌≡◌, ◌≢◌, refl, sym, ap, ◌∙◌, some, List, [], ◌∷◌, ok, length, lookup, All,
}
use gsw.Text.{Text, text_eq}
use gsw.Vcm.Types.{MeasurementInfo, LocationInfo}
use gsw.Vcm.Config.{Vcm}
use gsw.Vcm.Parse.Layout.{IsLaidOut, IsAt}
use gsw.Telemetry.Writer.{TelemetryWriter, write}
use gsw.Telemetry.Writer.Copies.{sent}
use gsw.Telemetry.Writer.Places.{IsFitted, IsTarget, byte}
use gsw.Telemetry.Writer.Laws.{write_name-Stored, write_name-write}

-- `w` comes from `w₀` by writes of these measurements.
pub record IsBehind (w₀ w : TelemetryWriter) (names : List Text) : Type 0 where
  pub same_vcm : w.vcm ≡ w₀.vcm
  pub fitted : IsFitted w
  pub others :
      (other : Text) (mb : MeasurementInfo) (lb : LocationInfo) (k : ℕ)
      → All (λ name. name ≢ other) names
      → IsAt w₀.vcm.addr_map other mb lb
      → k < mb.size
      → byte w lb.packet_index (lb.offset + k) ≡ byte w₀ lb.packet_index (lb.offset + k)

-- Each place of the measurement in a virtual packet has these bytes of a host's value.
abbrev pub Holds : TelemetryWriter → TelemetryWriter → Text → MeasurementInfo → List ℕ → Type 0
Holds w₀ w name meas src =
    (la : LocationInfo) (k : ℕ)
    → IsAt w₀.vcm.addr_map name meas la
    → IsTarget w₀ meas.size la k
    → byte w la.packet_index (la.offset + k) ≡ sent w₀.vcm.sys_endianness meas meas.size src k

pub start-IsBehind : (w : TelemetryWriter) → IsFitted w → IsBehind w w []
start-IsBehind w f = record { same_vcm = refl; fitted = f; others = λ other mb lb k e at low. refl }

pub write-Holds :
    (w₀ w : TelemetryWriter) (names : List Text) (name : Text) (meas : MeasurementInfo)
    (src : List ℕ) (len : ℕ)
    → IsBehind w₀ w names
    → IsLaidOut w₀.vcm.packets w₀.vcm.addr_map
    → lookup name w₀.vcm.addr_map ≡ some meas
    → meas.size ≡ len
    → length src ≡ len
    → (w' : TelemetryWriter) × (write w meas src len ≡ ok w')
      × IsBehind w₀ w' (name ∷ names)
      × Holds w₀ w' name meas src
      × ((other : Text) (mo : MeasurementInfo) (other_src : List ℕ)
          → name ≢ other
          → Holds w₀ w other mo other_src
          → Holds w₀ w' other mo other_src)
write-Holds w₀ w names name meas src len b laid at size l =
    let (w', e, st) =
      write_name-Stored w name meas src b.fitted (rw b.same_vcm laid) (rw b.same_vcm at)
        (l ∙ sym size) in
    (
      w',
      ap (λ (n : ℕ). write w meas src n) (sym size)
          ∙ sym (write_name-write w name meas src meas.size (rw b.same_vcm at))
          ∙ e,
      record {
        same_vcm = st.same_vcm ∙ b.same_vcm;
        fitted = st.fitted;
        others = λ other mb lb k ne at' low.
            st.others other mb lb k ne.0 (rw b.same_vcm at') low
            ∙ b.others other mb lb k ne.1 at' low;
      },
      λ la k at' target.
          st.own la k (rw b.same_vcm at') (record {
            packet = target.packet;
            found = rw b.same_vcm target.found;
            virtual = target.virtual;
            low = target.low;
          })
          ∙ ap (λ (v : Vcm). sent v.sys_endianness meas meas.size src k) b.same_vcm,
      λ other mo other_src ne held la k at' target.
          st.others other mo la k ne (rw b.same_vcm at') target.low ∙ held la k at' target,
    )
