-- ===== src/Trigger/Basic/Laws.antt =====
-- What a sum of measurements comes to, from its trigger over the writer to the viewer.
use gsw.Prelude.{
  ℕ, ◌+◌, ◌%◌, ◌^◌, ◌<◌, ◌≡◌, refl, sym, ap, ◌∙◌, Bool, some, List, [], ◌∷◌, ok, get_elem?, lookup,
  arith,
}
use gsw.Text.{Text, text_eq}
use gsw.Vcm.Types.{MeasurementInfo, LocationInfo}
use gsw.Bytes.{le_bytes, le_value}
use gsw.Telemetry.Shm.State.{Shared, TelemetryShm}
use gsw.Telemetry.Writer.{TelemetryWriter, write, write_name}
use gsw.Telemetry.Writer.Laws.{write_name-write}
use gsw.Telemetry.Writer.Flush.{flush}
use gsw.Telemetry.Viewer.{TelemetryViewer, get_uint}
use gsw.Telemetry.Viewer.Tracking.{IsTracking}
use gsw.Telemetry.Viewer.Update.{Snapshot}
use gsw.Telemetry.Viewer.Latest.{AreTracked}
use gsw.Telemetry.Viewer.Values.{IsUint}
use gsw.Telemetry.RoundTrip.{IsStation, AreVirtual, write_name-get_uint}
use gsw.Trigger.Basic.{run_sum_uint, sum_loop}

-- The arguments read as these numbers.
abbrev pub AreValues : TelemetryViewer → TelemetryShm → List MeasurementInfo → List ℕ → Type 0
AreValues tv t [] [] = Unit
AreValues tv t [] (x ∷ xs) = ⊥
AreValues tv t (arg ∷ args) [] = ⊥
AreValues tv t (arg ∷ args) (x ∷ xs) = (get_uint tv t arg ≡ ok x) × AreValues tv t args xs

abbrev pub sum_of : List ℕ → ℕ
sum_of [] = 0
sum_of (x ∷ xs) = x + sum_of xs

sum_loop-eq :
    (tv : TelemetryViewer) (t : TelemetryShm) (args : List MeasurementInfo) (xs : List ℕ) (sum : ℕ)
    → AreValues tv t args xs
    → sum < 2 ^ 32
    → sum_loop tv t args sum ≡ ok ((sum + sum_of xs) % 2 ^ 32)
unfolding sum_loop
sum_loop-eq tv t [] [] sum h low = let same : (sum + 0) % 2 ^ 32 ≡ sum = omega arith in rw same refl
sum_loop-eq tv t [] (x ∷ xs) sum h low = absurd h
sum_loop-eq tv t (arg ∷ args) [] sum h low = absurd h
sum_loop-eq tv t (arg ∷ args) (x ∷ xs) sum h low =
    let same : ((sum + x) % 2 ^ 32 + sum_of xs) % 2 ^ 32 ≡ (sum + (x + sum_of xs)) % 2 ^ 32 =
      omega arith in
    rw h.0
      (sum_loop-eq tv t args xs ((sum + x) % 2 ^ 32) h.1 (omega arith) ∙ ap (λ (n : ℕ). ok n) same)

four_bytes : (n : ℕ) → n < 2 ^ 32 → le_value (le_bytes 4 n) ≡ n
four_bytes n h = omega arith

-- The trigger SUM_UINT of a 4-byte unsigned measurement, whose places are in virtual packets, and of
-- arguments that the trigger's viewer reads as numbers: when it has written and the writer is
-- flushed, a viewer that tracks the measurement and has updated from the memory that the flush has
-- left reads their sum modulo 2 ^ 32. (Host, layout and shared memory are as for a write by name.)
pub run_sum_uint-get_uint :
    (w w₁ w₂ : TelemetryWriter) (r : TelemetryShm) (s s' : Shared) (logs : ℕ → Bool) (good : Bool)
    (name : Text) (meas : MeasurementInfo) (tv v v' : TelemetryViewer) (t t' : TelemetryShm)
    (args : List MeasurementInfo) (xs : List ℕ)
    → IsStation w r s
    → lookup name w.vcm.addr_map ≡ some meas
    → IsUint meas
    → meas.size ≡ 4
    → AreVirtual w.vcm meas.locations
    → (n : ℕ) × (la : LocationInfo) × (get_elem? meas.locations n ≡ some la)
    → AreValues tv t args xs
    → run_sum_uint tv t w (meas ∷ args) ≡ ok w₁
    → flush logs r s w₁ ≡ ok (s', w₂, good)
    → v.vcm ≡ w.vcm
    → IsTracking v
    → AreTracked v meas.locations
    → Snapshot v v' t' s'
    → get_uint v' t' meas ≡ ok (sum_of xs % 2 ^ 32)
unfolding run_sum_uint
run_sum_uint-get_uint w w₁ w₂ r s s' logs good name meas tv v v' t t' args xs o at u four virtual
      some_place values ran flushed same k h p =
    let sum : ℕ = sum_of xs % 2 ^ 32 in
    let added : sum_loop tv t args 0 ≡ ok sum =
      sum_loop-eq tv t args xs 0 values (omega arith) ∙ ap (λ (n : ℕ). ok n) (omega arith) in
    let wrote : write w meas (le_bytes 4 sum) 4 ≡ ok w₁ = rw added at ran in
    let named : write_name w name (le_bytes 4 sum) meas.size ≡ ok w₁ =
      ap (λ (n : ℕ). write_name w name (le_bytes 4 sum) n) four
      ∙ write_name-write w name meas (le_bytes 4 sum) 4 at
      ∙ wrote in
    write_name-get_uint w w₁ w₂ r s s' logs good name meas (le_bytes 4 sum) v v' t' o at u
      (sym four) virtual some_place named flushed same k h p
    ∙ ap (λ (n : ℕ). ok n) (four_bytes sum (omega arith))
