-- ===== src/Daq/Laws.antt =====
-- What the MAX31855K's trigger reports.
use gsw.Prelude.{
  subst, ◌+◌, ◌-◌, ◌*◌, ◌<◌, length, Option, none, ℕ, ◌/◌, ◌%◌, ◌^◌, ◌≡◌, ◌≢◌, refl, ap, ◌∙◌, Bool,
  true, false, inl, inr, some, List, [], ◌∷◌, Exec, ok, lookup, RetType, success, failure, arith,
  Bool-cases, ◌==◌, if◌then◌else◌,
}
use gsw.Prelude.Int.{pos}
use gsw.Text.{Text, text_eq}
use gsw.Vcm.Types.{MeasurementInfo}
use gsw.Vcm.Config.{Vcm}
use gsw.Vcm.Parse.Layout.{IsLaidOut}
use gsw.Bytes.{le_bytes}
use gsw.Telemetry.Shm.State.{TelemetryShm}
use gsw.Telemetry.Writer.{TelemetryWriter, write}
use gsw.Telemetry.Writer.Places.{IsFitted}
use gsw.Telemetry.Writer.Holds.{IsBehind, Holds, start-IsBehind, write-Holds}
use gsw.Telemetry.Viewer.{TelemetryViewer, get_uint}
use gsw.Daq.Polynomial.{
  Decimal, AreDoubles, below, middle, above, series, poly_loop-series, dr0-AreDoubles,
  dr1-AreDoubles, dr2-AreDoubles,
}
use gsw.Daq.{
  Floats, Run, writing, after_write, finish, correct, poly_loop, dr0, dr1, dr2, less, remote_of,
  ambient_of, vout_of, connected_of, run_max31855k_thermocouple,
}

-- The outputs of the trigger: the connected status, the two temperatures, and the corrected one.
pub record Outputs : Type 0 where
  pub status : Text
  pub remote : Text
  pub ambient : Text
  pub corrected : Text
  pub status_of : MeasurementInfo
  pub remote_in : MeasurementInfo
  pub ambient_in : MeasurementInfo
  pub corrected_in : MeasurementInfo

-- Four measurements of the configuration, of the sizes that the trigger writes.
pub record IsWired (v : Vcm) (o : Outputs) : Type 0 where
  pub laid_out : IsLaidOut v.packets v.addr_map
  pub at_status : lookup o.status v.addr_map ≡ some o.status_of
  pub at_remote : lookup o.remote v.addr_map ≡ some o.remote_in
  pub at_ambient : lookup o.ambient v.addr_map ≡ some o.ambient_in
  pub at_corrected : lookup o.corrected v.addr_map ≡ some o.corrected_in
  pub status_size : o.status_of.size ≡ 1
  pub remote_size : o.remote_in.size ≡ 8
  pub ambient_size : o.ambient_in.size ≡ 8
  pub corrected_size : o.corrected_in.size ≡ 8
  pub status_apart : (o.remote ≢ o.status) × (o.ambient ≢ o.status) × (o.corrected ≢ o.status)
  pub remote_apart : (o.ambient ≢ o.remote) × (o.corrected ≢ o.remote)
  pub ambient_apart : o.corrected ≢ o.ambient

-- The arguments of the trigger.
abbrev pub arguments : MeasurementInfo → Outputs → List MeasurementInfo
arguments raw o = raw ∷ o.status_of ∷ o.remote_in ∷ o.ambient_in ∷ o.corrected_in ∷ []

-- The output of the sensor as 14 bits of the remote temperature, one that is reserved, one for a
-- fault, 12 bits of the ambient temperature and four more.
pub record IsWord (data_read r f a : ℕ) : Type 0 where
  pub reserved : ℕ
  pub low : ℕ
  pub sum : data_read ≡ r * 2 ^ 18 + reserved * 2 ^ 17 + f * 2 ^ 16 + a * 2 ^ 4 + low
  pub reserved_bound : reserved < 2
  pub f_bound : f < 2
  pub a_bound : a < 2 ^ 12
  pub low_bound : low < 2 ^ 4

module _ (d : Floats) where
  -- r quarters, 4 * 0.25 = 1.
  abbrev pub quarters : ℕ → ℕ
  quarters r = d.mul (d.of_int (pos r)) 0x3FD0000000000000

  -- a sixteenths, 16 * 0.0625 = 1.
  abbrev pub sixteenths : ℕ → ℕ
  sixteenths a = d.mul (d.of_int (pos a)) 0x3FB0000000000000

  -- 41.276 / 1000 for each degree between them.
  abbrev pub millivolts : ℕ → ℕ → ℕ
  millivolts r a =
      d.mul (d.basic.div 0x4044A353F7CED917 (d.of_int (pos 1000)))
        (d.basic.sub (quarters r) (sixteenths a))

-- The coefficients for a voltage, if there are any: none below -5.891 mV and from 54.886 mV.
abbrev pub table : Floats → ℕ → Option (List Decimal)
table d vout =
    if less d vout (d.neg 0x401790624DD2F1AA)
    then none
    else if less d vout (d.of_int (pos 0))
    then some below
    else if less d vout 0x4034A9FBE76C8B44
    then some middle
    else if less d vout 0x404B716872B020C5
    then some above
    else none

-- The sum of the polynomial and the ambient temperature is written if there are coefficients, and
-- FAILURE is returned if not.
abbrev pub Corrected :
    Floats
    → TelemetryWriter
    → TelemetryWriter
    → Outputs
    → ℕ
    → ℕ
    → RetType
    → Option (List Decimal)
    → Type 0
Corrected d w₀ w o vout ambient ret none = ret ≡ failure
Corrected d w₀ w o vout ambient ret (some decimals) =
    (ret ≡ success)
    × (cs : List ℕ) × AreDoubles d decimals cs
    × Holds w₀ w o.corrected o.corrected_in
        (le_bytes 8 (d.basic.add (series d vout cs (length cs)) ambient))

more-IsBehind :
    (w₀ w : TelemetryWriter) (name : Text) (names : List Text)
    → IsBehind w₀ w names
    → IsBehind w₀ w (name ∷ names)
more-IsBehind w₀ w name names b = record {
  same_vcm = b.same_vcm;
  fitted = b.fitted;
  others = λ other mb lb k ne at low. b.others other mb lb k ne.1 at low;
}

abbrev Kept : TelemetryWriter → TelemetryWriter → TelemetryWriter → Text → Type 0
Kept w₀ w w' name =
    (other : Text) (mo : MeasurementInfo) (src : List ℕ)
    → name ≢ other
    → Holds w₀ w other mo src
    → Holds w₀ w' other mo src

same_Kept : (w₀ w : TelemetryWriter) (name : Text) → Kept w₀ w w name
same_Kept w₀ w name other mo src ne held = held

writing-ok :
    (w w' : TelemetryWriter) (to : MeasurementInfo) (src : List ℕ) (len : ℕ)
    (next : TelemetryWriter → Run)
    → write w to src len ≡ ok w'
    → writing w to src len next ≡ next w'
writing-ok w w' to src len next e = ap (λ (x : Exec TelemetryWriter). after_write x w next) e

module _ (d : Floats) (w₀ : TelemetryWriter) (o : Outputs) (wired : IsWired w₀.vcm o) where
  -- A run behind the writes of `names`, with coefficients for the voltage or none.
  abbrev Outcome : TelemetryWriter → List Text → ℕ → ℕ → Run → Option (List Decimal) → Type 0
  Outcome w names vout ambient run coefficients =
      (w' : TelemetryWriter) × (ret : RetType) × (run ≡ ok (w', ret))
      × IsBehind w₀ w' (o.corrected ∷ names)
      × Kept w₀ w w' o.corrected
      × Corrected d w₀ w' o vout ambient ret coefficients

  either :
      (w : TelemetryWriter) (names : List Text) (vout ambient : ℕ) (b : Bool) (x y : Run)
      (s t : Option (List Decimal))
      → Outcome w names vout ambient x s
      → Outcome w names vout ambient y t
      → Outcome w names vout ambient (if b then x else y) (if b then s else t)
  either w names vout ambient true x y s t p q = p
  either w names vout ambient false x y s t p q = q

  correct-Outcome :
      (w : TelemetryWriter) (raw : MeasurementInfo) (names : List Text) (vout ambient : ℕ)
      → IsBehind w₀ w names
      → Outcome w names vout ambient (correct d w (arguments raw o) vout ambient) (table d vout)
  unfolding correct
  correct-Outcome w raw names vout ambient b =
      let bytes : List ℕ → List ℕ = λ coefficients. le_bytes 8 (
        d.basic.add (poly_loop d coefficients vout (d.of_int (pos 0)) (d.of_int (pos 1)))
          ambient) in
      let run : List ℕ → Run =
        λ coefficients. writing w o.corrected_in (bytes coefficients) 8 finish in
      let by : (decimals : List Decimal) (coefficients : List ℕ)
          → AreDoubles d decimals coefficients
          → Outcome w names vout ambient (run coefficients) (some decimals) =
        λ decimals coefficients are.
          let (w', e, b', held, kept) =
            write-Holds w₀ w names o.corrected o.corrected_in (bytes coefficients) 8 b
              wired.laid_out wired.at_corrected wired.corrected_size refl in
          (
            w',
            success,
            writing-ok w w' o.corrected_in (bytes coefficients) 8 finish e,
            b',
            kept,
            (
              refl,
              coefficients,
              are,
              subst
                  (λ x. Holds w₀ w' o.corrected o.corrected_in (le_bytes 8 (d.basic.add x ambient)))
                  (poly_loop-series d vout coefficients) held,
            ),
          ) in
      let failed : Outcome w names vout ambient (ok (w, failure)) none = (
        w,
        failure,
        refl,
        more-IsBehind w₀ w o.corrected names b,
        same_Kept w₀ w o.corrected,
        refl,
      ) in
      either w names vout ambient _ _ _ _ _ failed (
        either w names vout ambient _ _ _ _ _ (by below (dr0 d) (dr0-AreDoubles d)) (
          either w names vout ambient _ _ _ _ _ (by middle (dr1 d) (dr1-AreDoubles d))
            (either w names vout ambient _ _ _ _ _ (by above (dr2 d) (dr2-AreDoubles d)) failed)))

-- What the trigger leaves in the writer `w` and returns, for a reading of the fields `r`, `f` and `a`.
pub record Reports (d : Floats) (w₀ w : TelemetryWriter) (o : Outputs) (r f a : ℕ) (ret : RetType)
    : Type 0 where
  pub behind : IsBehind w₀ w (o.corrected ∷ o.ambient ∷ o.remote ∷ o.status ∷ [])
  pub status : Holds w₀ w o.status o.status_of ((1 - f) ∷ [])
  pub off : f ≡ 1 → (ret ≡ success) × IsBehind w₀ w (o.status ∷ [])
  pub remote : f ≡ 0 → Holds w₀ w o.remote o.remote_in (le_bytes 8 (quarters d r))
  pub ambient : f ≡ 0 → Holds w₀ w o.ambient o.ambient_in (le_bytes 8 (sixteenths d a))
  pub corrected :
      f ≡ 0
      → Corrected d w₀ w o (millivolts d r a) (sixteenths d a) ret (table d (millivolts d r a))

-- The run, by the results of its writes.
run_connected :
    (d : Floats) (tv : TelemetryViewer) (t : TelemetryShm) (w w₁ w₂ w₃ : TelemetryWriter)
    (raw : MeasurementInfo) (o : Outputs) (data_read : ℕ)
    → get_uint tv t raw ≡ ok data_read
    → (data_read / 2 ^ 16 % 2 == 0) ≡ true
    → write w o.status_of (connected_of data_read ∷ []) 1 ≡ ok w₁
    → write w₁ o.remote_in (le_bytes 8 (remote_of d data_read)) 8 ≡ ok w₂
    → write w₂ o.ambient_in (le_bytes 8 (ambient_of d data_read)) 8 ≡ ok w₃
    → run_max31855k_thermocouple d tv t w (arguments raw o)
      ≡ correct d w₃ (arguments raw o) (vout_of d data_read) (ambient_of d data_read)
unfolding run_max31855k_thermocouple
run_connected d tv t w w₁ w₂ w₃ raw o data_read read connected e₁ e₂ e₃ =
    rw (read, e₁, connected, e₂, e₃) refl

run_cut :
    (d : Floats) (tv : TelemetryViewer) (t : TelemetryShm) (w w₁ : TelemetryWriter)
    (raw : MeasurementInfo) (o : Outputs) (data_read : ℕ)
    → get_uint tv t raw ≡ ok data_read
    → (data_read / 2 ^ 16 % 2 == 0) ≡ false
    → write w o.status_of (connected_of data_read ∷ []) 1 ≡ ok w₁
    → run_max31855k_thermocouple d tv t w (arguments raw o) ≡ ok (w₁, success)
unfolding run_max31855k_thermocouple
run_cut d tv t w w₁ raw o data_read read cut e₁ = rw (read, e₁, cut) refl

-- The fault bit is the seventeenth.
connected_of-fault : (data_read : ℕ) → connected_of data_read ≡ 1 - data_read / 2 ^ 16 % 2
connected_of-fault data_read = elim (Bool-cases (data_read / 2 ^ 16 % 2 == 0)) [
  | inl e ↦ rw e (ground arith)
  | inr e ↦ rw e (ground arith)
]

-- The reports, with the fields as the code reads them.
reading-Reports :
    (d : Floats) (tv : TelemetryViewer) (t : TelemetryShm) (w : TelemetryWriter)
    (raw : MeasurementInfo) (o : Outputs) (data_read : ℕ)
    → IsFitted w
    → IsWired w.vcm o
    → get_uint tv t raw ≡ ok data_read
    → (w' : TelemetryWriter) × (ret : RetType) × (run_max31855k_thermocouple d tv t w
          (arguments raw o)
        ≡ ok (w', ret))
      × Reports d w w' o
          (data_read / 2 ^ 18)
          (data_read / 2 ^ 16 % 2)
          (data_read / 2 ^ 4 % 2 ^ 12)
          ret
reading-Reports d tv t w raw o data_read fitted wired read =
    let status_bytes : List ℕ = (1 - data_read / 2 ^ 16 % 2) ∷ [] in
    let remote_bytes : List ℕ = le_bytes 8 (remote_of d data_read) in
    let ambient_bytes : List ℕ = le_bytes 8 (ambient_of d data_read) in
    let (w₁, e₁, b₁, held₁, _) =
      write-Holds w w [] o.status o.status_of status_bytes 1 (start-IsBehind w fitted)
        wired.laid_out wired.at_status wired.status_size refl in
    let e : write w o.status_of (connected_of data_read ∷ []) 1 ≡ ok w₁ =
      ap (λ c. write w o.status_of (c ∷ []) 1) (connected_of-fault data_read) ∙ e₁ in
    let (w₂, e₂, b₂, held₂, kept₂) =
      write-Holds w w₁ (o.status ∷ []) o.remote o.remote_in remote_bytes 8 b₁ wired.laid_out
        wired.at_remote wired.remote_size refl in
    let (w₃, e₃, b₃, held₃, kept₃) =
      write-Holds w w₂ (o.remote ∷ o.status ∷ []) o.ambient o.ambient_in ambient_bytes 8 b₂
        wired.laid_out wired.at_ambient wired.ambient_size refl in
    let (w₄, ret, e₄, b₄, kept₄, right) =
      correct-Outcome d w o wired w₃ raw (o.ambient ∷ o.remote ∷ o.status ∷ [])
        (vout_of d data_read) (ambient_of d data_read) b₃ in
    elim (Bool-cases (data_read / 2 ^ 16 % 2 == 0)) [
      | inl connected ↦ (
        w₄,
        ret,
        run_connected d tv t w w₁ w₂ w₃ raw o data_read read connected e e₂ e₃ ∙ e₄,
        record {
          behind = b₄;
          status = kept₄ o.status o.status_of status_bytes wired.status_apart.2 (
              kept₃ o.status o.status_of status_bytes wired.status_apart.1
                (kept₂ o.status o.status_of status_bytes wired.status_apart.0 held₁));
          off = λ h. absurd (ground (arith, connected, h));
          remote = λ h.
              kept₄ o.remote o.remote_in remote_bytes wired.remote_apart.1
                (kept₃ o.remote o.remote_in remote_bytes wired.remote_apart.0 held₂);
          ambient = λ h. kept₄ o.ambient o.ambient_in ambient_bytes wired.ambient_apart held₃;
          corrected = λ h. right;
        },
      )
      | inr cut ↦ (
        w₁,
        success,
        run_cut d tv t w w₁ raw o data_read read cut e,
        record {
          behind = more-IsBehind w w₁ o.corrected (o.ambient ∷ o.remote ∷ o.status ∷ []) (
              more-IsBehind w w₁ o.ambient (o.remote ∷ o.status ∷ [])
                (more-IsBehind w w₁ o.remote (o.status ∷ []) b₁));
          status = held₁;
          off = λ h. (refl, b₁);
          remote = λ h. absurd (ground (arith, cut, h));
          ambient = λ h. absurd (ground (arith, cut, h));
          corrected = λ h. absurd (ground (arith, cut, h));
        },
      )
    ]

-- In a configuration whose measurements lie inside their packets and apart, with a buffer for each
-- virtual packet: the trigger of a MAX31855K, with four different outputs of 1, 8, 8 and 8 bytes and a
-- reading that the viewer gives, runs on every branch without an access out of bounds, and changes no
-- other measurement. It writes 1 as the connected status if the reading's fault bit is 0, and 0 if it
-- is 1; then it writes nothing else and returns SUCCESS. Without a fault it writes a quarter of the
-- upper 14 bits and a sixteenth of the 12 ambient bits, both taken as unsigned numbers, as doubles of
-- a little-endian host. Their difference times 41.276 / 1000 is the voltage: if there are
-- coefficients for it (below 0, below 20.664, below 54.886, and not below -5.891), it writes the sum
-- over k of the k-th coefficient times the k-th power of the voltage, with the ambient value added,
-- and returns SUCCESS; the coefficients are the doubles nearest to the source's decimals. If there are
-- none it returns FAILURE, and has written the other three. Arithmetic on doubles is a parameter.
pub run_max31855k_thermocouple-Reports :
    (d : Floats) (tv : TelemetryViewer) (t : TelemetryShm) (w : TelemetryWriter)
    (raw : MeasurementInfo) (o : Outputs) (data_read r f a : ℕ)
    → IsFitted w
    → IsWired w.vcm o
    → get_uint tv t raw ≡ ok data_read
    → IsWord data_read r f a
    → (w' : TelemetryWriter) × (ret : RetType) × (run_max31855k_thermocouple d tv t w
          (arguments raw o)
        ≡ ok (w', ret))
      × Reports d w w' o r f a ret
run_max31855k_thermocouple-Reports d tv t w raw o data_read r f a fitted wired read word =
    let (w', ret, e, reports) = reading-Reports d tv t w raw o data_read fitted wired read in
    let r_eq : data_read / 2 ^ 18 ≡ r =
      omega (arith, word.sum, word.reserved_bound, word.f_bound, word.a_bound, word.low_bound) in
    let f_eq : data_read / 2 ^ 16 % 2 ≡ f =
      omega (arith, word.sum, word.reserved_bound, word.f_bound, word.a_bound, word.low_bound) in
    let a_eq : data_read / 2 ^ 4 % 2 ^ 12 ≡ a =
      omega (arith, word.sum, word.reserved_bound, word.f_bound, word.a_bound, word.low_bound) in
    (w', ret, e, rw (← r_eq, ← f_eq, ← a_eq) reports)
