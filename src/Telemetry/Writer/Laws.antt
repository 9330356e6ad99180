-- ===== src/Telemetry/Writer/Laws.antt =====
-- A write through the writer stores the measurement in each of its places and nothing else.
use mathlib.Core.Logic.{◌≢◌}
use gsw.Prelude.{
  ℕ, zero, suc, ◌+◌, ◌≤◌, ◌<◌, ◌≡◌, refl, true, false, ◌⊎◌, inl, inr, Option, none, some, List, [],
  ◌∷◌, Exec, ok, length, get_or, get_elem?, map, replicate, length-map, length-replicate, lookup,
  nat_eq, arith, Bool-cases, ◌==◌, ==_iff, if◌then◌else◌, All,
}
use gsw.Text.{Text, text_eq}
use gsw.Vcm.Types.{MeasurementInfo, PacketInfo, LocationInfo}
use gsw.Vcm.Config.{Vcm, get_info}
use gsw.Vcm.Parse.Layout.{IsLaidOut, IsAt, IsApart}
use gsw.Telemetry.Writer.{
  TelemetryWriter, init, write, write_name, write_raw, telemetry_copy, raw_copy, write_places,
}
use gsw.Telemetry.Writer.Copies.{IsCopy, sent, forward-IsCopy, telemetry_copy-IsCopy}
use gsw.Telemetry.Writer.Places.{
  IsFitted, IsVirtual, IsOutside, IsTarget, AreInside, byte, write_places-Wrote,
}

-- `w'` is `w` with the first `len` bytes `val` of the measurement in each of its places in virtual
-- packets, which are marked.
pub record Stored (w w' : TelemetryWriter) (name : Text) (meas : MeasurementInfo) (len : ℕ)
    (val : ℕ → ℕ) : Type 0 where
  pub same_vcm : w'.vcm ≡ w.vcm
  pub fitted : IsFitted w'
  pub own :
      (la : LocationInfo) (k : ℕ)
      → IsAt w.vcm.addr_map name meas la
      → IsTarget w len la k
      → byte w' la.packet_index (la.offset + k) ≡ val k
  pub marked :
      (la : LocationInfo)
      → IsAt w.vcm.addr_map name meas la
      → IsVirtual w.vcm.packets la.packet_index
      → get_or w'.updated la.packet_index false ≡ true
  pub others :
      (other : Text) (mb : MeasurementInfo) (lb : LocationInfo) (k : ℕ)
      → name ≢ other
      → IsAt w.vcm.addr_map other mb lb
      → k < mb.size
      → byte w' lb.packet_index (lb.offset + k) ≡ byte w lb.packet_index (lb.offset + k)

pub get_elem?-All {ℓ} :
    {A : Type ℓ} {P : A → Type 0} (xs : List A)
    → ((i : ℕ) (a : A) → get_elem? xs i ≡ some a → P a)
    → All P xs
get_elem?-All [] h = tt
get_elem?-All (x ∷ xs) h = (h 0 x refl, get_elem?-All xs (λ i a e. h (suc i) a e))

apart-IsOutside :
    (name other : Text) (ma mb : MeasurementInfo) (la lb : LocationInfo) (len k : ℕ)
    → len ≤ ma.size
    → k < mb.size
    → name ≢ other
    → (la.packet_index ≡ lb.packet_index → IsApart name ma la other mb lb)
    → IsOutside len la lb.packet_index (lb.offset + k)
apart-IsOutside name other ma mb la lb len k h low ne apart =
    elim (Bool-cases (la.packet_index == lb.packet_index)) [
      | inr q ↦ inl (λ s. ground arith)
      | inl q ↦ elim (apart ((==_iff _ _).0 q)) [
        | inl left ↦ inr (inr (omega arith))
        | inr (inl right) ↦ inr (inl (omega arith))
        | inr (inr (same, _)) ↦ absurd (ne same)
      ]
    ]

apart_self :
    (name : Text) (meas : MeasurementInfo) (loc la : LocationInfo) (len k : ℕ)
    → len ≤ meas.size
    → k < len
    → (loc.packet_index ≡ la.packet_index → IsApart name meas loc name meas la)
    → ((loc.packet_index ≡ la.packet_index) × (loc.offset ≡ la.offset))
      ⊎ IsOutside len loc la.packet_index (la.offset + k)
apart_self name meas loc la len k h low apart =
    elim (Bool-cases (loc.packet_index == la.packet_index)) [
      | inr q ↦ inr (inl (λ s. ground arith))
      | inl q ↦
          let i : loc.packet_index ≡ la.packet_index = (==_iff _ _).0 q in
          elim (apart i) [
            | inl left ↦ inr (inr (inr (omega arith)))
            | inr (inl right) ↦ inr (inr (inl (omega arith)))
            | inr (inr (_, o)) ↦ inl (i, o)
          ]
    ]

write_places-Stored :
    (w : TelemetryWriter) (name : Text) (meas : MeasurementInfo) (len : ℕ) (val : ℕ → ℕ)
    (copy_to : ℕ → List ℕ → Exec (List ℕ))
    → IsFitted w
    → IsLaidOut w.vcm.packets w.vcm.addr_map
    → lookup name w.vcm.addr_map ≡ some meas
    → len ≤ meas.size
    → IsCopy len val copy_to
    → (w' : TelemetryWriter) × (write_places copy_to w meas.locations ≡ ok w')
      × Stored w w' name meas len val
write_places-Stored w name meas len val copy_to v laid e h c =
    let inside : AreInside w.vcm.packets len meas.locations =
      get_elem?-All meas.locations
        (λ i la g. let (p, f, r) = laid.inside name meas la (e, i, g) in (p, f, omega arith)) in
    let (w', f, p, x, m) = write_places-Wrote len val copy_to w meas.locations c v inside in
    (
      w',
      f,
      record {
        same_vcm = p.same_vcm;
        fitted = p.fitted;
        own = λ la k (_, n, g) t.
            x la k t
              (get_elem?-All meas.locations (λ i loc g'.
                apart_self name meas loc la len k h t.low
                  (laid.apart name name meas meas loc la (e, i, g') (e, n, g))))
              (inr (n, g));
        marked = λ la (_, n, g) y. m n la g y;
        others = λ other mb lb k ne at low. p.kept lb.packet_index (lb.offset + k) (
            get_elem?-All meas.locations (λ i loc g'.
              apart-IsOutside name other meas mb loc lb len k h low ne
                (laid.apart name other meas mb loc lb (e, i, g') at)));
      },
    )

-- In a configuration whose measurements lie inside their packets and apart, with a buffer for each
-- virtual packet: a write of a measurement that exists, with as many bytes as it has, succeeds within
-- the buffers, stores the bytes in the measurement's byte order in each of its places in virtual
-- packets, marks these packets, and changes no byte of another measurement.
pub write_name-Stored :
    (w : TelemetryWriter) (name : Text) (meas : MeasurementInfo) (src : List ℕ)
    → IsFitted w
    → IsLaidOut w.vcm.packets w.vcm.addr_map
    → lookup name w.vcm.addr_map ≡ some meas
    → length src ≡ meas.size
    → (w' : TelemetryWriter) × (write_name w name src meas.size ≡ ok w')
      × Stored w w' name meas meas.size (sent w.vcm.sys_endianness meas meas.size src)
unfolding write_name write get_info
write_name-Stored w name meas src v laid e l =
    let (w', f, s) =
      write_places-Stored w name meas meas.size (sent w.vcm.sys_endianness meas meas.size src)
        (telemetry_copy w.vcm.sys_endianness meas meas.size src) v laid e (omega arith)
        (telemetry_copy-IsCopy w.vcm.sys_endianness meas meas.size src (omega arith)) in
    (w', ground (arith, e, f), s)

pub write_name-write :
    (w : TelemetryWriter) (name : Text) (meas : MeasurementInfo) (src : List ℕ) (len : ℕ)
    → lookup name w.vcm.addr_map ≡ some meas
    → write_name w name src len ≡ write w meas src len
unfolding write_name get_info
write_name-write w name meas src len at = rw at refl

-- In such a configuration a raw write of at most as many bytes as the measurement has succeeds within
-- the buffers, stores the bytes as they are at the start of each of its places in virtual packets,
-- marks these packets, and changes no byte of another measurement.
pub write_raw-Stored :
    (w : TelemetryWriter) (name : Text) (meas : MeasurementInfo) (src : List ℕ) (len : ℕ)
    → IsFitted w
    → IsLaidOut w.vcm.packets w.vcm.addr_map
    → lookup name w.vcm.addr_map ≡ some meas
    → len ≤ meas.size
    → len ≤ length src
    → (w' : TelemetryWriter) × (write_raw w meas src len ≡ ok w')
      × Stored w w' name meas len (λ k. get_or src k 0)
unfolding write_raw
write_raw-Stored w name meas src len v laid e h l =
    let (w', f, s) =
      write_places-Stored w name meas len (λ k. get_or src k 0) (raw_copy len src) v laid e h
        (forward-IsCopy len src l) in
    (w', ground (arith, f), s)

get_elem?-get_or {ℓ} :
    {A : Type ℓ} {B : Type ℓ} (xs : List A) (f : A → B) (i : ℕ) (a : A) (d : B)
    → get_elem? xs i ≡ some a
    → get_or (map f xs) i d ≡ f a
get_elem?-get_or [] f i a d h = cc
get_elem?-get_or (x ∷ xs) f zero a d h = cc
get_elem?-get_or (x ∷ xs) f (suc i) a d h = get_elem?-get_or xs f i a d h

unmarked : (packets : List PacketInfo) (i : ℕ) → get_or (map (λ _. false) packets) i false ≡ false
unmarked [] i = refl
unmarked (p ∷ packets) zero = refl
unmarked (p ∷ packets) (suc i) = unmarked packets i

-- `init` makes a buffer of its size for each virtual packet.
pub init-IsFitted : (v : Vcm) → IsFitted (init v)
unfolding init
init-IsFitted v =
    let buffer : PacketInfo → Option (List ℕ) =
      λ p. if p.is_virtual then some (replicate p.size 0) else none in
    record {
      buffers = length-map v.packets _;
      updated = length-map v.packets _;
      sized = λ i p e n. (
        replicate p.size 0,
        rw (get_elem?-get_or v.packets buffer i p none e, n) refl,
        length-replicate p.size 0,
      );
      marked = λ i m. absurd (ground (arith, unmarked v.packets i));
    }
