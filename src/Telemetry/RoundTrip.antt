-- ===== src/Telemetry/RoundTrip.antt =====
-- From the writer to the viewer: a measurement that a process writes, in lib/telemetry/src/TelemetryWriter.cpp,
-- and flushes to shared memory is read by another, in lib/telemetry/src/TelemetryViewer.cpp.
mod Tests
use mathlib.Core.List.{reverse}
use gsw.Prelude.{
  one_result, ℕ, zero, suc, ◌+◌, ◌-◌, ◌^◌, ◌≤◌, ◌<◌, ◌≡◌, refl, ap, sym, ◌∙◌, ◌⊎◌, inl, inr, Bool,
  true, false, Option, none, some, List, [], ◌∷◌, Exec, ok, length, take, drop, get_or, get_elem?,
  get_elem?-lt, lookup, All, mem, arith, Bool-cases, if◌then◌else◌,
}
use gsw.Text.{Text, text_eq}
use gsw.Vcm.Types.{
  PacketInfo, MeasurementInfo, LocationInfo, Endianness, gsw_little_endian, gsw_big_endian,
  eq_endianness,
}
use gsw.Vcm.Config.{Vcm}
use gsw.Vcm.Parse.Layout.{IsLaidOut}
use gsw.Bytes.{le_value, value}
use gsw.Bytes.Reverse.{length-reverse, get_or-reverse, be_value-reverse, take-drop-eq}
use gsw.Telemetry.Shm.State.{Shared, TelemetryShm}
use gsw.Telemetry.Shm.Query.Laws.{IsStamped}
use gsw.Telemetry.Shm.Write.Laws.{IsOpen, block_of}
use gsw.Telemetry.Writer.{TelemetryWriter, write_name}
use gsw.Telemetry.Writer.Copies.{sent}
use gsw.Telemetry.Writer.Places.{IsFitted, IsVirtual, AreInside, byte, contents}
use gsw.Telemetry.Writer.Laws.{get_elem?-All, Stored, write_name-Stored}
use gsw.Telemetry.Writer.Flush.{flush, FlushState}
use gsw.Telemetry.Writer.Flush.Laws.{IsReady, IsFlushed, flush-IsFlushed}
use gsw.Telemetry.Viewer.{TelemetryViewer, get_uint, int_max}
use gsw.Telemetry.Viewer.Tracking.{IsTracking}
use gsw.Telemetry.Viewer.Copies.{HasBlocks}
use gsw.Telemetry.Viewer.Update.{Snapshot}
use gsw.Telemetry.Viewer.Latest.{IsLatest, AreTracked, HasRecent, get_elem?-member}
use gsw.Telemetry.Viewer.Values.{IsUint, get_uint-IsLatest}

-- The bytes that a little-endian host puts into memory for the bytes `src` of a number.
abbrev stored_bytes : Endianness → List ℕ → List ℕ
stored_bytes gsw_big_endian src = reverse src
stored_bytes gsw_little_endian src = src

length-stored_bytes : (e : Endianness) (src : List ℕ) → length (stored_bytes e src) ≡ length src
length-stored_bytes gsw_big_endian src = length-reverse src
length-stored_bytes gsw_little_endian src = refl

value-stored_bytes : (e : Endianness) (src : List ℕ) → value e (stored_bytes e src) ≡ le_value src
value-stored_bytes gsw_big_endian src = be_value-reverse src
value-stored_bytes gsw_little_endian src = refl

get_or-stored_bytes :
    (e : Endianness) (src : List ℕ) (k : ℕ)
    → k < length src
    → get_or (stored_bytes e src) k 0 ≡ (
        if eq_endianness gsw_little_endian e
        then get_or src k 0
        else get_or src (length src - k - 1) 0)
get_or-stored_bytes gsw_big_endian src k h = get_or-reverse src k h
get_or-stored_bytes gsw_little_endian src k h = refl

-- What the writer and the vehicle's shared memory must be like.
pub record IsStation (w : TelemetryWriter) (r : TelemetryShm) (s : Shared) : Type 0 where
  pub fitted : IsFitted w
  pub laid_out : IsLaidOut w.vcm.packets w.vcm.addr_map
  pub host : w.vcm.sys_endianness ≡ gsw_little_endian
  pub opened : IsOpen r s
  pub same_count : r.num_packets ≡ length w.vcm.packets
  pub blocks : HasBlocks w.vcm s
  pub stamped : IsStamped s
  pub early : s.nonce + r.num_packets < int_max

-- A marked packet's buffer is as large as its block.
IsFitted-IsReady : (w : TelemetryWriter) (s : Shared) → IsFitted w → HasBlocks w.vcm s → IsReady s w
IsFitted-IsReady w s v b i m =
    let (p, e, y) = v.marked i m in
    let (buffer, f, l) = v.sized i p e y in (buffer, f, omega (arith, b.size i p e))

take_whole : (n : ℕ) (xs : List ℕ) → n ≡ length xs → take n xs ≡ xs
take_whole zero [] h = refl
take_whole zero (x ∷ xs) h = absurd (omega arith)
take_whole (suc n) [] h = absurd (omega arith)
take_whole (suc n) (x ∷ xs) h = ap (λ (ys : List ℕ). x ∷ ys) (take_whole n xs (omega arith))

-- The block of a marked packet is the writer's buffer.
block-IsFlushed :
    (r : TelemetryShm) (s s' : Shared) (w w' : TelemetryWriter) (i : ℕ) (p : PacketInfo)
    → IsFitted w
    → HasBlocks w.vcm s
    → IsFlushed r s s' w w'
    → i < r.num_packets
    → get_elem? w.vcm.packets i ≡ some p
    → get_or w.updated i false ≡ true
    → (block_of s' i ≡ contents (get_or w.packet_buffers i none))
      × (length (block_of s' i) ≡ p.size)
block-IsFlushed r s s' w w' i p v b f low e m =
    let (q, g, y) = v.marked i m in
    let one : some q ≡ some p = sym g ∙ e in
    let virtual : p.is_virtual ≡ true = ground (arith, y, one) in
    let (buffer, h, l) = v.sized i p e virtual in
    let whole : block_of s' i ≡ buffer =
      f.written i buffer low m h
      ∙ take_whole (length (block_of s i)) buffer (omega (arith, b.size i p e)) in
    (rw h whole, rw whole l)

-- Flushing keeps the sizes of blocks.
HasBlocks-IsFlushed :
    (r : TelemetryShm) (s s' : Shared) (w w' : TelemetryWriter)
    → IsFitted w
    → HasBlocks w.vcm s
    → IsFlushed r s s' w w'
    → r.num_packets ≡ length w.vcm.packets
    → HasBlocks w.vcm s'
HasBlocks-IsFlushed r s s' w w' v b f c = record {
  count = f.open_after.packets ∙ c;
  size = λ i p e. elim (Bool-cases (get_or w.updated i false)) [
    | inl m ↦
        (block-IsFlushed r s s' w w' i p v b f (omega (arith, get_elem?-lt w.vcm.packets i p e)) e
          m).1
    | inr m ↦ ap length (f.others i m) ∙ b.size i p e
  ];
}

-- A call has one result.
one_flush :
    (x : Exec FlushState) (s s' : Shared) (w w' : TelemetryWriter) (g g' : Bool)
    → x ≡ ok (s, w, g)
    → x ≡ ok (s', w', g')
    → (s ≡ s') × (w ≡ w')
one_flush x s s' w w' g g' h k =
    let same : (s, w, g) ≡ (s', w', g') = one_result x (s, w, g) (s', w', g') h k in
    (ap (λ (y : FlushState). y.0) same, ap (λ (y : FlushState). y.1) same)

-- Every place is in a virtual packet.
abbrev pub AreVirtual : Vcm → List LocationInfo → Type 0
AreVirtual vcm locs = All (λ loc. IsVirtual vcm.packets loc.packet_index) locs

-- The bytes at each place of the measurement, behind the write and the flush.
bytes-IsFlushed :
    (w w₁ w₂ : TelemetryWriter) (r : TelemetryShm) (s s' : Shared) (name : Text)
    (meas : MeasurementInfo) (src : List ℕ)
    → IsStation w r s
    → lookup name w.vcm.addr_map ≡ some meas
    → length src ≡ meas.size
    → AreVirtual w.vcm meas.locations
    → Stored w w₁ name meas meas.size (sent w.vcm.sys_endianness meas meas.size src)
    → IsFlushed r s s' w₁ w₂
    → (n : ℕ) (la : LocationInfo) → get_elem? meas.locations n ≡ some la
    → take meas.size (drop la.offset (block_of s' la.packet_index))
      ≡ stored_bytes meas.endianness src
bytes-IsFlushed w w₁ w₂ r s s' name meas src o at len virtual st f n la g =
    let (p, e, low) = o.laid_out.inside name meas la (at, n, g) in
    let (q, e', y) =
      get_elem?-member (λ loc. IsVirtual w.vcm.packets loc.packet_index) meas.locations n la virtual
        g in
    let (whole, size) =
      block-IsFlushed r s s' w₁ w₂ la.packet_index p st.fitted (rw st.same_vcm o.blocks) f
        (omega (arith, o.same_count, get_elem?-lt w.vcm.packets la.packet_index p e))
        (rw st.same_vcm e) (st.marked la (at, n, g) (q, e', y)) in
    take-drop-eq meas.size la.offset (block_of s' la.packet_index)
      (stored_bytes meas.endianness src) (length-stored_bytes meas.endianness src ∙ len)
      (omega arith)
      (λ k h.
        let own : byte w₁ la.packet_index (la.offset + k)
            ≡ sent w.vcm.sys_endianness meas meas.size src k =
          st.own la k (at, n, g) (record { packet = q; found = e'; virtual = y; low = h }) in
        let own' : byte w₁ la.packet_index (la.offset + k)
            ≡ sent gsw_little_endian meas (length src) src k =
          rw (o.host, ← len) at own in
        ap (λ (b : List ℕ). get_or b (la.offset + k) 0) whole
        ∙ own'
        ∙ sym (get_or-stored_bytes meas.endianness src k (omega arith)))

flushed_value :
    (w w₁ w₂ : TelemetryWriter) (r : TelemetryShm) (s s' : Shared) (name : Text)
    (meas : MeasurementInfo) (src : List ℕ) (v v' : TelemetryViewer) (t' : TelemetryShm)
    → IsStation w r s
    → lookup name w.vcm.addr_map ≡ some meas
    → IsUint meas
    → length src ≡ meas.size
    → AreVirtual w.vcm meas.locations
    → (n : ℕ) × (la : LocationInfo) × (get_elem? meas.locations n ≡ some la)
    → Stored w w₁ name meas meas.size (sent w.vcm.sys_endianness meas meas.size src)
    → IsFlushed r s s' w₁ w₂
    → v.vcm ≡ w.vcm
    → IsTracking v
    → AreTracked v meas.locations
    → Snapshot v v' t' s'
    → get_uint v' t' meas ≡ ok (le_value src)
flushed_value w w₁ w₂ r s s' name meas src v v' t' o at u len virtual (n, lb, g) st f same k h p =
    let (upto, stamped) = f.clock (omega (arith, o.early)) in
    let blocks : HasBlocks w₁.vcm s' =
      HasBlocks-IsFlushed r s s' w₁ w₂ st.fitted (rw st.same_vcm o.blocks) f
        (rw st.same_vcm o.same_count) in
    let (la, l, e) =
      get_uint-IsLatest v v' t' s' meas p k (rw (same, ← st.same_vcm) blocks) (stamped o.stamped)
        (omega (arith, o.early)) (rw same o.host) u
        (get_elem?-All meas.locations
          (λ i loc g'. rw same (o.laid_out.inside name meas loc (at, i, g'))))
        h (n, lb, g, omega (arith, o.early)) in
    e
    ∙ ap (λ (b : List ℕ). ok (value meas.endianness b))
        (bytes-IsFlushed w w₁ w₂ r s s' name meas src o at len virtual st f l.place.0 la l.place.1)
    ∙ ap (λ (x : ℕ). ok x) (value-stored_bytes meas.endianness src)

-- On a little-endian host: an unsigned measurement of at most four bytes, whose places are in virtual
-- packets, is written by name and flushed to shared memory; a viewer that tracks its packets and has
-- updated from the memory that the flush has left reads the number that was written, in whichever
-- byte order the measurement is kept. (The layout is one that the parser makes, shared memory is that
-- of the vehicle, and the master nonce is far from 2 ^ 31.)
pub write_name-get_uint :
    (w w₁ w₂ : TelemetryWriter) (r : TelemetryShm) (s s' : Shared) (logs : ℕ → Bool) (good : Bool)
    (name : Text) (meas : MeasurementInfo) (src : List ℕ) (v v' : TelemetryViewer)
    (t' : TelemetryShm)
    → IsStation w r s
    → lookup name w.vcm.addr_map ≡ some meas
    → IsUint meas
    → length src ≡ meas.size
    → AreVirtual w.vcm meas.locations
    → (n : ℕ) × (la : LocationInfo) × (get_elem? meas.locations n ≡ some la)
    → write_name w name src meas.size ≡ ok w₁
    → flush logs r s w₁ ≡ ok (s', w₂, good)
    → v.vcm ≡ w.vcm
    → IsTracking v
    → AreTracked v meas.locations
    → Snapshot v v' t' s'
    → get_uint v' t' meas ≡ ok (le_value src)
write_name-get_uint w w₁ w₂ r s s' logs good name meas src v v' t' o at u len virtual some_place
      wrote flushed same k h p =
    let (w₃, e, st₃) = write_name-Stored w name meas src o.fitted o.laid_out at len in
    let one : w₃ ≡ w₁ = one_result (write_name w name src meas.size) w₃ w₁ e wrote in
    let st : Stored w w₁ name meas meas.size (sent w.vcm.sys_endianness meas meas.size src) =
      rw one at st₃ in
    let (s₃, w₄, good₃, e₃, f₃, _) =
      flush-IsFlushed logs r s w₁ o.opened
        (IsFitted-IsReady w₁ s st.fitted (rw st.same_vcm o.blocks))
        (st.fitted.buffers ∙ ap (λ (c : Vcm). length c.packets) st.same_vcm ∙ sym o.same_count)
        (st.fitted.updated ∙ ap (λ (c : Vcm). length c.packets) st.same_vcm ∙ sym o.same_count) in
    let (same_s, same_w) = one_flush (flush logs r s w₁) s₃ s' w₄ w₂ good₃ good e₃ flushed in
    let f : IsFlushed r s s' w₁ w₂ = rw (same_s, same_w) at f₃ in
    flushed_value w w₁ w₂ r s s' name meas src v v' t' o at u len virtual some_place st f same k h p
