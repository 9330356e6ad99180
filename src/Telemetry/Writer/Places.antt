-- ===== src/Telemetry/Writer/Places.antt =====
-- What one write of a measurement to its places does to the buffers.
use mathlib.Core.Logic.{◌≢◌}
use gsw.Prelude.{
  load-get_elem?, ℕ, zero, suc, ◌+◌, ◌≤◌, ◌<◌, ◌≡◌, refl, sym, ◌∙◌, ◌⊎◌, inl, inr, true, false,
  Option, none, some, List, [], ◌∷◌, Exec, ok, length, get_or, set, length-set, get_elem?,
  get_elem?-lt, get_or-set_self, get_or-set_ne, load-eq, store-eq, arith, Bool-cases, ◌==◌, ==_iff,
  All,
}
use gsw.Vcm.Types.{PacketInfo, LocationInfo}
use gsw.Telemetry.Writer.{TelemetryWriter, write_place, write_places}
use gsw.Telemetry.Writer.Copies.{IsCopy}

abbrev pub IsVirtual : List PacketInfo → ℕ → Type 0
IsVirtual packets i =
    (packet : PacketInfo) × (get_elem? packets i ≡ some packet) × (packet.is_virtual ≡ true)

-- A virtual packet has a buffer of its size, and only virtual packets are marked.
pub record IsFitted (w : TelemetryWriter) : Type 0 where
  pub buffers : length w.packet_buffers ≡ length w.vcm.packets
  pub updated : length w.updated ≡ length w.vcm.packets
  pub sized :
      (i : ℕ) (p : PacketInfo)
      → get_elem? w.vcm.packets i ≡ some p
      → p.is_virtual ≡ true
      → (b : List ℕ) × (get_or w.packet_buffers i none ≡ some b) × (length b ≡ p.size)
  pub marked : (i : ℕ) → get_or w.updated i false ≡ true → IsVirtual w.vcm.packets i

abbrev pub contents : Option (List ℕ) → List ℕ
contents none = []
contents (some b) = b

-- A byte of a packet's buffer.
abbrev pub byte : TelemetryWriter → ℕ → ℕ → ℕ
byte w i j = get_or (contents (get_or w.packet_buffers i none)) j 0

abbrev pub IsOutside : ℕ → LocationInfo → ℕ → ℕ → Type 0
IsOutside size loc i j = (loc.packet_index ≢ i) ⊎ (j < loc.offset) ⊎ (loc.offset + size ≤ j)

pub record Wrote (w w' : TelemetryWriter) (IsKept : ℕ → ℕ → Type 0) : Type 0 where
  pub same_vcm : w'.vcm ≡ w.vcm
  pub fitted : IsFitted w'
  pub kept : (i j : ℕ) → IsKept i j → byte w' i j ≡ byte w i j
  pub marks : (i : ℕ) → get_or w.updated i false ≡ true → get_or w'.updated i false ≡ true

inside_packet {ℓ} : {A : Type ℓ} {i k : ℕ} → i ≡ k → (i ≢ k) ⊎ A → A
inside_packet same (inl differs) = absurd (differs same)
inside_packet same (inr a) = a

pub write_place-Wrote :
    (size : ℕ) (val : ℕ → ℕ) (copy_to : ℕ → List ℕ → Exec (List ℕ)) (w : TelemetryWriter)
    (loc : LocationInfo) (packet : PacketInfo)
    → IsCopy size val copy_to
    → IsFitted w
    → get_elem? w.vcm.packets loc.packet_index ≡ some packet
    → loc.offset + size ≤ packet.size
    → (w' : TelemetryWriter) × (write_place copy_to w loc ≡ ok w')
      × Wrote w w' (IsOutside size loc)
      × ((k : ℕ)
          → k < size
          → packet.is_virtual ≡ true
          → byte w' loc.packet_index (loc.offset + k) ≡ val k)
      × (packet.is_virtual ≡ true → get_or w'.updated loc.packet_index false ≡ true)
unfolding write_place
write_place-Wrote size val copy_to w loc packet c v e r = elim (Bool-cases packet.is_virtual) [
  | inr n ↦ (
    w,
    rw (load-get_elem? w.vcm.packets loc.packet_index packet e, n) refl,
    record { same_vcm = refl; fitted = v; kept = λ i j o. refl; marks = λ i m. m },
    λ k s y. absurd (ground arith),
    λ y. absurd (ground arith),
  )
  | inl n ↦
      let (b, g, l) = v.sized loc.packet_index packet e n in
      let (d, f, k, z, u) = c loc.offset b (omega arith) in
      let low = get_elem?-lt w.vcm.packets loc.packet_index packet e in
      let at_buffer : loc.packet_index < length w.packet_buffers = omega (arith, v.buffers) in
      let at_mark : loc.packet_index < length w.updated = omega (arith, v.updated) in
      (
        record w {
          packet_buffers = set w.packet_buffers loc.packet_index (some d);
          updated = set w.updated loc.packet_index true;
        },
        rw
            (
              load-get_elem? w.vcm.packets loc.packet_index packet e,
              n,
              load-eq w.packet_buffers loc.packet_index none at_buffer,
              g,
              f,
              store-eq w.packet_buffers loc.packet_index (some d) at_buffer,
              store-eq w.updated loc.packet_index true at_mark,
            )
            refl,
        record {
          same_vcm = refl;
          fitted = record {
            buffers = length-set w.packet_buffers loc.packet_index (some d) ∙ v.buffers;
            updated = length-set w.updated loc.packet_index true ∙ v.updated;
            sized = λ i p e' n'. elim (Bool-cases (loc.packet_index == i)) [
              | inl q ↦
                  let same : loc.packet_index ≡ i = (==_iff _ _).0 q in
                  (
                    d,
                    rw (← same)
                        (get_or-set_self w.packet_buffers loc.packet_index (some d) none at_buffer),
                    (let found : get_elem? w.vcm.packets i ≡ some packet = rw (← same) e in
                        let one : packet.size ≡ p.size = cc in k ∙ l ∙ one),
                  )
              | inr q ↦
                  let (b', g', l') = v.sized i p e' n' in
                  (
                    b',
                    get_or-set_ne w.packet_buffers loc.packet_index i (some d) none
                          (λ s. ground arith)
                        ∙ g',
                    l',
                  )
            ];
            marked = λ i m. elim (Bool-cases (loc.packet_index == i)) [
              | inl q ↦
                  let same : loc.packet_index ≡ i = (==_iff _ _).0 q in (packet, rw (← same) e, n)
              | inr q ↦ v.marked i (
                  sym (get_or-set_ne w.updated loc.packet_index i true false (λ s. ground arith))
                  ∙ m)
            ];
          };
          marks = λ i m. elim (Bool-cases (loc.packet_index == i)) [
            | inl q ↦
                let same : loc.packet_index ≡ i = (==_iff _ _).0 q in
                rw (← same) (get_or-set_self w.updated loc.packet_index true false at_mark)
            | inr q ↦ get_or-set_ne w.updated loc.packet_index i true false (λ s. ground arith) ∙ m
          ];
          kept = λ i j o. elim (Bool-cases (loc.packet_index == i)) [
            | inl q ↦
                let same : loc.packet_index ≡ i = (==_iff _ _).0 q in
                rw
                  (
                    ← same,
                    get_or-set_self w.packet_buffers loc.packet_index (some d) none at_buffer,
                    g,
                  )
                  (z j (inside_packet same o))
            | inr q ↦
                rw
                  (get_or-set_ne w.packet_buffers loc.packet_index i (some d) none
                    (λ s. ground arith))
                  refl
          ];
        },
        λ q s y.
            rw (get_or-set_self w.packet_buffers loc.packet_index (some d) none at_buffer) (u q s),
        λ y. get_or-set_self w.updated loc.packet_index true false at_mark,
      )
]

-- Every place of the list is inside of its packet.
abbrev pub AreInside : List PacketInfo → ℕ → List LocationInfo → Type 0
AreInside packets size = All (λ loc.
    (packet : PacketInfo) × (get_elem? packets loc.packet_index ≡ some packet)
    × (loc.offset + size ≤ packet.size))

-- Each place of the list is the place `la`, or leaves the k-th byte of it alone.
abbrev pub Spares : ℕ → LocationInfo → ℕ → List LocationInfo → Type 0
Spares size la k = All (λ loc.
    ((loc.packet_index ≡ la.packet_index) × (loc.offset ≡ la.offset))
    ⊎ IsOutside size loc la.packet_index (la.offset + k))

-- The k-th byte at `la` is as it is to be, or is still to be written.
abbrev pub IsDue : TelemetryWriter → LocationInfo → ℕ → ℕ → List LocationInfo → Type 0
IsDue w la k v locs =
    (byte w la.packet_index (la.offset + k) ≡ v) ⊎ ((n : ℕ) × (get_elem? locs n ≡ some la))

-- The k-th byte at a place of a virtual packet.
pub record IsTarget (w : TelemetryWriter) (size : ℕ) (la : LocationInfo) (k : ℕ) : Type 0 where
  pub packet : PacketInfo
  pub found : get_elem? w.vcm.packets la.packet_index ≡ some packet
  pub virtual : packet.is_virtual ≡ true
  pub low : k < size

IsDue-nil :
    (w : TelemetryWriter) (la : LocationInfo) (k v : ℕ)
    → IsDue w la k v []
    → byte w la.packet_index (la.offset + k) ≡ v
IsDue-nil w la k v (inl e) = e
IsDue-nil w la k v (inr (n, e)) = absurd (ground arith)

IsDue-step :
    (size : ℕ) (val : ℕ → ℕ) (w w₁ : TelemetryWriter) (loc la : LocationInfo)
    (locs : List LocationInfo) (k : ℕ) (packet : PacketInfo)
    → get_elem? w.vcm.packets loc.packet_index ≡ some packet
    → Wrote w w₁ (IsOutside size loc)
    → ((k : ℕ)
        → k < size
        → packet.is_virtual ≡ true
        → byte w₁ loc.packet_index (loc.offset + k) ≡ val k)
    → IsTarget w size la k
    → ((loc.packet_index ≡ la.packet_index) × (loc.offset ≡ la.offset))
      ⊎ IsOutside size loc la.packet_index (la.offset + k)
    → IsDue w la k (val k) (loc ∷ locs)
    → IsDue w₁ la k (val k) locs
IsDue-step size val w w₁ loc la locs k packet e p x t (inl (i, o)) due =
    let found : get_elem? w.vcm.packets loc.packet_index ≡ some t.packet = rw i t.found in
    let virtual : packet.is_virtual ≡ true = ground (arith, t.virtual) in
    inl (rw (← i, ← o) (x k t.low virtual))
IsDue-step size val w w₁ loc la locs k packet e p x t (inr out) (inl old) =
    inl (p.kept _ _ out ∙ old)
IsDue-step size val w w₁ loc la locs k packet e p x t (inr out) (inr (zero, h)) =
    let i : loc.packet_index ≡ la.packet_index = ground arith in
    let o : loc.offset ≡ la.offset = ground arith in
    let found : get_elem? w.vcm.packets loc.packet_index ≡ some t.packet = rw i t.found in
    let virtual : packet.is_virtual ≡ true = ground (arith, t.virtual) in
    inl (rw (← i, ← o) (x k t.low virtual))
IsDue-step size val w w₁ loc la locs k packet e p x t (inr out) (inr (suc n, h)) = inr (n, h)

-- The first place is marked, and the marks stay.
places_marks :
    (w w₁ w₂ : TelemetryWriter) (loc : LocationInfo) (locs : List LocationInfo)
    (packet : PacketInfo)
    → get_elem? w.vcm.packets loc.packet_index ≡ some packet
    → w₁.vcm ≡ w.vcm
    → ((i : ℕ) → get_or w₁.updated i false ≡ true → get_or w₂.updated i false ≡ true)
    → (packet.is_virtual ≡ true → get_or w₁.updated loc.packet_index false ≡ true)
    → ((n : ℕ) (la : LocationInfo)
        → get_elem? locs n ≡ some la
        → IsVirtual w₁.vcm.packets la.packet_index
        → get_or w₂.updated la.packet_index false ≡ true)
    → (n : ℕ) (la : LocationInfo) → get_elem? (loc ∷ locs) n ≡ some la
    → IsVirtual w.vcm.packets la.packet_index
    → get_or w₂.updated la.packet_index false ≡ true
places_marks w w₁ w₂ loc locs packet e c keep first rest zero la g (p, f, y) =
    let same : loc.packet_index ≡ la.packet_index = ground arith in
    let f' : get_elem? w.vcm.packets loc.packet_index ≡ some p = rw same f in
    let virtual : packet.is_virtual ≡ true = ground (arith, y) in
    rw (← same) (keep loc.packet_index (first virtual))
places_marks w w₁ w₂ loc locs packet e c keep first rest (suc n) la g y = rest n la g (rw c y)

pub write_places-Wrote :
    (size : ℕ) (val : ℕ → ℕ) (copy_to : ℕ → List ℕ → Exec (List ℕ)) (w : TelemetryWriter)
    (locs : List LocationInfo)
    → IsCopy size val copy_to
    → IsFitted w
    → AreInside w.vcm.packets size locs
    → (w' : TelemetryWriter) × (write_places copy_to w locs ≡ ok w')
      × Wrote w w' (λ i j. All (λ loc. IsOutside size loc i j) locs)
      × ((la : LocationInfo) (k : ℕ)
          → IsTarget w size la k
          → Spares size la k locs
          → IsDue w la k (val k) locs
          → byte w' la.packet_index (la.offset + k) ≡ val k)
      × ((n : ℕ) (la : LocationInfo)
          → get_elem? locs n ≡ some la
          → IsVirtual w.vcm.packets la.packet_index
          → get_or w'.updated la.packet_index false ≡ true)
unfolding write_places
write_places-Wrote size val copy_to w [] c v a = (
  w,
  refl,
  record { same_vcm = refl; fitted = v; kept = λ i j o. refl; marks = λ i m. m },
  λ la k t s. IsDue-nil w la k (val k),
  λ n la g y. absurd (ground arith),
)
write_places-Wrote size val copy_to w (loc ∷ locs) c v ((packet, e, r), a) =
    let (w₁, f, p, x, z) = write_place-Wrote size val copy_to w loc packet c v e r in
    let (w₂, g, q, y, m) =
      write_places-Wrote size val copy_to w₁ locs c p.fitted (rw p.same_vcm a) in
    (
      w₂,
      rw f g,
      record {
        same_vcm = q.same_vcm ∙ p.same_vcm;
        fitted = q.fitted;
        kept = λ i j (o, os). q.kept i j os ∙ p.kept i j o;
        marks = λ i h. q.marks i (p.marks i h);
      },
      λ la k t (s, ss) due.
          y la k
            (record {
              packet = t.packet;
              found = rw p.same_vcm t.found;
              virtual = t.virtual;
              low = t.low;
            })
            ss (IsDue-step size val w w₁ loc la locs k packet e p x t s due),
      places_marks w w₁ w₂ loc locs packet e p.same_vcm q.marks z m,
    )
