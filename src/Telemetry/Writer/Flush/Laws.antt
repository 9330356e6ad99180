-- ===== src/Telemetry/Writer/Flush/Laws.antt =====
-- What `flush` leaves in shared memory and in the writer.
use gsw.Prelude.{
  ℕ, zero, suc, ◌+◌, ◌^◌, ◌%◌, ◌≤◌, ◌<◌, ◌≡◌, refl, ap, ◌∙◌, ◌⊎◌, inl, inr, Bool, true, false, ◌&&◌,
  none, some, List, ok, length, get_or, set, length-set, get_or-set_self, get_or-set_ne, load-eq,
  store-eq, take, arith, Bool-cases, ◌==◌, sym,
}
use gsw.Telemetry.Shm.State.{Shared, TelemetryShm}
use gsw.Telemetry.Shm.Write as Shm
use gsw.Telemetry.Shm.Write.Laws.{IsOpen, block_of, write-Published}
use gsw.Telemetry.Shm.Query.Laws.{IsStamped, Published-IsStamped}
use gsw.Telemetry.Writer.{TelemetryWriter}
use gsw.Telemetry.Writer.Flush.{write_shm, flush_packet, flush_loop, flush}

-- An updated packet has a buffer that is as large as its block in shared memory.
abbrev pub IsReady : Shared → TelemetryWriter → Type 0
IsReady s w =
    (i : ℕ)
    → get_or w.updated i false ≡ true
    → (b : List ℕ) × (get_or w.packet_buffers i none ≡ some b) × (length (block_of s i) ≤ length b)

-- The state behind the packets below `n`.
record Flushed (t : TelemetryShm) (s s' : Shared) (w w' : TelemetryWriter) (lo n : ℕ) : Type 0 where
  open_after : IsOpen t s'
  buffers : w'.packet_buffers ≡ w.packet_buffers
  marks : length w'.updated ≡ length w.updated
  cleared : (i : ℕ) → lo ≤ i → i < lo + n → get_or w'.updated i false ≡ false
  outside : (i : ℕ) → (i < lo) ⊎ (lo + n ≤ i) → get_or w'.updated i false ≡ get_or w.updated i false
  written :
      (i : ℕ) (b : List ℕ)
      → lo ≤ i
      → i < lo + n
      → get_or w.updated i false ≡ true
      → get_or w.packet_buffers i none ≡ some b
      → block_of s' i ≡ take (length (block_of s i)) b
  others :
      (i : ℕ)
      → (i < lo) ⊎ (lo + n ≤ i) ⊎ (get_or w.updated i false ≡ false)
      → block_of s' i ≡ block_of s i
  clock : s.nonce + n < 2 ^ 32 → (s'.nonce ≤ s.nonce + n) × (IsStamped s → IsStamped s')

write_shm-ok :
    (t : TelemetryShm) (s s' : Shared) (i : ℕ) (b : List ℕ) (wake : Shm.Wake)
    → Shm.write t s i b ≡ ok (s', wake)
    → write_shm t s i b ≡ ok (s', true)
write_shm-ok t s s' i b wake e = rw (write_shm, e) refl

flush_packet-Flushed :
    (logs : ℕ → Bool) (t : TelemetryShm) (i : ℕ) (s : Shared) (w : TelemetryWriter) (good : Bool)
    → IsOpen t s
    → IsReady s w
    → i < t.num_packets
    → i < length w.updated
    → i < length w.packet_buffers
    → (s' : Shared) × (w' : TelemetryWriter) × (good' : Bool) × (flush_packet logs t i (s, w, good)
        ≡ ok (s', w', good'))
      × Flushed t s s' w w' i 1
      × (((j : ℕ) → logs j ≡ true) → good' ≡ good)
unfolding flush_packet
flush_packet-Flushed logs t i s w good o r h l k = elim (Bool-cases (get_or w.updated i false)) [
  | inr n ↦ (
    s,
    w,
    good,
    rw (load-eq w.updated i false l, n) refl,
    record {
      open_after = o;
      buffers = refl;
      marks = refl;
      cleared = λ j a b. let same : i ≡ j = omega arith in rw (← same) n;
      outside = λ j a. refl;
      written = λ j b a c m e.
          let same : i ≡ j = omega arith in absurd (ground (arith, rw (← same) at m));
      others = λ j x. refl;
      clock = λ h. (omega arith, λ z. z);
    },
    λ all. refl,
  )
  | inl m ↦
      let (b, e, z) = r i m in
      let (s', f, p) = write-Published t s i b o h z in
      (
        s',
        record w { updated = set w.updated i false },
        good && logs i && true,
        ground (
          arith,
          load-eq w.updated i false l,
          m,
          load-eq w.packet_buffers i none k,
          e,
          write_shm-ok t s s' i b (some (2 ^ (i % 32))) f,
          store-eq w.updated i false l,
        ),
        record {
          open_after = p.open_after;
          buffers = refl;
          marks = length-set w.updated i false;
          cleared = λ j a c.
              let same : i ≡ j = omega arith in
              rw (← same) (get_or-set_self w.updated i false false l);
          outside = λ j a. get_or-set_ne w.updated i j false false (λ q. ground arith);
          written = λ j b' a c y g.
              let same : i ≡ j = omega arith in
              let g' : get_or w.packet_buffers i none ≡ some b' = rw same g in
              let buffer : some b ≡ some b' = sym e ∙ g' in
              let one : b ≡ b' = cc in rw (← same, ← one) p.content;
          others = λ j x. (p.others j (λ q. ground (arith, rw (← q) at x, m))).0;
          clock = λ h. (
            omega (arith, p.master),
            Published-IsStamped t s s' i (take (length (block_of s i)) b) p h,
          );
        },
        λ all. ground (arith, all i),
      )
]

Flushed-IsReady :
    (t : TelemetryShm) (s s' : Shared) (w w' : TelemetryWriter) (i : ℕ)
    → Flushed t s s' w w' i 1
    → IsReady s w
    → IsReady s' w'
Flushed-IsReady t s s' w w' i p r j m = elim (Bool-cases (i == j)) [
  | inl q ↦ absurd (ground (arith, p.cleared j (ground arith) (ground arith)))
  | inr q ↦
      let low : (j < i) ⊎ (i + 1 ≤ j) = ground arith in
      let before : get_or w.updated j false ≡ true = sym (p.outside j low) ∙ m in
      let (b, e, z) = r j before in
      let same : block_of s' j ≡ block_of s j = p.others j (ground arith) in
      (b, rw (p.buffers) e, omega (arith, ap length same))
]

-- One more packet in front.
Flushed-cons :
    (t : TelemetryShm) (s s₁ s' : Shared) (w w₁ w' : TelemetryWriter) (i n : ℕ)
    → Flushed t s s₁ w w₁ i 1
    → Flushed t s₁ s' w₁ w' (i + 1) n
    → Flushed t s s' w w' i (suc n)
Flushed-cons t s s₁ s' w w₁ w' i n p q = record {
  open_after = q.open_after;
  buffers = q.buffers ∙ p.buffers;
  marks = q.marks ∙ p.marks;
  cleared = λ j a c. elim (Bool-cases (i == j)) [
    | inl e ↦ q.outside j (ground arith) ∙ p.cleared j (ground arith) (ground arith)
    | inr e ↦ q.cleared j (ground arith) (omega arith)
  ];
  outside = λ j x. q.outside j (ground arith) ∙ p.outside j (ground arith);
  written = λ j b a c m e. elim (Bool-cases (i == j)) [
    | inl same ↦ q.others j (ground arith) ∙ p.written j b (ground arith) (ground arith) m e
    | inr differs ↦
        let kept : block_of s₁ j ≡ block_of s j = p.others j (ground arith) in
        rw (← kept) (
          q.written j b (ground arith) (omega arith) (p.outside j (ground arith) ∙ m)
            (rw p.buffers e))
  ];
  others = λ j x. elim (Bool-cases (i == j)) [
    | inl e ↦ q.others j (ground arith) ∙ p.others j (ground arith)
    | inr e ↦
        let mark : get_or w₁.updated j false ≡ get_or w.updated j false =
          p.outside j (ground arith) in
        q.others j (ground (arith, mark)) ∙ p.others j (ground arith)
  ];
  clock = λ h.
      let (a, z) = p.clock (omega arith) in
      let (c, y) = q.clock (omega arith) in (omega arith, λ x. y (z x));
}

flush_loop-Flushed :
    (logs : ℕ → Bool) (t : TelemetryShm) (n i : ℕ) (s : Shared) (w : TelemetryWriter) (good : Bool)
    → IsOpen t s
    → IsReady s w
    → i + n ≤ t.num_packets
    → i + n ≤ length w.updated
    → i + n ≤ length w.packet_buffers
    → (s' : Shared) × (w' : TelemetryWriter) × (good' : Bool) × (flush_loop logs t n i (s, w, good)
        ≡ ok (s', w', good'))
      × Flushed t s s' w w' i n
      × (((j : ℕ) → logs j ≡ true) → good' ≡ good)
unfolding flush_loop
flush_loop-Flushed logs t zero i s w good o r h l k = (
  s,
  w,
  good,
  refl,
  record {
    open_after = o;
    buffers = refl;
    marks = refl;
    cleared = λ j a c. absurd (omega arith);
    outside = λ j x. refl;
    written = λ j b a c m e. absurd (omega arith);
    others = λ j x. refl;
    clock = λ h. (omega arith, λ z. z);
  },
  λ all. refl,
)
flush_loop-Flushed logs t (suc n) i s w good o r h l k =
    let (s₁, w₁, good₁, e, p, g) =
      flush_packet-Flushed logs t i s w good o r (omega arith) (omega arith) (omega arith) in
    let (s', w', good', f, q, g') =
      flush_loop-Flushed logs t n (i + 1) s₁ w₁ good₁ p.open_after
        (Flushed-IsReady t s s₁ w w₁ i p r) (omega arith) (omega (arith, p.marks))
        (omega (arith, ap length p.buffers)) in
    (s', w', good', rw (e, f) refl, Flushed-cons t s s₁ s' w w₁ w' i n p q, λ all. g' all ∙ g all)

-- What `flush` leaves: the blocks of the marked packets hold the writer's buffers, the others are as
-- they were, and no packet is marked.
pub record IsFlushed (t : TelemetryShm) (s s' : Shared) (w w' : TelemetryWriter) : Type 0 where
  pub open_after : IsOpen t s'
  pub buffers : w'.packet_buffers ≡ w.packet_buffers
  pub cleared : (i : ℕ) → i < t.num_packets → get_or w'.updated i false ≡ false
  pub written :
      (i : ℕ) (b : List ℕ)
      → i < t.num_packets
      → get_or w.updated i false ≡ true
      → get_or w.packet_buffers i none ≡ some b
      → block_of s' i ≡ take (length (block_of s i)) b
  pub others : (i : ℕ) → get_or w.updated i false ≡ false → block_of s' i ≡ block_of s i
  pub clock :
      s.nonce + t.num_packets < 2 ^ 32
      → (s'.nonce ≤ s.nonce + t.num_packets) × (IsStamped s → IsStamped s')

-- `flush` of a writer whose marked packets have buffers as large as their blocks, over open shared
-- memory with as many packets, ends without an access out of bounds: each marked packet's block holds
-- the writer's buffer, the other blocks are as they were, no packet is marked, and the result is
-- SUCCESS if the logger takes every packet. If the master nonce is too far from 2 ^ 32 to wrap, it
-- goes on by no more than the number of packets, and no packet is stamped later than it if none was.
pub flush-IsFlushed :
    (logs : ℕ → Bool) (t : TelemetryShm) (s : Shared) (w : TelemetryWriter)
    → IsOpen t s
    → IsReady s w
    → length w.packet_buffers ≡ t.num_packets
    → length w.updated ≡ t.num_packets
    → (s' : Shared) × (w' : TelemetryWriter) × (good : Bool) × (flush logs t s w
        ≡ ok (s', w', good))
      × IsFlushed t s s' w w'
      × (((j : ℕ) → logs j ≡ true) → good ≡ true)
unfolding flush
flush-IsFlushed logs t s w o r k l =
    let (s', w', good, e, p, g) =
      flush_loop-Flushed logs t (length w.packet_buffers) 0 s w true o r (omega arith) (omega arith)
        (omega arith) in
    (
      s',
      w',
      good,
      e,
      record {
        open_after = p.open_after;
        buffers = p.buffers;
        cleared = λ i h. p.cleared i (omega arith) (omega arith);
        written = λ i b h m f. p.written i b (omega arith) (omega arith) m f;
        others = λ i m. p.others i (inr (inr m));
        clock = λ h. let (a, z) = p.clock (omega arith) in (omega arith, z);
      },
      g,
    )
