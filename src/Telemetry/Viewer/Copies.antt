-- ===== src/Telemetry/Viewer/Copies.antt =====
-- What copying the marked packets of a locked memory does to the viewer's buffers.
use mathlib.Core.List.{append-nil}
use gsw.Prelude.{
  mem-All, ℕ, zero, suc, ◌<◌, ◌≡◌, refl, ap, sym, subst, ◌∙◌, inl, inr, Bool, true, false, Option,
  none, some, List, [], ◌∷◌, ok, length, mem, ◌==◌, ◌&&◌, ==_iff, if◌then◌else◌, get_or, get_elem?,
  get_elem?-some, set, take, drop, length-set, get_or-set_self, get_or-set_ne, load-eq, store-eq,
  All, arith, Bool-cases,
}
use gsw.Vcm.Types.{PacketInfo}
use gsw.Vcm.Config.{Vcm}
use gsw.Bytes.{copy_loop}
use gsw.Bytes.Copy.{copy_loop-forward}
use gsw.Telemetry.Shm.State.{Shared, TelemetryShm}
use gsw.Telemetry.Shm.Write.Laws.{block_of}
use gsw.Telemetry.Shm.Query.{get_buffer}
use gsw.Telemetry.Viewer.{TelemetryViewer, copy_packet, copy_packets}
use gsw.Telemetry.Viewer.Tracking.{IsTracking}

-- The viewer's copy of a packet.
abbrev pub buffer_of : TelemetryViewer → ℕ → Option (List ℕ)
buffer_of v id = get_or v.packet_buffers id none

-- Shared memory has a block for each packet of the vehicle, as large as the packet.
pub record HasBlocks (vcm : Vcm) (s : Shared) : Type 0 where
  pub count : length s.packets ≡ length vcm.packets
  pub size :
      (i : ℕ) (p : PacketInfo) → get_elem? vcm.packets i ≡ some p → length (block_of s i) ≡ p.size

-- The buffers of the packets of the list that are marked are those of shared memory, and the others
-- are as they were.
pub record Copied (s : Shared) (t : TelemetryShm) (ids : List ℕ) (v v' : TelemetryViewer)
    : Type 0 where
  pub tracking : IsTracking v'
  pub rest : v' ≡ record v { packet_buffers = v'.packet_buffers }
  pub content :
      (j : ℕ)
      → buffer_of v' j
        ≡ (if mem j ids && get_or t.updated j false then some (block_of s j) else buffer_of v j)

take_all : (xs : List ℕ) (n : ℕ) → n ≡ length xs → take n xs ≡ xs
take_all [] zero h = refl
take_all [] (suc n) h = absurd (omega arith)
take_all (x ∷ xs) zero h = absurd (omega arith)
take_all (x ∷ xs) (suc n) h = ap (λ (ys : List ℕ). x ∷ ys) (take_all xs n (omega arith))

drop_all : (xs : List ℕ) (n : ℕ) → n ≡ length xs → drop n xs ≡ []
drop_all [] zero h = refl
drop_all [] (suc n) h = absurd (omega arith)
drop_all (x ∷ xs) zero h = absurd (omega arith)
drop_all (x ∷ xs) (suc n) h = drop_all xs n (omega arith)

copy_all :
    (n : ℕ) (dst src : List ℕ)
    → n ≡ length dst
    → n ≡ length src
    → copy_loop (λ i. i) (λ i. i) n 0 dst src ≡ ok src
copy_all n dst src h k =
    rw
      (
        copy_loop-forward n 0 [] [] dst src refl refl (omega arith) (omega arith),
        take_all src n k,
        drop_all dst n h,
        append-nil src,
      )
      refl

get_buffer-eq :
    (t : TelemetryShm) (s : Shared) (id : ℕ)
    → id < t.num_packets
    → t.initialised ≡ true
    → id < length s.packets
    → get_buffer t s id ≡ ok (block_of s id)
unfolding get_buffer
get_buffer-eq t s id h i l = ground (arith, load-eq s.packets id [] l)

-- The object, locked, and the memory that it has locked.
pub record IsCopying (v : TelemetryViewer) (t : TelemetryShm) (s : Shared) : Type 0 where
  pub initialised : t.initialised ≡ true
  pub same_count : t.num_packets ≡ v.vcm.num_packets
  pub updated : length t.updated ≡ t.num_packets
  pub blocks : HasBlocks v.vcm s

unmarked {ℓ} :
    {A : Type ℓ} (j id : ℕ) (mark : Bool) (x y : A)
    → (id ≡ j → mark ≡ false)
    → y ≡ (if mem j (id ∷ []) && mark then x else y)
unmarked j id mark x y h = elim (Bool-cases (id == j)) [
  | inl q ↦ ground (arith, h ((==_iff _ _).0 q))
  | inr q ↦ ground arith
]

set-IsTracking :
    (v : TelemetryViewer) (id : ℕ) (block : List ℕ)
    → IsTracking v
    → ((p : PacketInfo) → get_elem? v.vcm.packets id ≡ some p → length block ≡ p.size)
    → IsTracking (record v { packet_buffers = set v.packet_buffers id (some block) })
set-IsTracking v id block k h = record {
  counted = k.counted;
  sizes = k.sizes;
  buffers = length-set v.packet_buffers id (some block) ∙ k.buffers;
  distinct = k.distinct;
  known = k.known;
  sized = λ i p m e.
      let (size, b, g, l) = k.sized i p m e in
      elim (Bool-cases (id == i)) [
        | inl q ↦
            let same : id ≡ i = (==_iff _ _).0 q in
            let low : i < v.vcm.num_packets =
              mem-All (λ i. i < v.vcm.num_packets) i v.packet_ids k.known m in
            (
              size,
              block,
              rw same
                  (get_or-set_self v.packet_buffers i (some block) none (omega (arith, k.buffers))),
              h p (rw same e),
            )
        | inr q ↦ (
          size,
          b,
          get_or-set_ne v.packet_buffers id i (some block) none (λ x. ground arith) ∙ g,
          l,
        )
      ];
}

copy_packet-Copied :
    (s : Shared) (t : TelemetryShm) (v : TelemetryViewer) (id : ℕ)
    → IsTracking v
    → IsCopying v t s
    → mem id v.packet_ids ≡ true
    → (v' : TelemetryViewer) × (copy_packet s t v id ≡ ok v') × Copied s t (id ∷ []) v v'
unfolding copy_packet
copy_packet-Copied s t v id k c m =
    let low : id < v.vcm.num_packets =
      mem-All (λ i. i < v.vcm.num_packets) id v.packet_ids k.known m in
    let (p, found) = get_elem?-some v.vcm.packets id (omega (arith, k.counted)) in
    let (size, b, g, l) = k.sized id p m found in
    let whole : length (block_of s id) ≡ p.size = c.blocks.size id p found in
    elim (Bool-cases (get_or t.updated id false)) [
      | inr old ↦ (
        v,
        rw (load-eq t.updated id false (omega (arith, c.updated, c.same_count)), old) refl,
        record {
          tracking = k;
          rest = refl;
          content = λ j.
              unmarked j id (get_or t.updated j false) (some (block_of s j)) (buffer_of v j)
                (λ same. rw (← same) old);
        },
      )
      | inl new ↦ (
        record v { packet_buffers = set v.packet_buffers id (some (block_of s id)) },
        ground (
          arith,
          load-eq t.updated id false (omega (arith, c.updated, c.same_count)),
          new,
          load-eq v.packet_buffers id none (omega (arith, k.buffers)),
          g,
          load-eq v.packet_sizes id 0 (omega (arith, k.sizes)),
          size,
          get_buffer-eq t s id (omega (arith, c.same_count)) c.initialised
              (omega (arith, c.blocks.count, k.counted)),
          copy_all p.size b (block_of s id) (sym l) (sym whole),
          store-eq v.packet_buffers id (some (block_of s id)) (omega (arith, k.buffers)),
        ),
        record {
          tracking = set-IsTracking v id (block_of s id) k (λ q f. c.blocks.size id q f);
          rest = refl;
          content = λ j. elim (Bool-cases (id == j)) [
            | inl q ↦
                let same : id ≡ j = (==_iff _ _).0 q in
                let mark : get_or t.updated j false ≡ true = rw same at new in
                let stored : buffer_of
                      (record v { packet_buffers = set v.packet_buffers id (some (block_of s id)) })
                      id
                    ≡ some (block_of s id) =
                  get_or-set_self v.packet_buffers id (some (block_of s id)) none
                    (omega (arith, k.buffers)) in
                let at_j : buffer_of
                      (record v { packet_buffers = set v.packet_buffers id (some (block_of s id)) })
                      j
                    ≡ some (block_of s j) =
                  subst
                    (λ i.
                      buffer_of
                        (record v {
                          packet_buffers = set v.packet_buffers id (some (block_of s id));
                        })
                        i
                      ≡ some (block_of s i))
                    same stored in
                at_j ∙ ground (arith)
            | inr q ↦
                get_or-set_ne v.packet_buffers id j (some (block_of s id)) none (λ x. ground arith)
                ∙ ground (arith)
          ];
        },
      )
    ]

Copied-cons :
    (s : Shared) (t : TelemetryShm) (id : ℕ) (ids : List ℕ) (v v₁ v₂ : TelemetryViewer)
    → Copied s t (id ∷ []) v v₁
    → Copied s t ids v₁ v₂
    → Copied s t (id ∷ ids) v v₂
Copied-cons s t id ids v v₁ v₂ a b = record {
  tracking = b.tracking;
  rest =
      b.rest ∙ ap (λ (u : TelemetryViewer). record u { packet_buffers = v₂.packet_buffers }) a.rest;
  content = λ j. ground (arith, a.content j, b.content j);
}

pub copy_packets-Copied :
    (s : Shared) (t : TelemetryShm) (v : TelemetryViewer) (ids : List ℕ)
    → IsTracking v
    → IsCopying v t s
    → All (λ id. mem id v.packet_ids ≡ true) ids
    → (v' : TelemetryViewer) × (copy_packets s t ids v ≡ ok v') × Copied s t ids v v'
unfolding copy_packets
copy_packets-Copied s t v [] k c h =
    (v, refl, record { tracking = k; rest = refl; content = λ j. refl })
copy_packets-Copied s t v (id ∷ ids) k c h =
    let (v₁, e, a) = copy_packet-Copied s t v id k c h.0 in
    let same_vcm : v₁.vcm ≡ v.vcm = ap (λ (u : TelemetryViewer). u.vcm) a.rest in
    let same_ids : v₁.packet_ids ≡ v.packet_ids =
      ap (λ (u : TelemetryViewer). u.packet_ids) a.rest in
    let (v₂, f, b) =
      copy_packets-Copied s t v₁ ids a.tracking
        (record {
          initialised = c.initialised;
          same_count = rw same_vcm c.same_count;
          updated = c.updated;
          blocks = rw same_vcm c.blocks;
        })
        (rw same_ids h.1) in
    (v₂, rw (e, f) refl, Copied-cons s t id ids v v₁ v₂ a b)

pub All-mem :
    (xs ys : List ℕ)
    → ((j : ℕ) → mem j xs ≡ true → mem j ys ≡ true)
    → All (λ id. mem id ys ≡ true) xs
All-mem [] ys h = tt
All-mem (x ∷ xs) ys h = (h x (ground arith), All-mem xs ys (λ j m. h j (ground arith)))
