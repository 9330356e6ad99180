-- ===== src/Telemetry/Viewer/Tracking.antt =====
-- What the viewer tracks: every packet once, with a buffer of its size, and never more packets than
-- the array of their ids has room for.
use gsw.Prelude.{
  range, mem-range, load-get_elem?, get_elem?-some, ℕ, zero, suc, ◌+◌, ◌≤◌, ◌<◌, ◌≡◌, refl, ◌∙◌,
  inl, inr, Bool, true, none, some, List, [], ◌∷◌, ◌++◌, ok, success, length, mem, ◌==◌, ◌||◌,
  ==_iff, get_or, get_elem?, set, length-set, get_or-set_self, get_or-set_ne, store-eq,
  length-replicate, replicate, All, arith, Bool-cases,
}
use gsw.Vcm.Types.{PacketInfo, LocationInfo, MeasurementInfo}
use gsw.Vcm.Config.{Vcm}
use gsw.Telemetry.Viewer.{
  TelemetryViewer, add, add_range, add_all, add_places, add_measurement, init,
}
use gsw.Telemetry.Viewer.Distinct.{IsNodup, pigeonhole, mem-snoc, IsNodup-snoc, All-snoc}

-- The viewer tracks different packets of the vehicle, each with a buffer of its size.
pub record IsTracking (v : TelemetryViewer) : Type 0 where
  pub counted : v.vcm.num_packets ≡ length v.vcm.packets
  pub sizes : length v.packet_sizes ≡ v.vcm.num_packets
  pub buffers : length v.packet_buffers ≡ v.vcm.num_packets
  pub distinct : IsNodup v.packet_ids
  pub known : All (λ id. id < v.vcm.num_packets) v.packet_ids
  pub sized :
      (i : ℕ) (p : PacketInfo)
      → mem i v.packet_ids ≡ true
      → get_elem? v.vcm.packets i ≡ some p
      → (get_or v.packet_sizes i 0 ≡ p.size)
        × (b : List ℕ) × (get_or v.packet_buffers i none ≡ some b)
        × (length b ≡ p.size)

-- `v'` tracks what `v` does, and the packets of the list.
pub record Added (v v' : TelemetryViewer) (ids : List ℕ) : Type 0 where
  pub tracking : IsTracking v'
  pub same_vcm : v'.vcm ≡ v.vcm
  pub tracked : (j : ℕ) → mem j v'.packet_ids ≡ (mem j v.packet_ids || mem j ids)

mem_or_self :
    (j id : ℕ) (ids : List ℕ) → mem id ids ≡ true → mem j ids ≡ (mem j ids || mem j (id ∷ []))
mem_or_self j id ids old = elim (Bool-cases (id == j)) [
  | inl q ↦
      let same : id ≡ j = (==_iff _ _).0 q in
      let here : mem j ids ≡ true = rw same at old in ground arith
  | inr q ↦ ground arith
]

pub add-Added :
    (v : TelemetryViewer) (id : ℕ)
    → IsTracking v
    → id < v.vcm.num_packets
    → (v' : TelemetryViewer) × (add v id ≡ ok (v', success)) × Added v v' (id ∷ [])
unfolding add
add-Added v id t h = elim (Bool-cases (mem id v.packet_ids)) [
  | inl old ↦ (
    v,
    ground arith,
    record { tracking = t; same_vcm = refl; tracked = λ j. mem_or_self j id v.packet_ids old },
  )
  | inr new ↦
      let room : length v.packet_ids < v.vcm.num_packets =
        pigeonhole v.vcm.num_packets (id ∷ v.packet_ids) (new, t.distinct) (h, t.known) in
      let (packet, found) = get_elem?-some v.vcm.packets id (omega (arith, t.counted)) in
      (
        record v {
          packet_ids = v.packet_ids ++ id ∷ [];
          packet_sizes = set v.packet_sizes id packet.size;
          packet_buffers = set v.packet_buffers id (some (replicate packet.size 0));
        },
        ground (
          arith,
          load-get_elem? v.vcm.packets id packet found,
          store-eq v.packet_sizes id packet.size (omega (arith, t.sizes)),
          store-eq v.packet_buffers id (some (replicate packet.size 0)) (omega (arith, t.buffers)),
        ),
        record {
          tracking = record {
            counted = t.counted;
            sizes = length-set v.packet_sizes id packet.size ∙ t.sizes;
            buffers = length-set v.packet_buffers id (some (replicate packet.size 0)) ∙ t.buffers;
            distinct = IsNodup-snoc id v.packet_ids t.distinct new;
            known = All-snoc (λ id. id < v.vcm.num_packets) id v.packet_ids t.known h;
            sized = λ i p m e. elim (Bool-cases (id == i)) [
              | inl q ↦
                  let same : id ≡ i = (==_iff _ _).0 q in
                  let found' : get_elem? v.vcm.packets i ≡ some packet = rw same at found in
                  let one : packet ≡ p = cc in
                  (
                    rw (← same, ← one)
                        (get_or-set_self v.packet_sizes id packet.size 0 (omega (arith, t.sizes))),
                    replicate packet.size 0,
                    rw (← same) (
                        get_or-set_self v.packet_buffers id (some (replicate packet.size 0)) none
                          (omega (arith, t.buffers))),
                    rw (← one) (length-replicate packet.size 0),
                  )
              | inr q ↦
                  let before : mem i v.packet_ids ≡ true =
                    ground (arith, mem-snoc i id v.packet_ids) in
                  let (size, b, g, l) = t.sized i p before e in
                  (
                    get_or-set_ne v.packet_sizes id i packet.size 0 (λ x. ground arith) ∙ size,
                    b,
                    get_or-set_ne v.packet_buffers id i (some (replicate packet.size 0)) none
                          (λ x. ground arith)
                        ∙ g,
                    l,
                  )
            ];
          };
          same_vcm = refl;
          tracked = λ j. ground (arith, mem-snoc j id v.packet_ids);
        },
      )
]

-- After one more packet.
Added-trans :
    (v v₁ v₂ : TelemetryViewer) (id : ℕ) (ids : List ℕ)
    → Added v v₁ (id ∷ [])
    → Added v₁ v₂ ids
    → Added v v₂ (id ∷ ids)
Added-trans v v₁ v₂ id ids a b = record {
  tracking = b.tracking;
  same_vcm = b.same_vcm ∙ a.same_vcm;
  tracked = λ j. ground (arith, a.tracked j, b.tracked j);
}

abbrev pub places_of : List LocationInfo → List ℕ
places_of [] = []
places_of (loc ∷ locs) = loc.packet_index ∷ places_of locs

add_places-Added :
    (v : TelemetryViewer) (locs : List LocationInfo)
    → IsTracking v
    → All (λ id. id < v.vcm.num_packets) (places_of locs)
    → (v' : TelemetryViewer) × (add_places locs v ≡ ok (v', success)) × Added v v' (places_of locs)
unfolding add_places
add_places-Added v [] t h =
    (v, refl, record { tracking = t; same_vcm = refl; tracked = λ j. ground arith })
add_places-Added v (loc ∷ locs) t h =
    let (v₁, e, a) = add-Added v loc.packet_index t h.0 in
    let (v₂, f, b) = add_places-Added v₁ locs a.tracking (rw a.same_vcm h.1) in
    (v₂, rw (e, f) refl, Added-trans v v₁ v₂ loc.packet_index (places_of locs) a b)

add_range-Added :
    (n id : ℕ) (v : TelemetryViewer)
    → IsTracking v
    → id + n ≤ v.vcm.num_packets
    → (v' : TelemetryViewer) × (add_range n id v ≡ ok (v', success)) × Added v v' (range n id)
unfolding add_range
add_range-Added zero id v t h =
    (v, refl, record { tracking = t; same_vcm = refl; tracked = λ j. ground arith })
add_range-Added (suc n) id v t h =
    let (v₁, e, a) = add-Added v id t (omega arith) in
    let (v₂, f, b) = add_range-Added n (id + 1) v₁ a.tracking (rw a.same_vcm (omega arith)) in
    (v₂, rw (e, f) refl, Added-trans v v₁ v₂ id (range n (id + 1)) a b)

-- A new viewer tracks nothing.
pub init-IsTracking :
    (vcm : Vcm) (check_all : Bool) (packet_sizes : List ℕ)
    → vcm.num_packets ≡ length vcm.packets
    → length packet_sizes ≡ vcm.num_packets
    → IsTracking (init vcm check_all packet_sizes)
unfolding init
init-IsTracking vcm check_all packet_sizes c l = record {
  counted = c;
  sizes = l;
  buffers = length-replicate vcm.num_packets none;
  distinct = tt;
  known = tt;
  sized = λ i p m e. cc;
}

-- The viewer adds a measurement whose places are in packets of the vehicle without writing past its
-- arrays: it then tracks the packets that it tracked before and those of the measurement, each once
-- and with a buffer of the packet's size.
add_measurement-Added :
    (v : TelemetryViewer) (meas : MeasurementInfo)
    → IsTracking v
    → All (λ id. id < v.vcm.num_packets) (places_of meas.locations)
    → (v' : TelemetryViewer) × (add_measurement v (some meas) ≡ ok (v', success))
      × Added v v' (places_of meas.locations)
unfolding add_measurement
add_measurement-Added v meas t h = add_places-Added v meas.locations t h

-- `add_all` tracks every packet of the vehicle, each once and with a buffer of the packet's size, and
-- does not write past its arrays.
pub add_all-Added :
    (v : TelemetryViewer)
    → IsTracking v
    → (v' : TelemetryViewer) × (add_all v ≡ ok (v', success))
      × IsTracking v'
      × (v'.vcm ≡ v.vcm)
      × ((id : ℕ) → id < v.vcm.num_packets → mem id v'.packet_ids ≡ true)
unfolding add_all
add_all-Added v t =
    let v₀ : TelemetryViewer = record v { check_all = true } in
    let t₀ : IsTracking v₀ = record {
      counted = t.counted;
      sizes = t.sizes;
      buffers = t.buffers;
      distinct = t.distinct;
      known = t.known;
      sized = t.sized;
    } in
    let (v', e, a) = add_range-Added v.vcm.num_packets 0 v₀ t₀ (omega arith) in
    (
      v',
      e,
      a.tracking,
      a.same_vcm,
      λ id h.
          ground
            (arith, a.tracked id, mem-range v.vcm.num_packets 0 id (omega arith) (omega arith)),
    )
