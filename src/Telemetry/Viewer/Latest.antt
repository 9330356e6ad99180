-- ===== src/Telemetry/Viewer/Latest.antt =====
-- Which place of a measurement `latest_data` finds, and what the functions that convert it return.
use gsw.Prelude.{
  mem-All, ℕ, zero, suc, ◌+◌, ◌-◌, ◌^◌, ◌≤◌, ◌<◌, ◌≡◌, refl, ap, ◌∙◌, ◌⊎◌, inl, inr, true, Option,
  none, some, List, [], ◌∷◌, ok, length, mem, get_or, get_elem?, drop, load-eq, ltb, All, arith,
  Bool-cases,
}
use gsw.Vcm.Types.{MeasurementInfo, LocationInfo}
use gsw.Telemetry.Shm.State.{Shared, TelemetryShm}
use gsw.Telemetry.Shm.Query.{update_value, sub32}
use gsw.Telemetry.Shm.Query.Laws.{IsStamped}
use gsw.Telemetry.Shm.Write.Laws.{block_of}
use gsw.Telemetry.Viewer.{TelemetryViewer, best_loop, latest_data, int_max}
use gsw.Telemetry.Viewer.Tracking.{IsTracking, places_of}
use gsw.Telemetry.Viewer.Update.{Snapshot}

-- How long ago, in writes, the packet of the place was written.
abbrev pub age : TelemetryShm → LocationInfo → ℕ
age t loc = sub32 t.last_nonce (get_or t.last_nonces loc.packet_index 0)

-- `la` is a place of the list, and no place of it is younger.
pub record IsYoungest (t : TelemetryShm) (locs : List LocationInfo) (la : LocationInfo)
    : Type 0 where
  pub place : (n : ℕ) × (get_elem? locs n ≡ some la)
  pub youngest : All (λ loc. age t la ≤ age t loc) locs

-- The loop keeps what it has, if no place is younger than `best`; else it finds the youngest.
abbrev BestCases :
    TelemetryShm → List LocationInfo → ℕ → Option LocationInfo → Option LocationInfo → Type 0
BestCases t locs best found r =
    ((r ≡ found) × All (λ loc. best ≤ age t loc) locs)
    ⊎ ((la : LocationInfo) × (r ≡ some la) × (age t la < best) × IsYoungest t locs la)

All-le_trans :
    (t : TelemetryShm) (a b : ℕ) (locs : List LocationInfo)
    → a ≤ b
    → All (λ loc. b ≤ age t loc) locs
    → All (λ loc. a ≤ age t loc) locs
All-le_trans t a b [] h k = tt
All-le_trans t a b (loc ∷ locs) h k = (omega (arith, k.0), All-le_trans t a b locs h k.1)

update_value-eq :
    (t : TelemetryShm) (id : ℕ)
    → length t.last_nonces ≡ t.num_packets
    → id < t.num_packets
    → update_value t id ≡ ok (sub32 t.last_nonce (get_or t.last_nonces id 0))
unfolding update_value
update_value-eq t id z h = ground (arith, load-eq t.last_nonces id 0 (omega arith))

best_loop-BestCases :
    (t : TelemetryShm) (locs : List LocationInfo) (best : ℕ) (found : Option LocationInfo)
    → length t.last_nonces ≡ t.num_packets
    → All (λ id. id < t.num_packets) (places_of locs)
    → (r : Option LocationInfo) × (best_loop t locs best found ≡ ok r)
      × BestCases t locs best found r
unfolding best_loop
best_loop-BestCases t [] best found z h = (found, refl, inl (refl, tt))
best_loop-BestCases t (loc ∷ locs) best found z h =
    let e = update_value-eq t loc.packet_index z h.0 in
    elim (Bool-cases (ltb (age t loc) best)) [
      | inl y ↦
          let (r, f, cases) = best_loop-BestCases t locs (age t loc) (some loc) z h.1 in
          (
            r,
            rw (e, y) f,
            elim cases [
              | inl (same, all) ↦ inr (
                loc,
                same,
                ground arith,
                record { place = (0, refl); youngest = (omega arith, all) },
              )
              | inr (la, same, less, young) ↦ inr (
                la,
                same,
                ground arith,
                record {
                  place = (suc young.place.0, young.place.1);
                  youngest = (omega arith, young.youngest);
                },
              )
            ],
          )
      | inr y ↦
          let (r, f, cases) = best_loop-BestCases t locs best found z h.1 in
          (
            r,
            rw (e, y) f,
            elim cases [
              | inl (same, all) ↦ inl (same, (ground arith, all))
              | inr (la, same, less, young) ↦ inr (
                la,
                same,
                less,
                record {
                  place = (suc young.place.0, young.place.1);
                  youngest = (ground arith, young.youngest);
                },
              )
            ],
          )
    ]

-- `la` is a place of the list, and the packet of no place of it was written later.
pub record IsLatest (s : Shared) (locs : List LocationInfo) (la : LocationInfo) : Type 0 where
  pub place : (n : ℕ) × (get_elem? locs n ≡ some la)
  pub latest :
      All (λ loc. get_or s.nonces loc.packet_index 0 ≤ get_or s.nonces la.packet_index 0) locs

-- Every place of the measurement is in a packet that the viewer tracks.
abbrev pub AreTracked : TelemetryViewer → List LocationInfo → Type 0
AreTracked v locs = All (λ loc. mem loc.packet_index v.packet_ids ≡ true) locs

-- The packet of some place was written within the last 2 ^ 31 - 2 writes.
abbrev pub HasRecent : Shared → List LocationInfo → Type 0
HasRecent s locs =
    (n : ℕ) × (loc : LocationInfo) × (get_elem? locs n ≡ some loc)
    × (s.nonce < get_or s.nonces loc.packet_index 0 + int_max)

pub get_elem?-member {ℓ κ} :
    {A : Type ℓ} (P : A → Type κ) (xs : List A) (n : ℕ) (a : A)
    → All P xs
    → get_elem? xs n ≡ some a
    → P a
get_elem?-member P [] n a h e = absurd (ground arith)
get_elem?-member P (x ∷ xs) zero a h e = let same : x ≡ a = ground arith in rw (← same) h.0
get_elem?-member P (x ∷ xs) (suc n) a h e = get_elem?-member P xs n a h.1 e

places-All :
    (P Q : ℕ → Type 0) (locs : List LocationInfo)
    → ((id : ℕ) → P id → Q id)
    → All (λ loc. P loc.packet_index) locs
    → All Q (places_of locs)
places-All P Q [] f h = tt
places-All P Q (loc ∷ locs) f h = (f loc.packet_index h.0, places-All P Q locs f h.1)

module _ (v v' : TelemetryViewer) (t' : TelemetryShm) (s : Shared) (p : Snapshot v v' t' s)
    (k : IsTracking v) (z : IsStamped s) (w : s.nonce < 2 ^ 32) where
  age-eq :
      (loc : LocationInfo)
      → mem loc.packet_index v.packet_ids ≡ true
      → age t' loc ≡ s.nonce - get_or s.nonces loc.packet_index 0
  age-eq loc m = ground (arith, p.nonce, p.nonces loc.packet_index m, z loc.packet_index)

  latest-All :
      (la : LocationInfo) (locs : List LocationInfo)
      → mem la.packet_index v.packet_ids ≡ true
      → AreTracked v locs
      → All (λ loc. age t' la ≤ age t' loc) locs
      → All (λ loc. get_or s.nonces loc.packet_index 0 ≤ get_or s.nonces la.packet_index 0) locs
  latest-All la [] m h y = tt
  latest-All la (loc ∷ locs) m h y = (
    (let young : s.nonce - get_or s.nonces la.packet_index 0
            ≤ s.nonce - get_or s.nonces loc.packet_index 0 =
          rw (age-eq la m, age-eq loc h.0) at y.0 in
        omega (arith, z la.packet_index, z loc.packet_index)),
    latest-All la locs m h.1 y.1,
  )

  best_loop-IsLatest :
      (locs : List LocationInfo)
      → AreTracked v locs
      → HasRecent s locs
      → (la : LocationInfo) × (best_loop t' locs int_max none ≡ ok (some la))
        × IsLatest s locs la
        × (mem la.packet_index v.packet_ids ≡ true)
  best_loop-IsLatest locs h (n, loc, e, r) =
      let (found, f, cases) = best_loop-BestCases t' locs int_max none p.sized (
        places-All (λ id. mem id v.packet_ids ≡ true) (λ id. id < t'.num_packets) locs
          (λ id m. rw p.same_count (mem-All (λ i. i < v.vcm.num_packets) id v.packet_ids k.known m))
          h) in
      let m : mem loc.packet_index v.packet_ids ≡ true =
        get_elem?-member (λ l. mem l.packet_index v.packet_ids ≡ true) locs n loc h e in
      elim cases [
        | inl (same, all) ↦
            let old : int_max ≤ age t' loc =
              get_elem?-member (λ l. int_max ≤ age t' l) locs n loc all e in
            let old' : int_max ≤ s.nonce - get_or s.nonces loc.packet_index 0 =
              rw (age-eq loc m) at old in
            absurd (omega arith)
        | inr (la, same, less, young) ↦
            let m' : mem la.packet_index v.packet_ids ≡ true =
              get_elem?-member (λ l. mem l.packet_index v.packet_ids ≡ true) locs young.place.0 la h
                young.place.1 in
            (
              la,
              f ∙ ap (λ (x : Option LocationInfo). ok x) same,
              record { place = young.place; latest = latest-All la locs m' h young.youngest },
              m',
            )
      ]

  -- Behind an update from shared memory `s`, whose packet nonces are at most the master nonce, the
  -- data of a measurement, all of whose places are in packets that the viewer tracks and one of them
  -- in a packet written within the last 2 ^ 31 - 2 writes, are the bytes of `s` from one of its
  -- places on, such that the packet of no other place was written later.
  pub latest_data-IsLatest :
      (meas : MeasurementInfo)
      → AreTracked v meas.locations
      → HasRecent s meas.locations
      → (la : LocationInfo) × IsLatest s meas.locations la
        × (latest_data v' t' meas ≡ ok (drop la.offset (block_of s la.packet_index)))
  unfolding latest_data
  latest_data-IsLatest meas h r =
      let (la, e, l, m) = best_loop-IsLatest meas.locations h r in
      let low : la.packet_index < v.vcm.num_packets =
        mem-All (λ i. i < v.vcm.num_packets) la.packet_index v.packet_ids k.known m in
      let same_vcm : v'.vcm ≡ v.vcm = ap (λ (u : TelemetryViewer). u.vcm) p.rest in
      let bound : la.packet_index < length v'.packet_buffers =
        rw (p.tracking.buffers, same_vcm) low in
      (
        la,
        l,
        ground (
          arith,
          e,
          load-eq v'.packet_buffers la.packet_index none bound,
          p.whole la.packet_index m,
        ),
      )
