-- ===== src/Vcm/Parse/Layout.antt =====
-- Where the parser places measurements in packets.
use gsw.Prelude.{
  ℕ, ◌+◌, ◌≤◌, ◌≡◌, refl, ap, ◌⊎◌, inl, inr, Option, none, some, List, [], ◌∷◌, ◌++◌, length,
  get_elem?, get_elem?-append, get_elem?-snoc, get_elem?-length, lookup, insert,
  lookup-insert-cases, sym, nat_eq, arith,
}
use gsw.Text.{Text, text_eq}
use gsw.Vcm.Types.{MeasurementInfo, PacketInfo, LocationInfo}
use gsw.Vcm.Parse.{Parser}

-- The packets so far, the open one at the end.
abbrev pub opened : Option PacketInfo → List PacketInfo
opened none = []
opened (some packet) = packet ∷ []

abbrev pub all_packets : Parser → List PacketInfo
all_packets p = p.packets ++ opened p.current

-- The measurement of that name is placed at `loc`.
abbrev pub IsAt : List (Text × MeasurementInfo) → Text → MeasurementInfo → LocationInfo → Type 0
IsAt m name meas loc =
    (lookup name m ≡ some meas) × (i : ℕ) × (get_elem? meas.locations i ≡ some loc)

-- A placed measurement lies inside a packet.
abbrev pub IsInside : List PacketInfo → MeasurementInfo → LocationInfo → Type 0
IsInside packets meas loc =
    (packet : PacketInfo) × (get_elem? packets loc.packet_index ≡ some packet)
    × (loc.offset + meas.size ≤ packet.size)

-- Two placed measurements do not overlap, or are one measurement in one place.
abbrev pub IsApart :
    Text → MeasurementInfo → LocationInfo → Text → MeasurementInfo → LocationInfo → Type 0
IsApart a ma la b mb lb =
    (la.offset + ma.size ≤ lb.offset)
    ⊎ (lb.offset + mb.size ≤ la.offset)
    ⊎ ((a ≡ b) × (la.offset ≡ lb.offset))

pub record IsLaidOut (packets : List PacketInfo) (m : List (Text × MeasurementInfo)) : Type 0 where
  pub inside :
      (a : Text) (ma : MeasurementInfo) (la : LocationInfo)
      → IsAt m a ma la
      → IsInside packets ma la
  pub apart :
      (a b : Text) (ma mb : MeasurementInfo) (la lb : LocationInfo)
      → IsAt m a ma la
      → IsAt m b mb lb
      → la.packet_index ≡ lb.packet_index
      → IsApart a ma la b mb lb

-- The same packets, or larger ones.
abbrev pub Grows : List PacketInfo → List PacketInfo → Type 0
Grows ps qs =
    (i : ℕ) (p : PacketInfo)
    → get_elem? ps i ≡ some p
    → (q : PacketInfo) × (get_elem? qs i ≡ some q) × (p.size ≤ q.size)

pub IsLaidOut-Grows :
    (ps qs : List PacketInfo) (m : List (Text × MeasurementInfo))
    → Grows ps qs
    → IsLaidOut ps m
    → IsLaidOut qs m
IsLaidOut-Grows ps qs m g l = record {
  inside = λ a ma la h.
      let (p, e, f) = l.inside a ma la h in
      let (q, e', f') = g la.packet_index p e in (q, e', omega arith);
  apart = l.apart;
}

-- A new or redefined measurement, which is placed nowhere.
pub IsAt-define :
    (m : List (Text × MeasurementInfo)) (name a : Text) (entry ma : MeasurementInfo)
    (la : LocationInfo)
    → entry.locations ≡ []
    → IsAt (insert name entry m) a ma la
    → IsAt m a ma la
IsAt-define m name a entry ma la e (h, i, g) = elim (lookup-insert-cases name a entry ma m h) [
  | inl (k, w) ↦ absurd (ground (arith, w, e))
  | inr old ↦ (old, i, g)
]

-- A measurement that gets one place more: what is placed behind that was placed before, or is the
-- new place.
IsAt-place :
    (m : List (Text × MeasurementInfo)) (name a : Text) (meas ma : MeasurementInfo)
    (loc la : LocationInfo)
    → lookup name m ≡ some meas
    → IsAt (insert name (record meas { locations = meas.locations ++ loc ∷ [] }) m) a ma la
    → (mo : MeasurementInfo) × (mo.size ≡ ma.size)
      × (IsAt m a mo la ⊎ ((a ≡ name) × (la ≡ loc) × (mo ≡ meas)))
IsAt-place m name a meas ma loc la f (h, i, g) =
    elim (lookup-insert-cases name a (record meas { locations = meas.locations ++ loc ∷ [] }) ma m
      h) [
        | inl (k, w) ↦
            elim (get_elem?-snoc meas.locations loc i la
              (rw (ap (λ (x : MeasurementInfo). x.locations) w) at g)) [
                | inl old ↦ (meas, ground (arith, w), inl (rw (← k) f, i, old))
                | inr (last, new) ↦ (meas, ground (arith, w), inr (sym k, new, refl))
              ]
        | inr old ↦ (ma, refl, inl (old, i, g))
      ]

Grows-last :
    (packets : List PacketInfo) (p q : PacketInfo)
    → p.size ≤ q.size
    → Grows (packets ++ p ∷ []) (packets ++ q ∷ [])
Grows-last packets p q h i x e = elim (get_elem?-snoc packets p i x e) [
  | inl old ↦ (x, get_elem?-append packets (q ∷ []) i x old, omega arith)
  | inr (last, same) ↦ (q, rw last (get_elem?-length packets q), rw same h)
]

module _ (packets : List PacketInfo) (packet : PacketInfo) (m : List (Text × MeasurementInfo))
    (name : Text) (meas : MeasurementInfo) (found : lookup name m ≡ some meas)
    (l : IsLaidOut (packets ++ packet ∷ []) m) where
  abbrev pub loc : LocationInfo
  loc = record { offset = packet.size; packet_index = length packets }

  abbrev pub bigger : PacketInfo
  bigger = record packet { size = packet.size + meas.size }

  abbrev pub placed : List (Text × MeasurementInfo)
  placed = insert name (record meas { locations = meas.locations ++ loc ∷ [] }) m

  -- What was placed in the open packet ends where the packet ended.
  below :
      (b : Text) (mb : MeasurementInfo) (lb : LocationInfo)
      → IsAt m b mb lb
      → lb.packet_index ≡ length packets
      → lb.offset + mb.size ≤ packet.size
  below b mb lb h e =
      let (p, f, k) = l.inside b mb lb h in ground (arith, e, f, k, get_elem?-length packets packet)

  place-IsInside :
      (a : Text) (ma : MeasurementInfo) (la : LocationInfo)
      → IsAt placed a ma la
      → IsInside (packets ++ bigger ∷ []) ma la
  place-IsInside a ma la h =
      let (mo, z, c) = IsAt-place m name a meas ma loc la found h in
      elim c [
        | inl old ↦
            let (p, e, f) = l.inside a mo la old in
            let (q, e', f') = Grows-last packets packet bigger (omega arith) la.packet_index p e in
            (q, e', omega arith)
        | inr (n, new, same) ↦
            (bigger, rw new (get_elem?-length packets bigger), ground (arith, new, same, z))
      ]

  place-IsApart :
      (a b : Text) (ma mb : MeasurementInfo) (la lb : LocationInfo)
      → IsAt placed a ma la
      → IsAt placed b mb lb
      → la.packet_index ≡ lb.packet_index
      → IsApart a ma la b mb lb
  place-IsApart a b ma mb la lb ha hb e =
      let (xa, za, ca) = IsAt-place m name a meas ma loc la found ha in
      let (xb, zb, cb) = IsAt-place m name b meas mb loc lb found hb in
      elim ca [
        | inl oa ↦ elim cb [
          | inl ob ↦ ground (arith, za, zb, l.apart a b xa xb la lb oa ob e)
          | inr (n, new, same) ↦ ground (arith, za, e, new, below a xa la oa)
        ]
        | inr (n, new, same) ↦ elim cb [
          | inl ob ↦ ground (arith, zb, e, new, below b xb lb ob)
          | inr (n', new', same') ↦ ground (arith, n, n', new, new')
        ]
      ]

  pub place-IsLaidOut : IsLaidOut (packets ++ bigger ∷ []) placed
  place-IsLaidOut = record { inside = place-IsInside; apart = place-IsApart }
