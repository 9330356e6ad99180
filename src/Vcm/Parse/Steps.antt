-- ===== src/Vcm/Parse/Steps.antt =====
-- What each kind of line does to the packets and measurements of the parser.
use gsw.Prelude.{
  ℕ, suc, ◌+◌, ◌*◌, ◌^◌, ◌%◌, ◌≤◌, ◌<◌, ◌≡◌, ◌≢◌, refl, ◌⊎◌, inl, inr, Option, none, some, List, [],
  ◌∷◌, ◌++◌, ok, >>=-eq-ok, guard, failure, ◌||◌, length, length-append, lookup, insert,
  lookup-insert-cases, nat_eq, arith, Bool-cases, Option-cases, get_elem?-append,
}
use mathlib.Core.Bool.{not}
use mathlib.Core.List.{append-nil}
use gsw.Prelude.Int.{ℤ, pos, negsuc}
use gsw.Text.{Text, text_eq, token, stoi, reads_as, to_unsigned}
use gsw.Vcm.Types.{MeasurementInfo, PacketInfo}
use gsw.Vcm.Parse.{
  Parser, net_line, setting_line, packet_start, packet_line, measurement_line, order_and_sign,
  type_of_token,
}
use gsw.Vcm.Parse.Layout.{
  all_packets, IsLaidOut, IsAt-define, place-IsLaidOut, IsLaidOut-Grows, Grows,
}

abbrev pub open_size : Option PacketInfo → ℕ
open_size none = 0
open_size (some packet) = packet.size

-- The state of the parser behind `k` lines.
pub record IsSound (k : ℕ) (p : Parser) : Type 0 where
  pub counted : p.num_packets ≡ length p.packets
  pub laid : IsLaidOut (all_packets p) p.addr_map
  pub small : (a : Text) (ma : MeasurementInfo) → lookup a p.addr_map ≡ some ma → ma.size < 2 ^ 31
  pub room : open_size p.current ≤ k * 2 ^ 31

-- The line gives no negative number where a measurement's size stands.
abbrev pub IsPlain : Text → Type 0
IsPlain line = (n : ℕ) → stoi (token line 1) ≢ ok (negsuc n)

pub record SameLayout (p q : Parser) : Type 0 where
  packets : q.packets ≡ p.packets
  num_packets : q.num_packets ≡ p.num_packets
  addr_map : q.addr_map ≡ p.addr_map
  current : q.current ≡ p.current

pub net_line-SameLayout : (p q : Parser) (line : Text) → net_line p line ≡ ok q → SameLayout p q
unfolding net_line
net_line-SameLayout p q line h = ground arith

pub setting_line-SameLayout :
    (inet_pton : Text → ℕ → ℕ) (p q : Parser) (line : Text)
    → setting_line inet_pton p line ≡ ok q
    → SameLayout p q
unfolding setting_line
setting_line-SameLayout inet_pton p q line h = ground arith

pub SameLayout-IsSound : (k : ℕ) (p q : Parser) → SameLayout p q → IsSound k p → IsSound k q
SameLayout-IsSound k p q s v = record {
  counted = ground (arith, s.packets, s.num_packets, v.counted);
  laid = rw (s.packets, s.current, s.addr_map) v.laid;
  small = rw s.addr_map v.small;
  room = rw s.current v.room;
}

stoi_small : (t : Text) (n : ℕ) → stoi t ≡ ok (pos n) → n < 2 ^ 31
unfolding stoi
stoi_small t n h = ground arith

-- The start of a packet.
pub record Starts (p q : Parser) : Type 0 where
  packet : PacketInfo
  current : q.current ≡ some packet
  empty : packet.size ≡ 0
  packets : q.packets ≡ p.packets
  num_packets : q.num_packets ≡ p.num_packets
  addr_map : q.addr_map ≡ p.addr_map

pub Starts-of :
    (p q : Parser) (line : Text) (c : Option PacketInfo)
    → packet_start p line ≡ ok q
    → q.current ≡ c
    → Starts p q
unfolding packet_start
Starts-of p q line none h e = absurd (ground arith)
Starts-of p q line (some packet) h e = record {
  packet = packet;
  current = e;
  empty = ground arith;
  packets = ground arith;
  num_packets = ground arith;
  addr_map = ground arith;
}

Grows-append : (ps qs : List PacketInfo) → Grows ps (ps ++ qs)
Grows-append ps qs i p e = (p, get_elem?-append ps qs i p e, omega arith)

pub Starts-IsSound :
    (k : ℕ) (p q : Parser) → Starts p q → p.current ≡ none → IsSound k p → IsSound k q
Starts-IsSound k p q s n v = record {
  counted = ground (arith, s.packets, s.num_packets, v.counted);
  laid =
      rw (s.packets, s.current, s.addr_map)
        (IsLaidOut-Grows p.packets (p.packets ++ s.packet ∷ []) p.addr_map
          (Grows-append p.packets (s.packet ∷ [])) (rw (n, append-nil) at v.laid));
  small = rw s.addr_map v.small;
  room = rw s.current (omega (arith, s.empty));
}

-- A definition of a measurement.
pub record Defines (p q : Parser) (name : Text) : Type 0 where
  entry : MeasurementInfo
  addr_map : q.addr_map ≡ insert name entry p.addr_map
  unplaced : entry.locations ≡ []
  small : entry.size < 2 ^ 31
  packets : q.packets ≡ p.packets
  num_packets : q.num_packets ≡ p.num_packets
  current : q.current ≡ p.current

size_small :
    (t : Text) (n : ℤ)
    → stoi t ≡ ok n
    → ((k : ℕ) → stoi t ≢ ok (negsuc k))
    → to_unsigned 64 n < 2 ^ 31
size_small t (pos n) e plain = omega (arith, stoi_small t n e)
size_small t (negsuc n) e plain = absurd (plain n e)

pub Defines-of :
    (p q : Parser) (line : Text)
    → IsPlain line
    → measurement_line p line ≡ ok q
    → Defines p q (token line 0)
unfolding measurement_line
Defines-of p q line plain h =
    let (_, _, h₁) =
      >>=-eq-ok (guard (not (reads_as (token line 0) "" || reads_as (token line 1) "")) failure) _
        h in
    let (n, e, h₂) = >>=-eq-ok (stoi (token line 1)) _ h₁ in
    let (type, _, h₃) = >>=-eq-ok (type_of_token (token line 2)) _ h₂ in
    let (os, _, h₄) =
      >>=-eq-ok (order_and_sign p.sys_endianness (token line 3) (token line 4)) _ h₃ in
    record {
      entry = record {
        locations = [];
        size = to_unsigned 64 n;
        endianness = os.0;
        type = type;
        sign = os.1;
      };
      addr_map = ground (arith, h₄);
      unplaced = refl;
      small = size_small (token line 1) n e plain;
      packets = ground (arith, h₄);
      num_packets = ground (arith, h₄);
      current = ground (arith, h₄);
    }

pub Defines-IsSound :
    (k : ℕ) (p q : Parser) (name : Text) → Defines p q name → IsSound k p → IsSound k q
Defines-IsSound k p q name d v = record {
  counted = ground (arith, d.packets, d.num_packets, v.counted);
  laid =
      rw (d.packets, d.current, d.addr_map)
        (record {
          inside = λ a ma la h.
              v.laid.inside a ma la (IsAt-define p.addr_map name a d.entry ma la d.unplaced h);
          apart = λ a b ma mb la lb ha hb.
              v.laid.apart a b ma mb la lb
                (IsAt-define p.addr_map name a d.entry ma la d.unplaced ha)
                (IsAt-define p.addr_map name b d.entry mb lb d.unplaced hb);
        });
  small = λ a ma h. elim (lookup-insert-cases name a d.entry ma p.addr_map (rw d.addr_map at h)) [
    | inl (_, w) ↦ ground (arith, w, d.small)
    | inr old ↦ v.small a ma old
  ];
  room = rw d.current v.room;
}

-- A line in the block of a packet: the packet is closed, or a measurement is placed at its end.
pub packet_line-cases :
    (p q : Parser) (packet : PacketInfo) (line : Text)
    → packet_line p packet line ≡ ok q
    → ((q.packets ≡ p.packets ++ packet ∷ [])
        × (q.num_packets ≡ p.num_packets + 1)
        × (q.current ≡ none)
        × (q.addr_map ≡ p.addr_map))
      ⊎ ((meas : MeasurementInfo) × (lookup (token line 0) p.addr_map ≡ some meas)
          × (q.packets ≡ p.packets)
          × (q.num_packets ≡ p.num_packets)
          × (q.current ≡ some (record packet { size = (packet.size + meas.size) % 2 ^ 64 }))
          × (q.addr_map
              ≡ insert
                  (token line 0)
                  (record meas {
                    locations =
                        meas.locations
                        ++ record { offset = packet.size; packet_index = p.num_packets } ∷ [];
                  })
                  p.addr_map))
unfolding packet_line
packet_line-cases p q packet line h = elim (Bool-cases (reads_as (token line 0) "}")) [
  | inl e ↦ inl (ground arith, ground arith, ground arith, ground arith)
  | inr e ↦ elim (Option-cases (lookup (token line 0) p.addr_map)) [
    | inl f ↦ absurd (ground arith)
    | inr (meas, f) ↦ inr (meas, f, ground arith, ground arith, ground arith, ground arith)
  ]
]

pub close-IsSound :
    (k : ℕ) (p q : Parser) (packet : PacketInfo)
    → p.current ≡ some packet
    → q.packets ≡ p.packets ++ packet ∷ []
    → q.num_packets ≡ p.num_packets + 1
    → q.current ≡ none
    → q.addr_map ≡ p.addr_map
    → IsSound k p
    → IsSound k q
close-IsSound k p q packet c ps n e m v = record {
  counted = rw (n, ps, v.counted) (omega (arith, length-append p.packets (packet ∷ [])));
  laid = rw (ps, e, m, append-nil) (rw c at v.laid);
  small = rw m v.small;
  room = rw e (omega arith);
}

pub place-IsSound :
    (k : ℕ) (p q : Parser) (packet : PacketInfo) (name : Text) (meas : MeasurementInfo)
    → p.current ≡ some packet
    → lookup name p.addr_map ≡ some meas
    → q.packets ≡ p.packets
    → q.num_packets ≡ p.num_packets
    → q.current ≡ some (record packet { size = (packet.size + meas.size) % 2 ^ 64 })
    → q.addr_map
      ≡ insert name
          (record meas {
            locations =
                meas.locations
                ++ record { offset = packet.size; packet_index = p.num_packets } ∷ [];
          })
          p.addr_map
    → k < 2 ^ 33
    → IsSound k p
    → IsSound (suc k) q
place-IsSound k p q packet name meas c f ps n e m b v =
    let r : packet.size ≤ k * 2 ^ 31 = rw c at v.room in
    let z : meas.size < 2 ^ 31 = v.small name meas f in
    let fits : (packet.size + meas.size) % 2 ^ 64 ≡ packet.size + meas.size = omega arith in
    record {
      counted = ground (arith, ps, n, v.counted);
      laid =
          rw (ps, e, m, v.counted, fits)
            (place-IsLaidOut p.packets packet p.addr_map name meas f (rw c at v.laid));
      small = λ a ma h.
          elim (lookup-insert-cases name a
            (record meas {
              locations =
                  meas.locations
                  ++ record { offset = packet.size; packet_index = p.num_packets } ∷ [];
            })
            ma p.addr_map (rw m at h)) [
              | inl (_, w) ↦ ground (arith, w)
              | inr old ↦ v.small a ma old
            ];
      room = rw (e, fits) (omega arith);
    }

pub IsSound-suc : (k : ℕ) (p : Parser) → IsSound k p → IsSound (suc k) p
IsSound-suc k p v = record {
  counted = v.counted;
  laid = v.laid;
  small = v.small;
  room = omega (arith, v.room);
}
