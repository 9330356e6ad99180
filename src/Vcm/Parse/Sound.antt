-- ===== src/Vcm/Parse/Sound.antt =====
-- Every configuration that the parser accepts places measurements inside their packets and apart.
use gsw.Prelude.{
  ℕ, suc, ◌+◌, ◌^◌, ◌≤◌, ◌<◌, ◌≡◌, refl, inl, inr, true, Option, none, some, List, [], ◌∷◌, ok, All,
  >>=-eq-ok, length, if◌then◌else◌, subst, nat_eq, arith, Bool-cases,
}
use mathlib.Core.List.{append-nil}
use gsw.Text.{Text, text_eq, token, reads_as}
use gsw.Vcm.Types.{PacketInfo}
use gsw.Vcm.Config.{Vcm}
use gsw.Vcm.Parse.{
  Parser, parse_line, parse_lines, init, dispatch, packet_line, start_parser, finish, is_blank,
  outer_line,
}
use gsw.Vcm.Parse.Layout.{IsLaidOut}
use gsw.Vcm.Parse.Steps.{
  IsPlain, IsSound, net_line-SameLayout, setting_line-SameLayout, SameLayout-IsSound, Starts-of,
  Starts-IsSound, Defines-of, Defines-IsSound, packet_line-cases, close-IsSound, place-IsSound,
  IsSound-suc,
}

outer_line-IsSound :
    (inet_pton : Text → ℕ → ℕ) (k : ℕ) (p q : Parser) (line : Text)
    → p.current ≡ none
    → IsPlain line
    → outer_line inet_pton p line ≡ ok q
    → IsSound k p
    → IsSound k q
outer_line-IsSound inet_pton k p q line c plain h v =
    elim (Bool-cases (reads_as (token line 0) "net")) [
      | inl e ↦ SameLayout-IsSound k p q (net_line-SameLayout p q line (rw e at h)) v
      | inr e ↦ elim (Bool-cases (reads_as (token line 1) "=")) [
        | inl f ↦
            SameLayout-IsSound k p q (setting_line-SameLayout inet_pton p q line (rw (e, f) at h)) v
        | inr f ↦ elim (Bool-cases (reads_as (token line 1) "{")) [
          | inl g ↦ Starts-IsSound k p q (Starts-of p q line q.current (rw (e, f, g) at h) refl) c v
          | inr g ↦
              Defines-IsSound k p q (token line 0) (Defines-of p q line plain (rw (e, f, g) at h)) v
        ]
      ]
    ]

packet_line-IsSound :
    (k : ℕ) (p q : Parser) (packet : PacketInfo) (line : Text)
    → p.current ≡ some packet
    → k < 2 ^ 33
    → packet_line p packet line ≡ ok q
    → IsSound k p
    → IsSound (suc k) q
packet_line-IsSound k p q packet line c b h v = elim (packet_line-cases p q packet line h) [
  | inl (ps, n, e, m) ↦ IsSound-suc k q (close-IsSound k p q packet c ps n e m v)
  | inr (meas, f, ps, n, e, m) ↦ place-IsSound k p q packet (token line 0) meas c f ps n e m b v
]

dispatch-IsSound :
    (inet_pton : Text → ℕ → ℕ) (k : ℕ) (p q : Parser) (line : Text) (c : Option PacketInfo)
    → p.current ≡ c
    → k < 2 ^ 33
    → IsPlain line
    → dispatch inet_pton p line c ≡ ok q
    → IsSound k p
    → IsSound (suc k) q
unfolding dispatch
dispatch-IsSound inet_pton k p q line none c b plain h v =
    IsSound-suc k q (outer_line-IsSound inet_pton k p q line c plain h v)
dispatch-IsSound inet_pton k p q line (some packet) c b plain h v =
    packet_line-IsSound k p q packet line c b h v

parse_line-IsSound :
    (inet_pton : Text → ℕ → ℕ) (k : ℕ) (p q : Parser) (line : Text)
    → k < 2 ^ 33
    → IsPlain line
    → parse_line inet_pton p line ≡ ok q
    → IsSound k p
    → IsSound (suc k) q
unfolding parse_line
parse_line-IsSound inet_pton k p q line b plain h v = elim (Bool-cases (is_blank line)) [
  | inl e ↦
      let blank : (if true then ok p else dispatch inet_pton p line p.current) ≡ ok q = rw e at h in
      let same : p ≡ q = cc blank in subst (IsSound (suc k)) same (IsSound-suc k p v)
  | inr e ↦ dispatch-IsSound inet_pton k p q line p.current refl b plain (rw e at h) v
]

parse_lines-IsSound :
    (inet_pton : Text → ℕ → ℕ) (k : ℕ) (p q : Parser) (lines : List Text)
    → k + length lines ≤ 2 ^ 33
    → All IsPlain lines
    → parse_lines inet_pton p lines ≡ ok q
    → IsSound k p
    → IsSound (k + length lines) q
unfolding parse_lines
parse_lines-IsSound inet_pton k p q [] b plain h v =
    let same : p ≡ q = cc in
    let here : k ≡ k + 0 = omega arith in rw (← here) (subst (IsSound k) same v)
parse_lines-IsSound inet_pton k p q (line ∷ lines) b plain h v =
    let (p₁, e, h₁) = >>=-eq-ok (parse_line inet_pton p line) _ h in
    let count : suc k + length lines ≡ k + suc (length lines) = omega arith in
    rw (← count) (
      parse_lines-IsSound inet_pton (suc k) p₁ q lines (omega arith) plain.1 h₁
        (parse_line-IsSound inet_pton k p p₁ line (omega arith) plain.0 e v))

-- Packets and measurements as the constructors leave them.
pub record IsFresh (v : Vcm) : Type 0 where
  pub packets : v.packets ≡ []
  pub num_packets : v.num_packets ≡ 0
  pub addr_map : v.addr_map ≡ []

start-IsSound : (v : Vcm) → IsFresh v → IsSound 0 (start_parser v)
start-IsSound v f = record {
  counted = ground (arith, f.packets, f.num_packets);
  laid =
      rw (f.packets, f.addr_map)
        (record {
          inside = λ a ma la h. absurd (ground (arith, h.0));
          apart = λ a b ma mb la lb h. absurd (ground (arith, h.0));
        });
  small = λ a ma h. absurd (ground (arith, rw f.addr_map at h));
  room = omega arith;
}

finish-closed : (p : Parser) (v : Vcm) → finish p ≡ ok v → (v ≡ p.vcm) × (p.current ≡ none)
finish-closed p v h = ground arith

-- If `init` of a new object accepts a file with no negative size in it, of at most 2 ^ 33 lines,
-- then `num_packets` is the number of packets, and every place of every measurement is inside of a
-- packet that exists and overlaps no other place of a measurement in that packet.
pub init-IsLaidOut :
    (inet_pton : Text → ℕ → ℕ) (v w : Vcm) (lines : List Text)
    → IsFresh v
    → length lines ≤ 2 ^ 33
    → All IsPlain lines
    → init inet_pton v lines ≡ ok w
    → (w.num_packets ≡ length w.packets) × IsLaidOut w.packets w.addr_map
unfolding init
init-IsLaidOut inet_pton v w lines f b plain h =
    let (p, e, h₁) = >>=-eq-ok (parse_lines inet_pton (start_parser v) lines) finish h in
    let (same, closed) = finish-closed p w h₁ in
    let s =
      parse_lines-IsSound inet_pton 0 (start_parser v) p lines (omega arith) plain e
        (start-IsSound v f) in
    rw same (s.counted, rw (closed, append-nil) at s.laid)
