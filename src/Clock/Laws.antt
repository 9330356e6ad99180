-- ===== src/Clock/Laws.antt =====
-- What the clock shows behind its commands.
use gsw.Prelude.{ℕ, ◌+◌, ◌-◌, ◌^◌, ◌≤◌, ◌<◌, ◌≡◌, refl, ap, true, false, ok, success, arith}
use gsw.Prelude.Int.{ℤ, pos, pos_part, neg_part, ◌+ℤ◌, ◌-ℤ◌, ◌≤ℤ◌, int_laws, ltb_ℤ, eq_of_parts}
use gsw.Clock.{
  ClockShm, int64, u32_of, resumed_t0, start, stop, set_hold, release_hold, set, read_time, reading,
  unset_past_hold, line_up, place_hold, move_t0, read_running,
}
use gsw.Clock.Invariant.{IsClock, IsSmall, sum_int64, difference_int64}

-- A uint32_t is its own conversion.
u32_of-pos : (a : ℤ) (n : ℕ) → a ≡ pos n → n < 2 ^ 32 → u32_of a ≡ n
u32_of-pos a n e h = rw e (omega arith)

-- A running clock without a hold that is stopped at `c₁` and started at `c₂` shows at `c₃` what it
-- showed at `c₁`, and the time from `c₂` on: it stood still in between. (The system's time does not
-- wrap, and the moved `t0` is a uint32_t.)
pub start-stop :
    (c : ClockShm) (c₁ c₂ c₃ : ℕ)
    → IsClock c
    → c.stopped ≡ false
    → c.hold_set ≡ false
    → c₁ ≤ c₂
    → c.t0 + (c₂ - c₁) < 2 ^ 32
    → (d e : ClockShm) × (stop c₁ c ≡ ok (d, success))
      × (start c₂ d ≡ ok (e, success))
      × (read_time c₁ c ≡ ok (reading c (pos c₁ -ℤ pos c.t0) false))
      × (read_time c₂ d ≡ ok (reading d (pos c₁ -ℤ pos c.t0) false))
      × (read_time c₃ e ≡ ok (reading e (pos c₁ -ℤ pos c.t0 +ℤ (pos c₃ -ℤ pos c₂)) false))
unfolding stop line_up start unset_past_hold read_time read_running
start-stop c c₁ c₂ c₃ k s h later wide =
    let d : ClockShm = record c { stop_time = c₁; stopped = true } in
    let moved : u32_of (resumed_t0 c₂ d) ≡ c.t0 + (c₂ - c₁) =
      u32_of-pos (resumed_t0 c₂ d) (c.t0 + (c₂ - c₁))
        (eq_of_parts (resumed_t0 c₂ d) (pos (c.t0 + (c₂ - c₁))) (omega int_laws)) wide in
    let e : ClockShm = record d { stopped = false; t0 = c.t0 + (c₂ - c₁) } in
    let shown : pos c₃ -ℤ pos (c.t0 + (c₂ - c₁)) ≡ pos c₁ -ℤ pos c.t0 +ℤ (pos c₃ -ℤ pos c₂) =
      eq_of_parts _ _ (omega int_laws) in
    (d, e, rw (s, h) refl, rw (h, moved) refl, rw (s, h) refl, refl, rw (h, shown) refl)

not_ltb_ℤ : (a b : ℤ) → b ≤ℤ a → ltb_ℤ a b ≡ false
not_ltb_ℤ a b h = ground arith

-- A running clock without a hold, for which a hold at the time `arg` is set before the clock gets
-- there, shows `arg` and that it holds at any later time `c₂`, and when the hold is released at `c₃`
-- it goes on from `arg`. (`n` is the uint32_t c₃ - arg.)
pub set_hold-release_hold :
    (c : ClockShm) (arg : ℤ) (c₁ c₂ c₃ c₄ n : ℕ)
    → IsClock c
    → c.stopped ≡ false
    → c.hold_set ≡ false
    → IsSmall arg
    → pos c₁ ≤ℤ pos c.t0 +ℤ arg
    → ltb_ℤ (pos c.t0 +ℤ arg) (pos c₂) ≡ true
    → pos c.t0 +ℤ arg ≤ℤ pos c₃
    → pos c₃ ≡ arg +ℤ pos n
    → c₃ < 2 ^ 32
    → n < 2 ^ 32
    → (d e : ClockShm) × (set_hold c₁ arg c ≡ ok (d, success))
      × (release_hold c₃ d ≡ ok (e, success))
      × (read_time c₂ d ≡ ok (reading d arg true))
      × (read_time c₄ e ≡ ok (reading e (arg +ℤ (pos c₄ -ℤ pos c₃)) false))
unfolding set_hold place_hold release_hold move_t0 read_time read_running
set_hold-release_hold c arg c₁ c₂ c₃ c₄ n k s h small first past due time wide low =
    let d : ClockShm = record c { hold = arg; hold_set = true } in
    let at : int64 (pos c.t0 +ℤ arg) ≡ ok (pos c.t0 +ℤ arg) =
      sum_int64 c.t0 arg (omega (arith, k.t0)) small in
    let to : int64 (pos c₃ -ℤ arg) ≡ ok (pos c₃ -ℤ arg) =
      difference_int64 c₃ arg (omega arith) small in
    let rest : pos c₃ -ℤ arg ≡ pos n =
      eq_of_parts _ _ (omega (int_laws, ap pos_part time, ap neg_part time)) in
    let moved : u32_of (pos c₃ -ℤ arg) ≡ n = u32_of-pos (pos c₃ -ℤ arg) n rest low in
    let e : ClockShm = record c { hold = arg; hold_set = false; t0 = n } in
    let shown : pos c₄ -ℤ pos n ≡ arg +ℤ (pos c₄ -ℤ pos c₃) =
      eq_of_parts _ _ (omega (int_laws, ap pos_part time, ap neg_part time)) in
    (
      d,
      e,
      rw (s, h, at, not_ltb_ℤ (pos c.t0 +ℤ arg) (pos c₁) first) refl,
      ground (arith, at, to, moved, s, due),
      rw (s, at, past) refl,
      rw (s, shown) refl,
    )

-- A stopped clock without a hold that is set to `arg` at `c₁` shows `arg` until it is started, at
-- `c₃`, and from there on goes on from `arg`. (`m` and `n` are the uint32_t c₁ - arg and c₃ - arg.)
pub start-set :
    (c : ClockShm) (arg : ℤ) (c₁ c₂ c₃ c₄ m n : ℕ)
    → c.stopped ≡ true
    → c.hold_set ≡ false
    → IsSmall arg
    → pos c₁ ≡ arg +ℤ pos m
    → pos c₃ ≡ arg +ℤ pos n
    → c₁ < 2 ^ 32
    → m < 2 ^ 32
    → n < 2 ^ 32
    → (d e : ClockShm) × (set c₁ arg c ≡ ok (d, success))
      × (start c₃ d ≡ ok (e, success))
      × (read_time c₂ d ≡ ok (reading d arg false))
      × (read_time c₄ e ≡ ok (reading e (arg +ℤ (pos c₄ -ℤ pos c₃)) false))
unfolding set start unset_past_hold read_time read_running
start-set c arg c₁ c₂ c₃ c₄ m n s h small time₁ time₃ low low₁ low₃ =
    let to : int64 (pos c₁ -ℤ arg) ≡ ok (pos c₁ -ℤ arg) =
      difference_int64 c₁ arg (omega arith) small in
    let rest : pos c₁ -ℤ arg ≡ pos m =
      eq_of_parts _ _ (omega (int_laws, ap pos_part time₁, ap neg_part time₁)) in
    let placed : u32_of (pos c₁ -ℤ arg) ≡ m = u32_of-pos (pos c₁ -ℤ arg) m rest low₁ in
    let d : ClockShm = record c { t0 = m; stop_time = c₁ } in
    let resumed : resumed_t0 c₃ d ≡ pos n = eq_of_parts _ _ (
      omega
        (int_laws, ap pos_part time₁, ap neg_part time₁, ap pos_part time₃, ap neg_part time₃)) in
    let moved : u32_of (resumed_t0 c₃ d) ≡ n = u32_of-pos (resumed_t0 c₃ d) n resumed low₃ in
    let e : ClockShm = record d { stopped = false; t0 = n } in
    let still : pos c₁ -ℤ pos m ≡ arg =
      eq_of_parts _ _ (omega (int_laws, ap pos_part time₁, ap neg_part time₁)) in
    let shown : pos c₄ -ℤ pos n ≡ arg +ℤ (pos c₄ -ℤ pos c₃) =
      eq_of_parts _ _ (omega (int_laws, ap pos_part time₃, ap neg_part time₃)) in
    (d, e, rw (s, to, placed) refl, rw (s, h, moved) refl, rw (s, still) refl, rw (h, shown) refl)
