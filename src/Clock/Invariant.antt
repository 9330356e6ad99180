-- ===== src/Clock/Invariant.antt =====
-- No command overflows, each keeps the clock's fields in range, and a command that fails changes nothing.
use gsw.Prelude.{
  ℕ, ◌^◌, ◌≤◌, ◌<◌, ◌≡◌, refl, ◌⊎◌, inl, inr, Bool, true, false, ok, err, fault, ◌>>=◌, RetType,
  success, failure, if◌then◌else◌, arith, Bool-cases,
}
use gsw.Prelude.Int.{ℤ, pos, negsuc, pos_part, neg_part, ◌+ℤ◌, ◌-ℤ◌, ltb_ℤ}
use gsw.Clock.{
  ClockShm, ClockCmd, CmdType, SemCalls, Outcome, int64, u32_of, leb_ℤ, resumed_t0, unset_past_hold,
  start, line_up, stop, place_hold, set_hold, move_t0, release_hold, set, handle, parse_cmd,
  start_clock, stop_clock, set_hold_clock, release_hold_clock, set_clock, num_clock_cmds,
}

-- A time of less than 2 ^ 62 ms, in either direction.
pub record IsSmall (a : ℤ) : Type 0 where
  pub above : pos_part a < 2 ^ 62
  pub below : neg_part a < 2 ^ 62

-- The fields are in range.
pub record IsClock (c : ClockShm) : Type 0 where
  pub t0 : c.t0 < 2 ^ 32
  pub stop_time : c.stop_time < 2 ^ 32
  pub hold : IsSmall c.hold

-- The command returns a clock in range; it has succeeded, or the clock is as it was.
abbrev pub Keeps : ClockShm → Outcome → Type 0
Keeps c (ok (c', r)) = IsClock c' × ((r ≡ success) ⊎ (c' ≡ c))
Keeps c (err e) = ⊥
Keeps c fault = ⊥

u32_of_bound : (a : ℤ) → u32_of a < 2 ^ 32
u32_of_bound (pos n) = omega arith
u32_of_bound (negsuc n) = omega arith

-- A sum that is no larger than 2 ^ 63.
pub int64-eq : (a : ℤ) → pos_part a < 2 ^ 63 → neg_part a ≤ 2 ^ 63 → int64 a ≡ ok a
int64-eq a h k = ground arith

pub sum_int64 : (n : ℕ) (a : ℤ) → n < 2 ^ 33 → IsSmall a → int64 (pos n +ℤ a) ≡ ok (pos n +ℤ a)
unfolding ◌+ℤ◌
sum_int64 n a h s = int64-eq (pos n +ℤ a) (ground (arith, s.above)) (ground (arith, s.below))

pub difference_int64 :
    (n : ℕ) (a : ℤ) → n < 2 ^ 33 → IsSmall a → int64 (pos n -ℤ a) ≡ ok (pos n -ℤ a)
unfolding ◌-ℤ◌
difference_int64 n a h s = int64-eq (pos n -ℤ a) (ground (arith, s.below)) (ground (arith, s.above))

if-Keeps :
    (c : ClockShm) (b : Bool) (x y : Outcome) → Keeps c x → Keeps c y → Keeps c (if b then x else y)
if-Keeps c true x y h k = h
if-Keeps c false x y h k = k

if-unset :
    (c : ClockShm) (b : Bool) → IsClock c → IsClock (if b then record c { hold_set = false } else c)
if-unset c true k = record { t0 = k.t0; stop_time = k.stop_time; hold = k.hold }
if-unset c false k = k

unset_past_hold-Keeps : (c₀ c : ClockShm) (curr : ℕ) → IsClock c → Keeps c₀ (unset_past_hold curr c)
unfolding unset_past_hold
unset_past_hold-Keeps c₀ c curr k =
    if-Keeps c₀ c.hold_set _ _
      (rw (sum_int64 c.t0 c.hold (omega (arith, k.t0)) k.hold)
        (if-unset c (ltb_ℤ (pos c.t0 +ℤ c.hold) (pos curr)) k, inl refl))
      (k, inl refl)

line_up-Keeps : (c₀ c : ClockShm) (curr : ℕ) → IsClock c → Keeps c₀ (line_up curr c)
unfolding line_up
line_up-Keeps c₀ c curr k =
    if-Keeps c₀ c.hold_set _ _
      (rw (sum_int64 c.t0 c.hold (omega (arith, k.t0)) k.hold) (
        if-Keeps c₀ (leb_ℤ (pos c.t0 +ℤ c.hold) (pos curr)) _ _
          (rw (difference_int64 c.stop_time c.hold (omega (arith, k.stop_time)) k.hold) (
            record {
              t0 = u32_of_bound (pos c.stop_time -ℤ c.hold);
              stop_time = k.stop_time;
              hold = k.hold;
            },
            inl refl,
          ))
          (k, inl refl)))
      (k, inl refl)

place_hold-Keeps :
    (c : ClockShm) (curr : ℕ) (arg ref_t0 : ℤ)
    → IsClock c
    → IsSmall arg
    → pos_part ref_t0 < 2 ^ 33
    → neg_part ref_t0 < 2 ^ 33
    → Keeps c (place_hold curr arg c ref_t0)
unfolding place_hold ◌+ℤ◌
place_hold-Keeps c curr arg ref_t0 k s h l =
    rw (int64-eq (ref_t0 +ℤ arg) (ground (arith, s.above)) (ground (arith, s.below))) (
      if-Keeps c (ltb_ℤ (ref_t0 +ℤ arg) (pos curr)) _ _ (k, inr refl)
        (record { t0 = k.t0; stop_time = k.stop_time; hold = s }, inl refl))

set_hold-Keeps :
    (c : ClockShm) (curr : ℕ) (arg : ℤ)
    → IsClock c
    → IsSmall arg
    → curr < 2 ^ 32
    → Keeps c (set_hold curr arg c)
unfolding set_hold ◌+ℤ◌ ◌-ℤ◌
set_hold-Keeps c curr arg k s h =
    let running : Keeps c (place_hold curr arg c (pos c.t0)) =
      place_hold-Keeps c curr arg (pos c.t0) k s (omega (arith, k.t0)) (omega arith) in
    if-Keeps c c.stopped _ _
      (place_hold-Keeps c curr arg (resumed_t0 curr c) k s (ground (arith, k.t0))
        (ground (arith, k.stop_time)))
      (if-Keeps c c.hold_set _ _
        (rw (difference_int64 c.t0 c.hold (omega (arith, k.t0)) k.hold)
          (if-Keeps c (ltb_ℤ (pos c.t0 -ℤ c.hold) (pos curr)) _ _ (k, inr refl) running))
        running)

move_t0-IsClock : (c : ClockShm) (t0 : ℕ) → IsClock c → t0 < 2 ^ 32 → IsClock (move_t0 c t0)
unfolding move_t0
move_t0-IsClock c t0 k h = elim (Bool-cases c.stopped) [
  | inl y ↦ rw y record {
    t0 = h;
    stop_time = u32_of_bound (pos c.stop_time +ℤ (pos t0 -ℤ pos c.t0));
    hold = k.hold;
  }
  | inr n ↦ rw n record { t0 = h; stop_time = k.stop_time; hold = k.hold }
]

release_hold-Keeps :
    (c : ClockShm) (curr : ℕ) → IsClock c → curr < 2 ^ 32 → Keeps c (release_hold curr c)
unfolding release_hold
release_hold-Keeps c curr k h =
    let released : IsClock (record c { hold_set = false }) = record {
      t0 = k.t0;
      stop_time = k.stop_time;
      hold = k.hold;
    } in
    if-Keeps c c.hold_set _ _
      (rw (sum_int64 c.t0 c.hold (omega (arith, k.t0)) k.hold) (
        if-Keeps c (leb_ℤ (pos c.t0 +ℤ c.hold) (pos curr)) _ _
          (rw (difference_int64 curr c.hold (omega arith) k.hold) (
            move_t0-IsClock (record c { hold_set = false }) (u32_of (pos curr -ℤ c.hold)) released
                (u32_of_bound (pos curr -ℤ c.hold)),
            inl refl,
          ))
          (released, inl refl)))
      (k, inr refl)

handle-Keeps :
    (curr : ℕ) (type : CmdType) (arg : ℤ) (c : ClockShm)
    → IsClock c
    → IsSmall arg
    → curr < 2 ^ 32
    → Keeps c (handle curr (record { cmd = type; arg = arg }) c)
unfolding handle start stop set
handle-Keeps curr start_clock arg c k s h =
    if-Keeps c c.stopped _ _
      (unset_past_hold-Keeps c (record c { stopped = false; t0 = u32_of (resumed_t0 curr c) }) curr
        (record { t0 = u32_of_bound (resumed_t0 curr c); stop_time = k.stop_time; hold = k.hold }))
      (k, inr refl)
handle-Keeps curr stop_clock arg c k s h =
    if-Keeps c c.stopped _ _ (k, inr refl)
      (line_up-Keeps c (record c { stop_time = curr; stopped = true }) curr
        (record { t0 = k.t0; stop_time = h; hold = k.hold }))
handle-Keeps curr set_hold_clock arg c k s h = set_hold-Keeps c curr arg k s h
handle-Keeps curr release_hold_clock arg c k s h = release_hold-Keeps c curr k h
handle-Keeps curr set_clock arg c k s h =
    if-Keeps c c.stopped _ _
      (rw (difference_int64 curr arg (omega arith) s)
        (record { t0 = u32_of_bound (pos curr -ℤ arg); stop_time = h; hold = k.hold }, inl refl))
      (k, inr refl)
handle-Keeps curr num_clock_cmds arg c k s h = (k, inl refl)

posted-Keeps :
    (c : ClockShm) (posted : Bool) (x : Outcome)
    → Keeps c x
    → posted ≡ true
    → Keeps c (x >>= λ ((c', ret) : ClockShm × RetType). ok (c', (if posted then ret else failure)))
posted-Keeps c posted (ok (c', r)) h p = rw p h
posted-Keeps c posted (err e) h p = h
posted-Keeps c posted fault h p = h

-- Whatever the command and the time, on a clock in range `parse_cmd` returns without an overflow and
-- leaves a clock in range, if its argument and the hold are less than 2 ^ 62 ms; if it does not
-- succeed, though the semaphore can be posted, the clock is as it was.
pub parse_cmd-Keeps :
    (sem : SemCalls) (curr : ℕ) (cmd : ClockCmd) (c : ClockShm)
    → IsClock c
    → IsSmall cmd.arg
    → curr < 2 ^ 32
    → sem.posted ≡ true
    → Keeps c (parse_cmd sem curr cmd c)
unfolding parse_cmd
parse_cmd-Keeps sem curr cmd c k s h p =
    if-Keeps c sem.waited _ _
      (posted-Keeps c sem.posted (handle curr cmd c) (handle-Keeps curr cmd.cmd cmd.arg c k s h) p)
      (k, inr refl)
