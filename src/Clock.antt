-- ===== src/Clock.antt =====
-- `CountdownClock` of lib/clock/src/clock.cpp: the clock in shared memory, its commands and its reading.
-- `curr` is what `systime()` says.
pub mod Show
pub mod Invariant
pub mod Laws
mod Tests
use gsw.Prelude.{
  ℕ, ◌+◌, ◌^◌, Bool, true, false, ◌&&◌, Option, none, some, Exec, ok, fault, ◌>>=◌, RetType,
  success, failure, leb, ltb, if◌then◌else◌,
}
use gsw.Prelude.Int.{ℤ, pos, pos_part, neg_part, ◌+ℤ◌, ◌-ℤ◌, ltb_ℤ}
use gsw.Text.{to_unsigned}

-- `clock_shm_t` without its semaphore. `t0` and `stop_time` are uint32_t, `hold` is an int64_t.
pub record ClockShm : Type 0 where
  pub t0 : ℕ
  pub hold_set : Bool
  pub hold : ℤ
  pub stopped : Bool
  pub stop_time : ℕ

pub data CmdType : Type 0 where
  start_clock stop_clock set_hold_clock release_hold_clock set_clock num_clock_cmds : CmdType

pub record ClockCmd : Type 0 where
  pub cmd : CmdType
  pub arg : ℤ

-- The value of an int64_t expression; an overflow is undefined.
abbrev pub int64 : ℤ → Exec ℤ
int64 a = if leb (neg_part a) (2 ^ 63) && ltb (pos_part a) (2 ^ 63) then ok a else fault

abbrev pub leb_ℤ : ℤ → ℤ → Bool
leb_ℤ a b = leb (pos_part a + neg_part b) (pos_part b + neg_part a)

-- The conversion of an int64_t to uint32_t.
abbrev pub u32_of : ℤ → ℕ
u32_of a = to_unsigned 32 a

-- A command returns the clock that it leaves with its code.
abbrev pub Outcome : Type 0
Outcome = Exec (ClockShm × RetType)

-- `create`, when no call of the system fails.
unfoldable pub create : ℕ → ClockShm
create curr = record { t0 = curr; hold_set = false; hold = pos 0; stopped = true; stop_time = curr }

-- curr_time + ((int64_t)t0 - (int64_t)stop_time), which no uint32_t values make overflow.
abbrev pub resumed_t0 : ℕ → ClockShm → ℤ
resumed_t0 curr c = pos curr +ℤ (pos c.t0 -ℤ pos c.stop_time)

-- A hold that is already past is unset.
unfoldable pub unset_past_hold : ℕ → ClockShm → Outcome
unset_past_hold curr c =
    if c.hold_set
    then (do
      at ← int64 (pos c.t0 +ℤ c.hold)
      ok ((if ltb_ℤ at (pos curr) then record c { hold_set = false } else c), success))
    else ok (c, success)

unfoldable pub start : ℕ → ClockShm → Outcome
unfolding unset_past_hold
start curr c =
    if c.stopped
    then unset_past_hold curr (record c { stopped = false; t0 = u32_of (resumed_t0 curr c) })
    else ok (c, failure)

-- At a hold, `t0` is moved so that the stop lines up.
unfoldable pub line_up : ℕ → ClockShm → Outcome
line_up curr c =
    if c.hold_set
    then (do
      at ← int64 (pos c.t0 +ℤ c.hold)
      if leb_ℤ at (pos curr)
          then (do t ← int64 (pos c.stop_time -ℤ c.hold); ok (record c { t0 = u32_of t }, success))
          else ok (c, success))
    else ok (c, success)

unfoldable pub stop : ℕ → ClockShm → Outcome
unfolding line_up
stop curr c =
    if c.stopped
    then ok (c, failure)
    else line_up curr (record c { stop_time = curr; stopped = true })

-- The hold is set, unless it has passed.
unfoldable pub place_hold : ℕ → ℤ → ClockShm → ℤ → Outcome
place_hold curr arg c ref_t0 = do
  at ← int64 (ref_t0 +ℤ arg)
  if ltb_ℤ at (pos curr)
      then ok (c, failure)
      else ok (record c { hold = arg; hold_set = true }, success)

unfoldable pub set_hold : ℕ → ℤ → ClockShm → Outcome
unfolding place_hold
set_hold curr arg c =
    if c.stopped
    then place_hold curr arg c (resumed_t0 curr c)
    else if c.hold_set
    then (do
      at ← int64 (pos c.t0 -ℤ c.hold)
      if ltb_ℤ at (pos curr) then ok (c, failure) else place_hold curr arg c (pos c.t0))
    else place_hold curr arg c (pos c.t0)

-- `t0` behind the release of a hold that was reached; a stopped clock's `stop_time` goes along.
unfoldable pub move_t0 : ClockShm → ℕ → ClockShm
move_t0 c t0 =
    if c.stopped
    then record c { t0 = t0; stop_time = u32_of (pos c.stop_time +ℤ (pos t0 -ℤ pos c.t0)) }
    else record c { t0 = t0 }

unfoldable pub release_hold : ℕ → ClockShm → Outcome
unfolding move_t0
release_hold curr c =
    if c.hold_set
    then (do
      at ← int64 (pos c.t0 +ℤ c.hold)
      if leb_ℤ at (pos curr)
          then (do
            t ← int64 (pos curr -ℤ c.hold)
            ok (move_t0 (record c { hold_set = false }) (u32_of t), success))
          else ok (record c { hold_set = false }, success))
    else ok (c, failure)

unfoldable pub set : ℕ → ℤ → ClockShm → Outcome
set curr arg c =
    if c.stopped
    then (do
      t ← int64 (pos curr -ℤ arg)
      ok (record c { t0 = u32_of t; stop_time = curr }, success))
    else ok (c, failure)

-- The switch of `parse_cmd`.
unfoldable pub handle : ℕ → ClockCmd → ClockShm → Outcome
unfolding start stop set_hold release_hold set
handle curr cmd c = elim cmd.cmd [
  | start_clock ↦ start curr c
  | stop_clock ↦ stop curr c
  | set_hold_clock ↦ set_hold curr cmd.arg c
  | release_hold_clock ↦ release_hold curr c
  | set_clock ↦ set curr cmd.arg c
  | num_clock_cmds ↦ ok (c, success)
]

-- What the system says to `sem_wait` and `sem_post`: true is 0.
pub record SemCalls : Type 0 where
  pub waited : Bool
  pub posted : Bool

-- `parse_cmd` of attached shared memory; a failure of `sem_post` is reported when all is done.
unfoldable pub parse_cmd : SemCalls → ℕ → ClockCmd → ClockShm → Outcome
unfolding handle
parse_cmd sem curr cmd c =
    if sem.waited
    then (do (c', ret) ← handle curr cmd c; ok (c', (if sem.posted then ret else failure)))
    else ok (c, failure)

-- What `read_time` stores when no pointer is NULL; `hold_time` is not stored without a hold.
pub record Reading : Type 0 where
  pub time : ℤ
  pub stopped : Bool
  pub holding : Bool
  pub hold_time : Option ℤ
  pub hold_set : Bool

abbrev pub reading : ClockShm → ℤ → Bool → Reading
reading c time holding = record {
  time = time;
  stopped = c.stopped;
  holding = holding;
  hold_time = if c.hold_set then some c.hold else none;
  hold_set = c.hold_set;
}

unfoldable pub read_running : ℕ → ClockShm → Exec Reading
read_running curr c =
    if c.hold_set
    then (do
      at ← int64 (pos c.t0 +ℤ c.hold)
      if ltb_ℤ at (pos curr)
          then ok (reading c c.hold true)
          else ok (reading c (pos curr -ℤ pos c.t0) false))
    else ok (reading c (pos curr -ℤ pos c.t0) false)

-- `read_time` when the calls of the semaphore succeed.
unfoldable pub read_time : ℕ → ClockShm → Exec Reading
unfolding read_running
read_time curr c =
    if c.stopped then ok (reading c (pos c.stop_time -ℤ pos c.t0) false) else read_running curr c
