-- ===== src/Clock/Tests.antt =====
-- A countdown of ten seconds, with a hold.
use gsw.Prelude.{◌≡◌, refl, true, false, ok, success, arith}
use gsw.Prelude.Int.{ℤ, pos, negsuc, ◌+ℤ◌, ◌-ℤ◌}
use gsw.Clock.{
  ClockShm, ClockCmd, SemCalls, create, start, stop, set, set_hold, release_hold, parse_cmd,
  read_time, reading, set_hold_clock,
}
use gsw.Clock.Invariant.{IsClock, Keeps, parse_cmd-Keeps}
use gsw.Clock.Laws.{start-stop, set_hold-release_hold, start-set}

-- Started at 3,000,000 with ten seconds to go.
abbrev counting : ClockShm
counting = record {
  t0 = 3010000;
  hold_set = false;
  hold = pos 0;
  stopped = false;
  stop_time = 3000000;
}

-- Five seconds before the start.
abbrev hold_at : ℤ
hold_at = negsuc 4999

abbrev fresh : ClockShm
unfolding create
fresh = create 3000000

counting-IsClock : IsClock counting
counting-IsClock = record {
  t0 = omega arith;
  stop_time = omega arith;
  hold = record { above = omega arith; below = omega arith };
}

parse_cmd-Keeps_example : Keeps counting (
    parse_cmd
      (record { waited = true; posted = true })
      3001000
      (record { cmd = set_hold_clock; arg = hold_at })
      counting)
parse_cmd-Keeps_example =
    parse_cmd-Keeps (record { waited = true; posted = true }) 3001000
      (record { cmd = set_hold_clock; arg = hold_at }) counting counting-IsClock
      (record { above = omega arith; below = omega arith }) (omega arith) refl

start-stop_example :
    (d e : ClockShm) × (stop 3001000 counting ≡ ok (d, success))
    × (start 3004000 d ≡ ok (e, success))
    × (read_time 3001000 counting ≡ ok (reading counting (pos 3001000 -ℤ pos 3010000) false))
    × (read_time 3004000 d ≡ ok (reading d (pos 3001000 -ℤ pos 3010000) false))
    × (read_time 3005000 e
        ≡ ok (reading e (pos 3001000 -ℤ pos 3010000 +ℤ (pos 3005000 -ℤ pos 3004000)) false))
start-stop_example =
    start-stop counting 3001000 3004000 3005000 counting-IsClock refl refl (omega arith)
      (omega arith)

set_hold-release_hold_example :
    (d e : ClockShm) × (set_hold 3001000 hold_at counting ≡ ok (d, success))
    × (release_hold 3008000 d ≡ ok (e, success))
    × (read_time 3007000 d ≡ ok (reading d hold_at true))
    × (read_time 3009000 e ≡ ok (reading e (hold_at +ℤ (pos 3009000 -ℤ pos 3008000)) false))
unfolding ◌+ℤ◌
set_hold-release_hold_example =
    set_hold-release_hold counting hold_at 3001000 3007000 3008000 3009000 3013000 counting-IsClock
      refl refl (record { above = omega arith; below = omega arith }) (omega arith) refl
      (omega arith) refl (omega arith) (omega arith)

start-set_example :
    (d e : ClockShm) × (set 3000000 hold_at fresh ≡ ok (d, success))
    × (start 3004000 d ≡ ok (e, success))
    × (read_time 3001000 d ≡ ok (reading d hold_at false))
    × (read_time 3006000 e ≡ ok (reading e (hold_at +ℤ (pos 3006000 -ℤ pos 3004000)) false))
unfolding create ◌+ℤ◌
start-set_example =
    start-set fresh hold_at 3000000 3001000 3004000 3006000 3005000 3009000 refl refl
      (record { above = omega arith; below = omega arith }) refl refl (omega arith) (omega arith)
      (omega arith)

-- A second hold is accepted while the clock holds before the start, and the clock then jumps.
hold_replaced :
    set_hold 3008000 (pos 0) (record counting { hold = hold_at; hold_set = true })
    ≡ ok (record counting { hold = pos 0; hold_set = true }, success)
unfolding set_hold gsw.Clock.place_hold ◌+ℤ◌ ◌-ℤ◌
hold_replaced = refl
