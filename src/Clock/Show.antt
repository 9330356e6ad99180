-- ===== src/Clock/Show.antt =====
-- CountdownClock::to_str of lib/clock/src/clock.cpp. `std::to_string` is a parameter.
use gsw.Prelude.{
  ℕ, ◌+◌, ◌*◌, ◌/◌, ◌%◌, ◌-◌, ◌^◌, ◌<◌, ◌≡◌, refl, ◌++◌, Exec, ok, fault, ltb, ◌==◌, if◌then◌else◌,
  length, arith,
}
use gsw.Prelude.Int.{ℤ, pos, negsuc}
use gsw.Text.{Text, codes}

-- What the call leaves in its arguments: `time` is passed by reference.
pub record Shown : Type 0 where
  pub str : Text
  pub time : ℕ

module _ (to_string : ℕ → Text) where
  abbrev two_digits : ℕ → Text
  two_digits n = if ltb (length (to_string n)) 2 then codes "0" ++ to_string n else to_string n

  abbrev pub fields : Text → ℕ → Shown
  fields t time =
      let after_hours : ℕ = time % 3600000 in
      let after_minutes : ℕ = after_hours % 60000 in
      let after_seconds : ℕ = after_minutes % 1000 in
      record {
        str =
            t
            ++ codes " "
            ++ two_digits (time / 3600000)
            ++ codes ":"
            ++ two_digits (after_hours / 60000)
            ++ codes ":"
            ++ two_digits (after_minutes / 1000)
            ++ codes "."
            ++ to_string after_seconds;
        time = after_seconds;
      }

  -- The smallest int64_t has no negation.
  unfoldable pub to_str : ℤ → Exec Shown
  to_str (pos n) = ok (fields (if n == 0 then codes "T-" else codes "T+") n)
  to_str (negsuc n) = if ltb n (2 ^ 63 - 1) then ok (fields (codes "T-") (n + 1)) else fault

  -- The text of a time names hours, minutes below 60, seconds below 60 and milliseconds below 1000, which
  -- make up the time; the caller's time is left at the milliseconds.
  fields-str :
      (t : Text) (time : ℕ)
      → (h m s ms : ℕ) × ((fields t time).str
          ≡ t
            ++ codes " "
            ++ two_digits h
            ++ codes ":"
            ++ two_digits m
            ++ codes ":"
            ++ two_digits s
            ++ codes "."
            ++ to_string ms)
        × (h * 3600000 + m * 60000 + s * 1000 + ms ≡ time)
        × (m < 60)
        × (s < 60)
        × (ms < 1000)
        × ((fields t time).time ≡ ms)
  fields-str t time = (
    time / 3600000,
    time % 3600000 / 60000,
    time % 3600000 % 60000 / 1000,
    time % 3600000 % 60000 % 1000,
    refl,
    omega arith,
    omega arith,
    omega arith,
    omega arith,
    refl,
  )
