-- ===== src/Timer.antt =====
-- crates/oxinit-timer/src/lib.rs: when a timer next elapses. Moments on the wall clock are seconds
-- since the epoch, in a `u64` whose plain arithmetic wraps in a release build.
pub mod Elapse
mod Tests
use oxinit.Prelude.{
  ℕ, zero, suc, ◌+◌, ◌-◌, ◌*◌, ◌/◌, ◌%◌, ◌≤◌, ◌<◌, ◌≡◌, refl, Bool, true, false, ◌&&◌, ◌||◌, not,
  Option, none, some, List, [], ◌∷◌, ltb, leb, ◌==◌, if◌then◌else◌, is_some, or_option, map_or,
  Outcome, ok, err, ◌>>=◌, ok_or,
}
use oxinit.Text.{Text, codes, str_eq, split_on, parse_unsigned}
use oxinit.Time.{Duration, u32_max, as_secs, saturating_add64, add64, sub64}

abbrev pub minute_secs : ℕ
minute_secs = 60

abbrev pub hour_secs : ℕ
hour_secs = 60 * 60

abbrev pub day_secs : ℕ
day_secs = 24 * (60 * 60)

pub data Calendar : Type 0 where
  hourly daily weekly : Calendar
  at : (hour minute second : ℕ) → Calendar

pub record CalendarError : Type 0 where
  pub expression : Text

-- The smallest multiple of `step` that is at least `now`.
round_up : ℕ → ℕ → ℕ
round_up now step = let past = now % step in if past == 0 then now else add64 now (step - past)

unfoldable pub next_at : Calendar → ℕ → ℕ
unfolding round_up
next_at hourly now = round_up now hour_secs
next_at daily now = round_up now day_secs
next_at weekly now =
    let shift = 7 * day_secs - 4 * day_secs in
    sub64 (round_up (add64 now shift) (7 * day_secs)) shift
next_at (at hour minute second) now =
    let offset = hour * hour_secs + minute * minute_secs + second in
    let midnight = now - now % day_secs in
    if leb now (add64 midnight offset)
    then add64 midnight offset
    else add64 (add64 midnight day_secs) offset

number : Text → ℕ → Text → Outcome CalendarError ℕ
number part max text = elim (parse_unsigned u32_max part) [
  | none ↦ err (record { expression = text })
  | some value ↦ if ltb max value then err (record { expression = text }) else ok value
]

field : Option Text → ℕ → Text → Outcome CalendarError ℕ
unfolding number
field none max text = err (record { expression = text })
field (some part) max text = number part max text

-- `parts.next()` on the pieces that are left.
next_part : List Text → Option Text × List Text
next_part [] = (none, [])
next_part (p ∷ ps) = (some p, ps)

abbrev seconds_part : Option Text → Text → Outcome CalendarError ℕ
unfolding number
seconds_part none text = ok 0
seconds_part (some part) text = number part 59 text

parse_time : Text → Outcome CalendarError Calendar
unfolding field number next_part split_on
parse_time text =
    let (hour_part, after_hour) = next_part (split_on b':' text) in
    let (minute_part, after_minute) = next_part after_hour in
    let (second_part, rest) = next_part after_minute in
    do
      hour ← field hour_part 23 text
      minute ← field minute_part 59 text
      second ← seconds_part second_part text
      (if is_some (next_part rest).0
          then err (record { expression = text })
          else ok (at hour minute second))

-- `hourly`, `daily`, `weekly`, `HH:MM`, or `HH:MM:SS`.
unfoldable pub parse : Text → Outcome CalendarError Calendar
unfolding parse_time
parse text =
    if str_eq text (codes "hourly")
    then ok hourly
    else (if str_eq text (codes "daily")
        then ok daily
        else (if str_eq text (codes "weekly") then ok weekly else parse_time text))

pub record Schedule : Type 0 where
  pub on_boot : Option Duration
  pub interval : Option Duration
  pub calendar : Option Calendar

-- When to fire, and on which clock.
pub data Next : Type 0 where
  after : Duration → Next
  moment : ℕ → Next

unfoldable pub in_seconds : Next → ℕ → ℕ
in_seconds (after delay) now = as_secs delay
in_seconds (moment t) now = t - now

unfoldable pub is_empty : Schedule → Bool
is_empty s = not (is_some s.on_boot) && not (is_some s.interval) && not (is_some s.calendar)

sooner : Option Duration → Option ℕ → ℕ → Option Next
sooner (some delay) (some t) now =
    if leb (saturating_add64 now (as_secs delay)) t then some (after delay) else some (moment t)
sooner (some delay) none now = some (after delay)
sooner none (some t) now = some (moment t)
sooner none none now = none

calendar_at : Option Calendar → ℕ → Option ℕ
calendar_at none now = none
calendar_at (some c) now = some (next_at c (saturating_add64 now 1))

unfoldable pub first : Schedule → ℕ → Option Next
unfolding sooner calendar_at
first s now = sooner (or_option s.on_boot s.interval) (calendar_at s.calendar now) now

unfoldable pub next : Schedule → ℕ → Option Next
unfolding sooner calendar_at
next s now = sooner s.interval (calendar_at s.calendar now) now
