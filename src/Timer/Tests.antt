-- ===== src/Timer/Tests.antt =====
-- Runs of the calendar code on inputs taken from the source's own tests.
use oxinit.Prelude.{◌≤◌, subst, arith, ◌≡◌, err, none, ok, refl, some}
use oxinit.Text.{codes, str_eq, parse_unsigned}
use oxinit.Timer.Elapse.{IsValid, IsCandidate, due, next_soonest}
use oxinit.Timer.{Schedule, Next, next, moment, Calendar, weekly, at, parse, next_at}

parse_at : parse (codes "03:30") ≡ ok (at 3 30 0)
unfolding parse str_eq parse_unsigned
parse_at = refl

parse_at_seconds : parse (codes "23:59:59") ≡ ok (at 23 59 59)
unfolding parse str_eq parse_unsigned
parse_at_seconds = refl

parse_refused : parse (codes " 9:00") ≡ err (record { expression = codes " 9:00" })
unfolding parse str_eq parse_unsigned
parse_refused = refl

parse_plus : parse (codes "+9:00") ≡ ok (at 9 0 0)
unfolding parse str_eq parse_unsigned
parse_plus = refl

next_weekly : next_at weekly 0 ≡ 345600
unfolding next_at
next_weekly = refl

next_daily : next_at (at 3 30 0) 12601 ≡ 99000
unfolding next_at
next_daily = refl

abbrev nightly : Schedule
nightly = record { on_boot = none; interval = some 7200_000_000_000; calendar = some (at 3 30 0) }

next-nightly : next nightly 12000 ≡ some (moment 12600)
unfolding next next_at
next-nightly = refl

nightly-IsValid : (c : Calendar) → nightly.calendar ≡ some c → IsValid c
nightly-IsValid c e = let same : at 3 30 0 ≡ c = cc in subst IsValid same (omega arith)

next_soonest_example :
    IsCandidate nightly 12000 (moment 12600)
    × ((m : Next) → IsCandidate nightly 12000 m → due (moment 12600) 12000 ≤ due m 12000)
next_soonest_example =
    next_soonest nightly 12000 (moment 12600) nightly-IsValid (omega arith) next-nightly
