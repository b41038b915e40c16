-- ===== src/Value/Tests.antt =====
-- Runs of crates/oxinit-unit/src/value.rs, and its theorems at concrete inputs.
use oxinit.Prelude.{◌≡◌, refl, some, ok, err, [], ◌∷◌}
use oxinit.Text.{codes, str_eq, parse_unsigned}
use oxinit.Text.Chars.{is_whitespace, trim_start, trim_end, take_while}
use oxinit.Text.Decimal.{print_unsigned}
use oxinit.Time.{from_secs}
use oxinit.Value.{
  parse_duration, parse_size, size_multiplier, duration_overflow, duration_suffix, size_unit,
  multiplier_in, read_pairs, read_pair, add_pair, read_size,
}
use oxinit.Value.Pairs.{Pair, IsPair, write_pairs}
use oxinit.Value.Durations.{parse_duration-written}

abbrev hours : Pair
hours = record { gap = codes " "; number = 1; suffix = codes "h"; factor = 3_600_000_000 }

abbrev minutes : Pair
minutes = record { gap = codes "  "; number = 30; suffix = codes "min"; factor = 60_000_000 }

abbrev days : Pair
days = record { gap = []; number = 300_000_000; suffix = codes "days"; factor = 86_400_000_000 }

written : write_pairs (hours ∷ minutes ∷ []) ≡ codes " 1h  30min"
unfolding print_unsigned
written = refl

hours-IsPair : IsPair hours
unfolding multiplier_in str_eq is_whitespace
hours-IsPair = record { spaces = refl; known = refl }

minutes-IsPair : IsPair minutes
unfolding multiplier_in str_eq is_whitespace
minutes-IsPair = record { spaces = refl; known = refl }

days-IsPair : IsPair days
unfolding multiplier_in str_eq
days-IsPair = record { spaces = refl; known = refl }

parse_duration-written_example :
    parse_duration (write_pairs (hours ∷ minutes ∷ [])) ≡ some (ok (from_secs 5_400))
parse_duration-written_example =
    parse_duration-written hours (minutes ∷ []) (hours-IsPair, (minutes-IsPair, tt))

too_many_days : parse_duration (write_pairs (days ∷ [])) ≡ some (err duration_overflow)
too_many_days = parse_duration-written days [] (days-IsPair, tt)

program : Unit {0}
unfolding parse_duration read_pairs read_pair add_pair take_while trim_start trim_end is_whitespace
    str_eq parse_unsigned parse_size read_size size_multiplier
program = tt

space_before_unit : parse_duration (codes "5 s") ≡ some (err (duration_suffix (codes "5 s")))
unfolding program
space_before_unit = refl

sum_of_pairs : parse_duration (codes "1min 30s") ≡ some (ok (from_secs 90))
unfolding program
sum_of_pairs = refl

two_letters : parse_size (codes "256MB") ≡ err (size_unit (codes "MB"))
unfolding program
two_letters = refl
