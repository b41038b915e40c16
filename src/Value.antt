-- ===== src/Value.antt =====
-- crates/oxinit-unit/src/value.rs: durations and sizes. Sums and products are checked against `u64`.
-- The parsed pieces are ASCII, so a byte count is a count of characters.
pub mod Sizes
pub mod Ends
pub mod Pairs
pub mod Durations
mod Tests
use oxinit.Prelude.{
  ℕ, zero, suc, ◌+◌, ◌-◌, ◌*◌, ◌^◌, ◌≡◌, Bool, true, false, ◌&&◌, not, Option, none, some, List, [],
  ◌∷◌, ◌++◌, leb, ◌==◌, if◌then◌else◌, Outcome, ok, err, ◌>>=◌, ok_or, length, drop,
}
use oxinit.Text.{Text, codes, str_eq, is_digit, parse_unsigned}
use oxinit.Text.Chars.{trim, trim_start, take_while, is_alphabetic}
use oxinit.Text.Decimal.{print_unsigned}
use oxinit.Time.{Duration, from_micros, u64_max}
use oxinit.Unit.{SizeValue, bytes, max_size}

pub data ValueError : Type 0 where
  empty_duration : ValueError
  duration_syntax duration_suffix duration_unit : Text → ValueError
  duration_overflow empty_size : ValueError
  size_syntax size_unit : Text → ValueError
  size_overflow : ValueError

abbrev pub is_empty : Text → Bool
is_empty [] = true
is_empty (_ ∷ _) = false

abbrev pub micros_per : List (Text × ℕ)
micros_per =
    (codes "usec", 1)
    ∷ (codes "us", 1)
    ∷ (codes "msec", 1_000)
    ∷ (codes "ms", 1_000)
    ∷ (codes "seconds", 1_000_000)
    ∷ (codes "sec", 1_000_000)
    ∷ (codes "s", 1_000_000)
    ∷ (codes "minutes", 60_000_000)
    ∷ (codes "min", 60_000_000)
    ∷ (codes "hours", 3_600_000_000)
    ∷ (codes "h", 3_600_000_000)
    ∷ (codes "days", 86_400_000_000)
    ∷ (codes "d", 86_400_000_000)
    ∷ []

unfoldable pub multiplier_in : List (Text × ℕ) → Text → Option ℕ
multiplier_in [] suffix = none
multiplier_in ((name, m) ∷ table) suffix =
    if str_eq name suffix then some m else multiplier_in table suffix

-- `checked_mul` and `checked_add`.
unfoldable pub checked_mul : ℕ → ℕ → Option ℕ
checked_mul a b = if leb (a * b) u64_max then some (a * b) else none

unfoldable pub checked_add : ℕ → ℕ → Option ℕ
checked_add a b = if leb (a + b) u64_max then some (a + b) else none

-- The number and the suffix of one pair, and the new sum of microseconds.
unfoldable pub add_pair : Text → Text → ℕ → Outcome ValueError ℕ
unfolding multiplier_in checked_mul checked_add
add_pair digits suffix micros = do
  multiplier ← ok_or (duration_unit suffix) (multiplier_in micros_per suffix)
  value ← ok_or duration_overflow (parse_unsigned u64_max digits)
  scaled ← ok_or duration_overflow (checked_mul value multiplier)
  ok_or duration_overflow (checked_add micros scaled)

-- One round of the loop: the text that is left, and the sum.
unfoldable pub read_pair : Text → Text → ℕ → Outcome ValueError (Text × ℕ)
read_pair input rest micros =
    let digits = take_while is_digit rest in
    let behind = drop (length digits) rest in
    let suffix = take_while is_alphabetic behind in
    let left = trim_start (drop (length suffix) behind) in
    if is_empty digits
    then err (duration_syntax input)
    else (if is_empty suffix
        then err (duration_suffix input)
        else (add_pair digits suffix micros >>= λ sum. ok (left, sum)))

-- The loop, on fuel; `none` is a run that used it up.
unfoldable pub read_pairs : ℕ → Text → Text → ℕ → Option (Outcome ValueError ℕ)
read_pairs fuel input [] micros = some (ok micros)
read_pairs zero input (c ∷ cs) micros = none
read_pairs (suc fuel) input (c ∷ cs) micros = elim (read_pair input (c ∷ cs) micros) [
  | err e ↦ some (err e)
  | ok (left, sum) ↦ read_pairs fuel input left sum
]

abbrev to_duration : Outcome ValueError ℕ → Outcome ValueError Duration
to_duration (err e) = err e
to_duration (ok micros) = ok (from_micros micros)

unfoldable pub parse_duration : Text → Option (Outcome ValueError Duration)
parse_duration input =
    if is_empty (trim input)
    then some (err empty_duration)
    else elim (read_pairs (length input) input (trim input) 0) [
      | none ↦ none
      | some o ↦ some (to_duration o)
    ]

unfoldable pub size_multiplier : Text → Option ℕ
size_multiplier suffix =
    if is_empty suffix
    then some 1
    else (if str_eq suffix (codes "K")
        then some 1_024
        else (if str_eq suffix (codes "M")
            then some 1_048_576
            else (if str_eq suffix (codes "G")
                then some 1_073_741_824
                else (if str_eq suffix (codes "T") then some 1_099_511_627_776 else none))))

unfoldable pub read_size : Text → Text → Outcome ValueError SizeValue
unfolding size_multiplier checked_mul
read_size input text =
    let digits = take_while is_digit text in
    let suffix = drop (length digits) text in
    if is_empty digits then err (size_syntax input) else (do
      multiplier ← ok_or (size_unit suffix) (size_multiplier suffix)
      value ← ok_or size_overflow (parse_unsigned u64_max digits)
      scaled ← ok_or size_overflow (checked_mul value multiplier)
      ok (bytes scaled))

unfoldable pub parse_size : Text → Outcome ValueError SizeValue
parse_size input =
    if str_eq (trim input) (codes "max")
    then ok max_size
    else (if is_empty (trim input) then err empty_size else read_size input (trim input))

-- `Display`: what is written to the cgroup's file.
unfoldable pub print_size : SizeValue → Text
print_size (bytes n) = print_unsigned n
print_size max_size = codes "max"
