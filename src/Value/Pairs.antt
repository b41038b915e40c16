-- ===== src/Value/Pairs.antt =====
-- Durations written as pairs of a number and a unit, and what `parse_duration` of
-- crates/oxinit-unit/src/value.rs makes of each pair.
use oxinit.Prelude.{
  ℕ, zero, suc, ◌+◌, ◌*◌, ◌≡◌, ◌≤◌, inl, inr, refl, sym, ap, ◌∙◌, Bool, true, false, ◌&&◌, not,
  some, List, [], ◌∷◌, ◌++◌, arith, leb, if◌then◌else◌, Outcome, ok, err, ◌>>=◌, length, all,
  Bool-cases, All,
}
use oxinit.Text.{Text, str_eq, str_eq_iff, is_digit}
use oxinit.Text.Chars.{trim_start, is_alphabetic, is_whitespace}
use oxinit.Text.Decimal.{
  print_unsigned, print_unsigned-all_digits, print_unsigned-starts, parse-print_unsigned,
  parse-print_unsigned_over, starts_digit,
}
use oxinit.Text.Pieces.{
  stops, take_while-append, drop-append, trim_start-stops, trim_start-append, digit-is_solid,
  whitespace-is_no_letter,
}
use oxinit.Time.{u64_max}
use oxinit.Value.{
  read_pairs, read_pair, add_pair, multiplier_in, micros_per, is_empty, ValueError,
  duration_overflow,
}
use oxinit.Value.Sizes.{le-mul}

-- One number with its unit, the unit's factor, and the space before it.
pub record Pair : Type 0 where
  pub gap : Text
  pub number : ℕ
  pub suffix : Text
  pub factor : ℕ

pub record IsPair (p : Pair) : Type 0 where
  pub spaces : all is_whitespace p.gap ≡ true
  pub known : multiplier_in micros_per p.suffix ≡ some p.factor

abbrev pub write_pairs : List Pair → Text
write_pairs [] = []
write_pairs (p ∷ ps) = p.gap ++ (print_unsigned p.number ++ (p.suffix ++ write_pairs ps))

abbrev pub total : List Pair → ℕ
total [] = 0
total (p ∷ ps) = p.number * p.factor + total ps

abbrev is_word : Text → Bool
is_word t = all is_alphabetic t && stops is_digit t && not (is_empty t)

multiplier-is_word :
    (table : List (Text × ℕ)) (suffix : Text) {m : ℕ}
    → all (λ e. is_word e.0 && leb 1 e.1) table ≡ true
    → multiplier_in table suffix ≡ some m
    → (is_word suffix ≡ true) × (1 ≤ m)
unfolding multiplier_in
multiplier-is_word [] suffix a e = ground arith
multiplier-is_word ((name, f) ∷ table) suffix {m} a e = elim (Bool-cases (str_eq name suffix)) [
  | inl same ↦
      let is = (str_eq_iff name suffix).0 same in (ap is_word (sym is) ∙ ground arith, ground arith)
  | inr different ↦ multiplier-is_word table suffix (ground arith) (ground arith)
]

-- The units are letters, and their factors are positive.
pub multiplier-letters :
    (suffix : Text) {m : ℕ}
    → multiplier_in micros_per suffix ≡ some m
    → (all is_alphabetic suffix ≡ true)
      × (stops is_digit suffix ≡ true)
      × (is_empty suffix ≡ false)
      × (1 ≤ m)
multiplier-letters suffix e =
    let (word, positive) = multiplier-is_word micros_per suffix refl e in
    (ground arith, ground arith, ground arith, positive)

add_pair-written :
    (n m : ℕ) (suffix : Text) (micros : ℕ)
    → multiplier_in micros_per suffix ≡ some m
    → add_pair (print_unsigned n) suffix micros
      ≡ (if leb (micros + n * m) u64_max then ok (micros + n * m) else err duration_overflow)
unfolding add_pair
add_pair-written n m suffix micros e =
    let more = le-mul n m (multiplier-letters suffix e).3 in
    elim (Bool-cases (leb n u64_max)) [
      | inl fits ↦ ground (arith, parse-print_unsigned u64_max n)
      | inr over ↦
          let none_left = parse-print_unsigned_over u64_max n (ground arith) in ground arith
    ]

stops-write_pairs : (ps : List Pair) → All IsPair ps → stops is_alphabetic (write_pairs ps) ≡ true
stops-write_pairs [] a = refl
stops-write_pairs (p ∷ ps) (is, a) =
    gap p.gap (p.suffix ++ write_pairs ps) (print_unsigned p.number) is.spaces
      (print_unsigned-starts p.number)
  where
    gap :
        (g u t : Text)
        → all is_whitespace g ≡ true
        → starts_digit t ≡ true
        → stops is_alphabetic (g ++ ((t ++ u))) ≡ true
    gap [] u [] w d = ground arith
    gap [] u (c ∷ t) w d = ground arith
    gap (x ∷ g) u t w d = ground (arith, whitespace-is_no_letter x)

abbrev checked_sum : ℕ → Outcome ValueError ℕ
checked_sum n = if leb n u64_max then ok n else err duration_overflow

-- The text from the first number on.
abbrev pub body : Pair → List Pair → Text
body p ps = print_unsigned p.number ++ (p.suffix ++ write_pairs ps)

trim_start-body : (p : Pair) (ps : List Pair) → trim_start (body p ps) ≡ body p ps
trim_start-body p ps =
    trim_start-stops (body p ps) (
      starts (print_unsigned p.number) (p.suffix ++ write_pairs ps)
        (print_unsigned-starts p.number))
  where
    starts : (t u : Text) → starts_digit t ≡ true → stops is_whitespace (t ++ u) ≡ true
    starts [] u d = ground arith
    starts (c ∷ cs) u d = ground (arith, digit-is_solid c)

-- What is left behind the first pair.
abbrev left_of : List Pair → Text
left_of [] = []
left_of (p ∷ ps) = body p ps

pub trim_start-write_pairs :
    (ps : List Pair) → All IsPair ps → trim_start (write_pairs ps) ≡ left_of ps
unfolding trim_start
trim_start-write_pairs [] a = refl
trim_start-write_pairs (p ∷ ps) (is, a) =
    trim_start-append p.gap (body p ps) is.spaces ∙ trim_start-body p ps

read_pair-body :
    (input : Text) (p : Pair) (ps : List Pair) (micros : ℕ)
    → IsPair p
    → All IsPair ps
    → read_pair input (body p ps) micros
      ≡ (checked_sum (micros + p.number * p.factor) >>= λ sum. ok (left_of ps, sum))
unfolding read_pair
read_pair-body input p ps micros is a =
    let (letters, no_digit, some_letters, positive) = multiplier-letters p.suffix is.known in
    let t = print_unsigned p.number in
    let u = p.suffix ++ write_pairs ps in
    let digits =
      take_while-append is_digit t u (print_unsigned-all_digits p.number)
        (stops-behind p.suffix (write_pairs ps) no_digit some_letters) in
    let some_digits = some-digit t (print_unsigned-starts p.number) in
    let behind = drop-append t u in
    let suffix =
      take_while-append is_alphabetic p.suffix (write_pairs ps) letters (stops-write_pairs ps a) in
    let after = drop-append p.suffix (write_pairs ps) in
    let left = trim_start-write_pairs ps a in
    let sum = add_pair-written p.number p.factor p.suffix micros is.known in ground arith
  where
    stops-behind :
        (s r : Text) → stops is_digit s ≡ true → is_empty s ≡ false → stops is_digit (s ++ r) ≡ true
    stops-behind [] r d n = ground arith
    stops-behind (c ∷ cs) r d n = d

    some-digit : (t : Text) → starts_digit t ≡ true → is_empty t ≡ false
    some-digit [] d = ground arith
    some-digit (c ∷ cs) d = refl

read_pairs-step :
    (fuel : ℕ) (input t : Text) (micros : ℕ) (r : Outcome ValueError (Text × ℕ))
    → is_empty t ≡ false
    → read_pair input t micros ≡ r
    → read_pairs (suc fuel) input t micros
      ≡ elim r [ err e ↦ some (err e) | ok (left, sum) ↦ read_pairs fuel input left sum ]
unfolding read_pairs
read_pairs-step fuel input [] micros r n e = ground arith
read_pairs-step fuel input (c ∷ cs) micros (err x) n e = ground arith
read_pairs-step fuel input (c ∷ cs) micros (ok (left, sum)) n e = ground arith

pub body-not_empty : (p : Pair) (ps : List Pair) → is_empty (body p ps) ≡ false
body-not_empty p ps =
    starts (print_unsigned p.number) (p.suffix ++ write_pairs ps) (print_unsigned-starts p.number)
  where
    starts : (t u : Text) → starts_digit t ≡ true → is_empty (t ++ u) ≡ false
    starts [] u d = ground arith
    starts (c ∷ cs) u d = refl

pub read_pairs-left_of :
    (fuel : ℕ) (input : Text) (ps : List Pair) (micros : ℕ)
    → All IsPair ps
    → length ps ≤ fuel
    → micros ≤ u64_max
    → read_pairs fuel input (left_of ps) micros ≡ some (checked_sum (micros + total ps))
read_pairs-left_of fuel input [] micros a l m = unfold read_pairs in ground arith
read_pairs-left_of zero input (p ∷ ps) micros a l m = absurd (omega arith)
read_pairs-left_of (suc fuel) input (p ∷ ps) micros (is, a) l m =
    let sum = micros + p.number * p.factor in
    let step =
      read_pairs-step fuel input (body p ps) micros _ (body-not_empty p ps)
        (read_pair-body input p ps micros is a) in
    elim (Bool-cases (leb sum u64_max)) [
      | inl fits ↦
          let rest = read_pairs-left_of fuel input ps sum a (omega arith) (ground arith) in
          ground arith
      | inr over ↦ ground arith
    ]
