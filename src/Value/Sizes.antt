-- ===== src/Value/Sizes.antt =====
-- Sizes that are written as the format says are read as what they say: crates/oxinit-unit/src/value.rs.
use mathlib.Core.List.{append-nil}
use oxinit.Prelude.{
  ℕ, ◌*◌, ◌≡◌, ◌≤◌, inl, inr, refl, ap, ◌∙◌, true, false, some, [], ◌∷◌, ◌++◌, arith, leb,
  if◌then◌else◌, ok, err, all, Bool-cases,
}
use oxinit.Text.{Text, codes, str_eq, str_eq_iff, is_digit}
use oxinit.Text.Chars.{trim, trim_start, trim_end, is_alphabetic, is_whitespace}
use oxinit.Text.Decimal.{
  print_unsigned, print_unsigned-all_digits, print_unsigned-starts, parse-print_unsigned,
  parse-print_unsigned_over, starts_digit,
}
use oxinit.Text.Pieces.{
  is_solid, stops, take_while-append, drop-append, trim_start-stops, trim_end-solid, all-append,
  digits-are_solid, letters-are_solid,
}
use oxinit.Time.{u64_max}
use oxinit.Unit.{SizeValue, bytes, max_size}
use oxinit.Value.{
  parse_size, read_size, print_size, size_multiplier, size_overflow, checked_mul, is_empty,
}

-- The suffixes are letters, and their factors are positive.
size_multiplier-letters :
    (suffix : Text) {m : ℕ}
    → size_multiplier suffix ≡ some m
    → (all is_alphabetic suffix ≡ true) × (stops is_digit suffix ≡ true) × (1 ≤ m)
unfolding size_multiplier
size_multiplier-letters suffix e = ground (
  arith,
  str_eq_iff suffix (codes "K"),
  str_eq_iff suffix (codes "M"),
  str_eq_iff suffix (codes "G"),
  str_eq_iff suffix (codes "T"),
)

trim-solid : (t : Text) → all is_solid t ≡ true → trim t ≡ t
trim-solid t a = ap trim_start (trim_end-solid t a) ∙ trim_start-stops t (starts t a)
  where
    starts : (t : Text) → all is_solid t ≡ true → stops is_whitespace t ≡ true
    starts [] a = refl
    starts (c ∷ cs) a = ground arith

written-solid :
    (n : ℕ) (suffix : Text)
    → all is_alphabetic suffix ≡ true
    → all is_solid (print_unsigned n ++ suffix) ≡ true
written-solid n suffix a = ground (
  arith,
  all-append is_solid (print_unsigned n) suffix,
  digits-are_solid (print_unsigned n) (print_unsigned-all_digits n),
  letters-are_solid suffix a,
)

starts-not_max :
    (t suffix : Text)
    → starts_digit t ≡ true
    → (str_eq (t ++ suffix) (codes "max") ≡ false)
      × (is_empty (t ++ suffix) ≡ false)
      × (is_empty t ≡ false)
unfolding str_eq
starts-not_max [] suffix s = ground arith
starts-not_max (c ∷ cs) suffix s = ground arith

pub le-mul : (n m : ℕ) → 1 ≤ m → n ≤ n * m
le-mul n m h = grind arith

-- Every number with every size suffix, none included, is read as the number times the suffix's factor,
-- and as an overflow where that does not fit a `u64`.
parse_size-scaled :
    (n m : ℕ) (suffix : Text)
    → size_multiplier suffix ≡ some m
    → parse_size (print_unsigned n ++ suffix)
      ≡ (if leb (n * m) u64_max then ok (bytes (n * m)) else err size_overflow)
unfolding parse_size read_size checked_mul
parse_size-scaled n m suffix e =
    let t = print_unsigned n in
    let (letters, no_digit, positive) = size_multiplier-letters suffix e in
    let whole = trim-solid (t ++ suffix) (written-solid n suffix letters) in
    let head = starts-not_max t suffix (print_unsigned-starts n) in
    let digits = take_while-append is_digit t suffix (print_unsigned-all_digits n) no_digit in
    let behind = drop-append t suffix in
    elim (Bool-cases (leb n u64_max)) [
      | inl fits ↦ ground (arith, parse-print_unsigned u64_max n)
      | inr over ↦
          let none_left = parse-print_unsigned_over u64_max n (ground arith) in
          let more = le-mul n m positive in ground arith
    ]

-- What is printed for a cgroup is read back, as long as it fits its type.
parse-print_size :
    (v : SizeValue)
    → elim v [ bytes n ↦ leb n u64_max | max_size ↦ true ] ≡ true
    → parse_size (print_size v) ≡ ok v
unfolding print_size
parse-print_size (bytes n) fits =
    let plain = parse_size-scaled n 1 [] (unfold size_multiplier in refl) in
    let same = append-nil (print_unsigned n) in ground arith
parse-print_size max_size fits = unfold parse_size str_eq trim_end trim_start is_whitespace in refl
