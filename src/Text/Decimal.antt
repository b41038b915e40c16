-- ===== src/Text/Decimal.antt =====
-- `Display` of an unsigned number, and that `str::parse` reads it back.
use oxinit.Prelude.{
  ℕ, zero, suc, ◌+◌, ◌-◌, ◌*◌, ◌/◌, ◌%◌, ◌≡◌, ◌≤◌, ◌<◌, refl, ◌∙◌, Bool, true, false, ◌&&◌, [], ◌∷◌,
  ◌++◌, arith, ltb, leb, none, some, if◌then◌else◌, all, Bool-cases, inl, inr,
}
use oxinit.Text.{Text, is_digit, parse_digits, parse_unsigned}

-- The decimal digits; the fuel is more than the number of them.
digits : ℕ → ℕ → Text
digits zero n = []
digits (suc fuel) n =
    let front = digits fuel (n / 10) in
    if ltb n 10 then (b'0' + n) ∷ [] else front ++ (b'0' + n % 10) ∷ []

unfoldable pub print_unsigned : ℕ → Text
unfolding digits
print_unsigned n = digits (suc n) n

-- A last digit behind others.
parse_digits-snoc :
    (max acc d : ℕ) (xs : Text) (m : ℕ)
    → parse_digits max acc xs ≡ some m
    → d < 10
    → m * 10 + d ≤ max
    → parse_digits max acc (xs ++ (b'0' + d) ∷ []) ≡ some (m * 10 + d)
unfolding parse_digits
parse_digits-snoc max acc d [] m e small le = ground arith
parse_digits-snoc max acc d (c ∷ cs) m e small le =
    ground (arith, parse_digits-snoc max (acc * 10 + (c - b'0')) d cs m)

parse-digits : (fuel n max : ℕ) → n < fuel → n ≤ max → parse_digits max 0 (digits fuel n) ≡ some n
unfolding digits
parse-digits zero n max lt le = ground arith
parse-digits (suc fuel) n max lt le = elim (Bool-cases (ltb n 10)) [
  | inl small ↦ unfold parse_digits in ground arith
  | inr big ↦
      let front = parse-digits fuel (n / 10) max (ground arith) (ground arith) in
      ground (arith, parse_digits-snoc max 0 (n % 10) (digits fuel (n / 10)) (n / 10) front)
]

all-snoc : (c : ℕ) (xs : Text) → all is_digit (xs ++ c ∷ []) ≡ (all is_digit xs && is_digit c)
all-snoc c [] = ground arith
all-snoc c (x ∷ xs) = ground (arith, all-snoc c xs)

all-digits : (fuel n : ℕ) → all is_digit (digits fuel n) ≡ true
unfolding digits
all-digits zero n = refl
all-digits (suc fuel) n =
    ground (arith, all-digits fuel (n / 10), all-snoc (b'0' + n % 10) (digits fuel (n / 10)))

-- What is printed: digits, the first of them apart.
abbrev pub starts_digit : Text → Bool
starts_digit [] = false
starts_digit (c ∷ cs) = is_digit c

starts-digits : (fuel n : ℕ) → n < fuel → starts_digit (digits fuel n) ≡ true
unfolding digits
starts-digits zero n lt = ground arith
starts-digits (suc fuel) n lt =
    ground (arith, starts-digits fuel (n / 10), starts-snoc (b'0' + n % 10) (digits fuel (n / 10)))
  where
    starts-snoc : (c : ℕ) (xs : Text) → starts_digit xs ≡ true → starts_digit (xs ++ c ∷ []) ≡ true
    starts-snoc c [] e = ground arith
    starts-snoc c (x ∷ xs) e = e

parse_unsigned-digits :
    (max : ℕ) (t : Text) → starts_digit t ≡ true → parse_unsigned max t ≡ parse_digits max 0 t
unfolding parse_unsigned
parse_unsigned-digits max [] s = ground arith
parse_unsigned-digits max (c ∷ []) s = ground arith
parse_unsigned-digits max (c ∷ d ∷ cs) s = ground arith

-- A number within the bounds of its type is read back.
pub parse-print_unsigned : (max n : ℕ) → n ≤ max → parse_unsigned max (print_unsigned n) ≡ some n
unfolding print_unsigned
parse-print_unsigned max n le =
    parse_unsigned-digits max (digits (suc n) n) (starts-digits (suc n) n (omega arith))
    ∙ parse-digits (suc n) n max (omega arith) le

-- Some digits that stand for more than the largest number are refused.
parse_digits-snoc_over :
    (max acc d : ℕ) (xs : Text)
    → d < 10
    → ((m : ℕ) → parse_digits max acc xs ≡ some m → max < m * 10 + d)
    → parse_digits max acc (xs ++ (b'0' + d) ∷ []) ≡ none
unfolding parse_digits
parse_digits-snoc_over max acc d [] small over = let now = over acc refl in ground arith
parse_digits-snoc_over max acc d (c ∷ cs) small over =
    elim (Bool-cases (is_digit c && leb (acc * 10 + (c - b'0')) max)) [
      | inl fits ↦
          let rest =
            parse_digits-snoc_over max (acc * 10 + (c - b'0')) d cs small
              (λ m e. over m (ground arith)) in
          ground arith
      | inr out ↦ ground arith
    ]

parse-digits_over :
    (fuel n max : ℕ) → n < fuel → max < n → parse_digits max 0 (digits fuel n) ≡ none
unfolding digits
parse-digits_over zero n max lt over = ground arith
parse-digits_over (suc fuel) n max lt over = elim (Bool-cases (ltb n 10)) [
  | inl small ↦ unfold parse_digits in ground arith
  | inr big ↦ elim (Bool-cases (leb (n / 10) max)) [
    | inl fits ↦
        let front = parse-digits fuel (n / 10) max (ground arith) (ground arith) in
        let last =
          parse_digits-snoc_over max 0 (n % 10) (digits fuel (n / 10)) (omega arith)
            (λ m e. ground arith) in
        ground arith
    | inr above ↦
        let front = parse-digits_over fuel (n / 10) max (ground arith) (ground arith) in
        let last =
          parse_digits-snoc_over max 0 (n % 10) (digits fuel (n / 10)) (omega arith)
            (λ m e. ground arith) in
        ground arith
  ]
]

pub parse-print_unsigned_over : (max n : ℕ) → max < n → parse_unsigned max (print_unsigned n) ≡ none
unfolding print_unsigned
parse-print_unsigned_over max n over =
    parse_unsigned-digits max (digits (suc n) n) (starts-digits (suc n) n (omega arith))
    ∙ parse-digits_over (suc n) n max (omega arith) over

pub print_unsigned-all_digits : (n : ℕ) → all is_digit (print_unsigned n) ≡ true
unfolding print_unsigned
print_unsigned-all_digits n = all-digits (suc n) n

pub print_unsigned-starts : (n : ℕ) → starts_digit (print_unsigned n) ≡ true
unfolding print_unsigned
print_unsigned-starts n = starts-digits (suc n) n (omega arith)
