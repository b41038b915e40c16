-- ===== src/Value/Ends.antt =====
-- The loop of `parse_duration` in crates/oxinit-unit/src/value.rs ends on every text.
use oxinit.Prelude.{
  ℕ, zero, suc, ◌≡◌, ◌≤◌, ◌<◌, inl, inr, refl, false, some, [], ◌∷◌, arith, Outcome, ok, err,
  length, drop, Bool-cases, Outcome-cases,
}
use oxinit.Text.{Text, is_digit}
use oxinit.Text.Chars.{trim, trim_start, trim_end, take_while, is_alphabetic}
use oxinit.Time.{Duration, from_micros}
use oxinit.Value.{parse_duration, read_pairs, read_pair, is_empty, ValueError}

-- A round takes some of the text away.
length-drop : (n : ℕ) (t : Text) → length (drop n t) ≤ length t
length-drop zero t = omega arith
length-drop (suc n) [] = omega arith
length-drop (suc n) (c ∷ cs) = omega (arith, length-drop n cs)

length-drop_lt :
    (xs : Text) (c : ℕ) (cs : Text)
    → is_empty xs ≡ false
    → length (drop (length xs) (c ∷ cs)) < length (c ∷ cs)
length-drop_lt [] c cs n = ground arith
length-drop_lt (x ∷ xs) c cs n = omega (arith, length-drop (length xs) cs)

length-trim_start : (t : Text) → length (trim_start t) ≤ length t
unfolding trim_start
length-trim_start [] = omega arith
length-trim_start (c ∷ cs) = ground (arith, length-trim_start cs)

read_pair-shorter :
    (input : Text) (c : ℕ) (cs : Text) (micros : ℕ) {left : Text} {sum : ℕ}
    → read_pair input (c ∷ cs) micros ≡ ok (left, sum)
    → length left < length (c ∷ cs)
unfolding read_pair
read_pair-shorter input c cs micros e =
    let digits = take_while is_digit (c ∷ cs) in
    let behind = drop (length digits) (c ∷ cs) in
    let suffix = take_while is_alphabetic behind in
    ground (
      arith,
      length-drop_lt digits c cs,
      length-drop (length suffix) behind,
      length-trim_start (drop (length suffix) behind),
    )

read_pairs_ends :
    (fuel : ℕ) (input rest : Text) (micros : ℕ)
    → length rest ≤ fuel
    → (o : Outcome ValueError ℕ) × (read_pairs fuel input rest micros ≡ some o)
unfolding read_pairs
read_pairs_ends fuel input [] micros l = (ok micros, refl)
read_pairs_ends zero input (c ∷ cs) micros l = absurd (omega arith)
read_pairs_ends (suc fuel) input (c ∷ cs) micros l =
    elim (Outcome-cases (read_pair input (c ∷ cs) micros)) [
      | inl ((left, sum), e) ↦
          let shorter = read_pair-shorter input c cs micros e in
          let (o, rest) = read_pairs_ends fuel input left sum (omega arith) in (o, ground arith)
      | inr (e', e) ↦ (err e', ground arith)
    ]

length-trim_end : (t : Text) → length (trim_end t) ≤ length t
unfolding trim_end
length-trim_end [] = omega arith
length-trim_end (c ∷ cs) = ground (arith, length-trim_end cs)

-- Every text is read to its end, as a duration or as an error.
parse_duration_ends :
    (input : Text) → (o : Outcome ValueError Duration) × (parse_duration input ≡ some o)
unfolding parse_duration
parse_duration_ends input =
    let short : length (trim input) ≤ length input =
      omega (arith, length-trim_start (trim_end input), length-trim_end input) in
    let (o, e) = read_pairs_ends (length input) input (trim input) 0 short in
    elim o
        as (λ o.
          read_pairs (length input) input (trim input) 0 ≡ some o
          → (o' : Outcome ValueError Duration) × (parse_duration input ≡ some o')) [
            | ok n ↦ λ e. elim (Bool-cases (is_empty (trim input))) [
              | inl b ↦ (err ValueError.empty_duration, ground arith)
              | inr b ↦ (ok (from_micros n), ground arith)
            ]
            | err x ↦ λ e. elim (Bool-cases (is_empty (trim input))) [
              | inl b ↦ (err ValueError.empty_duration, ground arith)
              | inr b ↦ (err x, ground arith)
            ]
          ]
      e
