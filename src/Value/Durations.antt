-- ===== src/Value/Durations.antt =====
-- What `parse_duration` of crates/oxinit-unit/src/value.rs makes of durations that are written as the
-- format says.
use oxinit.Prelude.{
  ◌≡◌, ◌≢◌, ◌≤◌, inl, inr, refl, ap, ◌∙◌, false, some, List, [], ◌∷◌, ◌++◌, arith, leb,
  if◌then◌else◌, ok, err, length, length-append, Bool-cases, All,
}
use oxinit.Text.{Text}
use oxinit.Text.Chars.{trim, trim_start, trim_end}
use oxinit.Text.Decimal.{print_unsigned}
use oxinit.Text.Pieces.{is_solid, trim_end-solid, trim_end-append, all-append, letters-are_solid}
use oxinit.Time.{u64_max, from_micros}
use oxinit.Value.{parse_duration, is_empty, duration_overflow}
use oxinit.Value.Pairs.{
  Pair, IsPair, write_pairs, write_pairs, total, total, multiplier-letters, body,
  trim_start-write_pairs, trim_start-write_pairs, body-not_empty, read_pairs-left_of,
}

append-not_empty : (xs ys : Text) → is_empty ys ≡ false → is_empty (xs ++ ys) ≡ false
append-not_empty [] ys n = n
append-not_empty (x ∷ xs) ys n = refl

ne-nil : (t : Text) → is_empty t ≡ false → t ≢ []
ne-nil t n e = cc (ap is_empty e)

trim_end-behind :
    (xs ys : Text) → is_empty ys ≡ false → trim_end ys ≡ ys → trim_end (xs ++ ys) ≡ xs ++ ys
trim_end-behind xs ys n e = trim_end-append xs ys e (ne-nil ys n)

suffix-append : (t u : Text) → is_empty t ≡ false → is_empty (t ++ u) ≡ false
suffix-append [] u n = ground arith
suffix-append (c ∷ cs) u n = refl

-- The last unit stays when the text is trimmed.
trim_end-write_pairs :
    (p : Pair) (ps : List Pair)
    → All IsPair (p ∷ ps)
    → trim_end (write_pairs (p ∷ ps)) ≡ write_pairs (p ∷ ps)
trim_end-write_pairs p [] (is, a) =
    let (letters, _, some_letters, _) = multiplier-letters p.suffix is.known in
    trim_end-behind p.gap (body p []) (body-not_empty p []) (
      trim_end-behind (print_unsigned p.number) (p.suffix ++ [])
        (suffix-append p.suffix [] some_letters)
        (trim_end-solid (p.suffix ++ [])
          (ground (arith, all-append is_solid p.suffix [], letters-are_solid p.suffix letters))))
trim_end-write_pairs p (q ∷ qs) (is, a) =
    let (_, _, some_letters, _) = multiplier-letters p.suffix is.known in
    trim_end-behind p.gap (body p (q ∷ qs)) (body-not_empty p (q ∷ qs)) (
      trim_end-behind (print_unsigned p.number) (p.suffix ++ write_pairs (q ∷ qs))
        (suffix-append p.suffix (write_pairs (q ∷ qs)) some_letters)
        (trim_end-behind p.suffix (write_pairs (q ∷ qs))
          (append-not_empty q.gap (body q qs) (body-not_empty q qs)) (trim_end-write_pairs q qs a)))

length-write_pairs : (ps : List Pair) → All IsPair ps → length ps ≤ length (write_pairs ps)
length-write_pairs [] a = omega arith
length-write_pairs (p ∷ ps) (is, a) =
    let some_letters = (multiplier-letters p.suffix is.known).2 in
    ground (
      arith,
      length-append p.gap (body p ps),
      length-append (print_unsigned p.number) (p.suffix ++ write_pairs ps),
      length-append p.suffix (write_pairs ps),
      length-write_pairs ps a,
      length-some p.suffix,
    )
  where
    length-some : (t : Text) → is_empty t ≡ false → 1 ≤ length t
    length-some [] n = ground arith
    length-some (c ∷ cs) n = omega arith

-- Any numbers with their units, with or without space before each, are read as the sum of what they
-- stand for, and as an overflow where that is more microseconds than a `u64` holds.
pub parse_duration-written :
    (p : Pair) (ps : List Pair)
    → All IsPair (p ∷ ps)
    → parse_duration (write_pairs (p ∷ ps))
      ≡ some (
          if leb (total (p ∷ ps)) u64_max
          then ok (from_micros (total (p ∷ ps)))
          else err duration_overflow)
unfolding parse_duration
parse_duration-written p ps a =
    let t = write_pairs (p ∷ ps) in
    let whole : trim t ≡ body p ps =
      ap trim_start (trim_end-write_pairs p ps a) ∙ trim_start-write_pairs (p ∷ ps) a in
    let some_text = body-not_empty p ps in
    let read =
      read_pairs-left_of (length t) t (p ∷ ps) 0 a (length-write_pairs (p ∷ ps) a) (omega arith) in
    elim (Bool-cases (leb (total (p ∷ ps)) u64_max)) [
      | inl fits ↦ ground arith
      | inr over ↦ ground arith
    ]
