-- ===== src/Text/Pieces.antt =====
-- Lemmas on trimming and cutting texts.
use oxinit.Prelude.{
  ℕ, ◌≡◌, ◌≢◌, refl, Bool, true, false, ◌&&◌, not, [], ◌∷◌, ◌++◌, arith, length, drop, all,
}
use oxinit.Text.{Text, is_digit}
use oxinit.Text.Chars.{is_whitespace, is_alphabetic, trim_start, trim_end, take_while}

abbrev pub is_solid : ℕ → Bool
is_solid c = not (is_whitespace c)

-- The text is empty, or its first character fails the test.
abbrev pub stops : (ℕ → Bool) → Text → Bool
stops p [] = true
stops p (c ∷ cs) = not (p c)

pub take_while-append :
    (p : ℕ → Bool) (xs ys : Text)
    → all p xs ≡ true
    → stops p ys ≡ true
    → take_while p (xs ++ ys) ≡ xs
unfolding take_while
take_while-append p [] [] a s = refl
take_while-append p [] (y ∷ ys) a s = ground arith
take_while-append p (x ∷ xs) ys a s = ground (arith, take_while-append p xs ys)

pub drop-append : (xs ys : Text) → drop (length xs) (xs ++ ys) ≡ ys
drop-append [] ys = refl
drop-append (x ∷ xs) ys = drop-append xs ys

pub trim_start-stops : (t : Text) → stops is_whitespace t ≡ true → trim_start t ≡ t
unfolding trim_start
trim_start-stops [] s = refl
trim_start-stops (c ∷ cs) s = ground arith

pub trim_start-append :
    (gap t : Text) → all is_whitespace gap ≡ true → trim_start (gap ++ t) ≡ trim_start t
unfolding trim_start
trim_start-append [] t a = refl
trim_start-append (c ∷ gap) t a = ground (arith, trim_start-append gap t)

pub trim_end-solid : (t : Text) → all is_solid t ≡ true → trim_end t ≡ t
unfolding trim_end
trim_end-solid [] a = refl
trim_end-solid (c ∷ cs) a =
    let rest : trim_end cs ≡ cs = trim_end-solid cs (ground arith) in last cs rest
  where
    last : (ds : Text) → trim_end ds ≡ ds → trim_end (c ∷ ds) ≡ c ∷ ds
    last [] e = ground arith
    last (d ∷ ds) e = ground arith

-- A text that ends in a piece with nothing to trim.
pub trim_end-append : (xs ys : Text) → trim_end ys ≡ ys → ys ≢ [] → trim_end (xs ++ ys) ≡ xs ++ ys
unfolding trim_end
trim_end-append [] ys e n = e
trim_end-append (x ∷ xs) ys e n = behind (xs ++ ys) (trim_end-append xs ys e n) (ne xs)
  where
    ne : (zs : Text) → zs ++ ys ≢ []
    ne [] = n
    ne (z ∷ zs) = λ e'. cc

    behind : (zs : Text) → trim_end zs ≡ zs → zs ≢ [] → trim_end (x ∷ zs) ≡ x ∷ zs
    behind [] f m = absurd (m refl)
    behind (z ∷ zs) f m = ground arith

pub all-append : (p : ℕ → Bool) (xs ys : Text) → all p (xs ++ ys) ≡ (all p xs && all p ys)
all-append p [] ys = refl
all-append p (x ∷ xs) ys = ground (arith, all-append p xs ys)

pub digit-is_solid : (c : ℕ) → is_digit c ≡ true → is_whitespace c ≡ false
unfolding is_whitespace
digit-is_solid c d = ground arith

pub letter-is_solid : (c : ℕ) → is_alphabetic c ≡ true → is_whitespace c ≡ false
unfolding is_whitespace
letter-is_solid c d = ground arith

-- A space is neither a digit nor a letter.
pub whitespace-is_no_digit : (c : ℕ) → is_whitespace c ≡ true → is_digit c ≡ false
whitespace-is_no_digit c w = ground (arith, digit-is_solid c)

pub whitespace-is_no_letter : (c : ℕ) → is_whitespace c ≡ true → is_alphabetic c ≡ false
whitespace-is_no_letter c w = ground (arith, letter-is_solid c)

pub digits-are_solid : (t : Text) → all is_digit t ≡ true → all is_solid t ≡ true
digits-are_solid [] a = refl
digits-are_solid (c ∷ cs) a = ground (arith, digit-is_solid c, digits-are_solid cs)

pub letters-are_solid : (t : Text) → all is_alphabetic t ≡ true → all is_solid t ≡ true
letters-are_solid [] a = refl
letters-are_solid (c ∷ cs) a = ground (arith, letter-is_solid c, letters-are_solid cs)
