-- ===== src/Text/Cuts.antt =====
-- Lemmas on cutting a text at a separator: `split_once`, and `strip_prefix` of a key that ends in one.
use oxinit.Prelude.{
  ℕ, ◌≡◌, refl, subst, sym, Bool, true, false, ◌&&◌, not, none, some, List, [], ◌∷◌, ◌++◌, arith,
  ◌==◌, if◌then◌else◌, all, Bool-cases, inl, inr,
}
use oxinit.Text.{Text, str_eq, str_eq_comm, str_eq_iff, split_on}
use oxinit.Text.Chars.{split_once, strip_prefix}

-- The separator does not occur.
abbrev pub lacks : ℕ → Text → Bool
lacks c t = all (λ d. not (d == c)) t

pub split_once-eq-some :
    (c : ℕ) (t key value : Text)
    → split_once c t ≡ some (key, value)
    → (t ≡ key ++ c ∷ value) × (lacks c key ≡ true)
unfolding split_once
split_once-eq-some c [] key value h = ground arith
split_once-eq-some c (d ∷ ds) [] value h = ground arith
split_once-eq-some c (d ∷ ds) (k ∷ ks) value h = ground (arith, split_once-eq-some c ds ks value)

pub split_once-eq-none : (c : ℕ) (t : Text) → split_once c t ≡ none → lacks c t ≡ true
unfolding split_once
split_once-eq-none c [] h = refl
split_once-eq-none c (d ∷ ds) h = ground (arith, split_once-eq-none c ds)

pub str_eq-cut :
    (c : ℕ) (key k value v : Text)
    → lacks c key ≡ true
    → lacks c k ≡ true
    → str_eq (key ++ c ∷ value) (k ++ c ∷ v) ≡ (str_eq k key && str_eq v value)
unfolding str_eq
str_eq-cut c [] [] value v a b = ground (arith, str_eq_comm v value)
str_eq-cut c [] (k ∷ ks) value v a b = ground arith
str_eq-cut c (d ∷ ds) [] value v a b = ground arith
str_eq-cut c (d ∷ ds) (k ∷ ks) value v a b = ground (arith, str_eq-cut c ds ks value v)

pub strip_prefix-cut :
    (c : ℕ) (key k value : Text)
    → lacks c key ≡ true
    → lacks c k ≡ true
    → strip_prefix (key ++ c ∷ []) (k ++ c ∷ value) ≡ (if str_eq k key then some value else none)
unfolding strip_prefix str_eq
strip_prefix-cut c [] [] value a b = ground arith
strip_prefix-cut c [] (k ∷ ks) value a b = ground arith
strip_prefix-cut c (d ∷ ds) [] value a b = ground arith
strip_prefix-cut c (d ∷ ds) (k ∷ ks) value a b = ground (arith, strip_prefix-cut c ds ks value)

pub strip_prefix-lacks :
    (c : ℕ) (key t : Text) → lacks c t ≡ true → strip_prefix (key ++ c ∷ []) t ≡ none
unfolding strip_prefix
strip_prefix-lacks c [] [] a = refl
strip_prefix-lacks c [] (d ∷ ds) a = ground arith
strip_prefix-lacks c (k ∷ ks) [] a = refl
strip_prefix-lacks c (k ∷ ks) (d ∷ ds) a = ground (arith, strip_prefix-lacks c ks ds)

pub str_eq-lacks :
    (c : ℕ) (key value t : Text) → lacks c t ≡ true → str_eq (key ++ c ∷ value) t ≡ false
unfolding str_eq
str_eq-lacks c [] value [] a = refl
str_eq-lacks c [] value (d ∷ ds) a = ground arith
str_eq-lacks c (k ∷ ks) value [] a = refl
str_eq-lacks c (k ∷ ks) value (d ∷ ds) a = ground (arith, str_eq-lacks c ks value ds)

pub lacks-append : (c : ℕ) (s t : Text) → lacks c (s ++ t) ≡ (lacks c s && lacks c t)
lacks-append c [] t = refl
lacks-append c (d ∷ ds) t = ground (arith, lacks-append c ds t)

-- Splitting at a separator that stands behind a piece without one.
pub split_on-cut :
    (c : ℕ) (s t : Text) → lacks c s ≡ true → split_on c (s ++ c ∷ t) ≡ s ∷ split_on c t
unfolding split_on
split_on-cut c [] t a = ground arith
split_on-cut c (d ∷ ds) t a = ground (arith, split_on-cut c ds t)

pub split_on-lacks : (c : ℕ) (t : Text) → lacks c t ≡ true → split_on c t ≡ t ∷ []
unfolding split_on
split_on-lacks c [] a = refl
split_on-lacks c (d ∷ ds) a = ground (arith, split_on-lacks c ds)

-- A text without a separator lengthens the first piece of what stands behind it.
pub split_on-front :
    (c : ℕ) (s t piece : Text) (pieces : List Text)
    → lacks c s ≡ true
    → split_on c t ≡ piece ∷ pieces
    → split_on c (s ++ t) ≡ (s ++ piece) ∷ pieces
unfolding split_on
split_on-front c [] t piece pieces a h = h
split_on-front c (d ∷ ds) t piece pieces a h = ground (arith, split_on-front c ds t piece pieces)

pub split_on_ends :
    (c : ℕ) (t : Text) → (piece : Text) × (pieces : List Text) × (split_on c t ≡ piece ∷ pieces)
unfolding split_on
split_on_ends c [] = ([], [], refl)
split_on_ends c (d ∷ ds) =
    let (piece, pieces, e) = split_on_ends c ds in
    elim (Bool-cases (d == c)) [
      | inl here ↦ ([], split_on c ds, ground arith)
      | inr other ↦ (d ∷ piece, pieces, ground arith)
    ]

-- A text is one of two different ones at most.
pub str_eq-apart : (t a b : Text) → str_eq a b ≡ false → str_eq t a ≡ true → str_eq t b ≡ false
str_eq-apart t a b h k =
    let same = (str_eq_iff t a).0 k in subst (λ x. str_eq x b ≡ false) (sym same) h
