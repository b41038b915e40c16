-- ===== src/Log/Splitting.antt =====
-- What the splitter of crates/oxinit-log/src/lib.rs makes of the reads of a pipe.
use oxinit.Prelude.{
  ℕ, zero, suc, ◌≡◌, ◌≤◌, ◌<◌, refl, sym, subst, ap, ◌∙◌, inl, inr, Bool, true, false, ◌&&◌, List,
  [], ◌∷◌, ◌++◌, arith, ltb, leb, length, length-append, all, append_assoc, append_nil,
  Option-cases, Bool-cases,
}
use oxinit.Text.{split_on}
use oxinit.Text.Chars.{split_once}
use oxinit.Text.Cuts.{
  lacks, split_once-eq-some, split_once-eq-none, lacks-append, split_on-cut, split_on-lacks,
  split_on-front, split_on_ends,
}
use oxinit.Log.{Splitter, take_lines, push, max_line}

abbrev pub joined : List (List ℕ) → List ℕ
joined [] = []
joined (chunk ∷ chunks) = chunk ++ joined chunks

-- The calls of `push`, one for each read.
abbrev pub push_all : List ℕ → List (List ℕ) → Splitter
push_all partial [] = record { emitted = []; partial = partial }
push_all partial (chunk ∷ chunks) =
    let s = push partial chunk in
    let t = push_all s.partial chunks in
    record { emitted = s.emitted ++ t.emitted; partial = t.partial }

abbrev pub is_short : List ℕ → Bool
is_short piece = ltb (length piece) max_line

newline_behind :
    (partial line tail more : List ℕ)
    → (partial ++ (line ++ b'\n' ∷ tail)) ++ more ≡ (partial ++ line) ++ b'\n' ∷ (tail ++ more)
newline_behind partial line tail more =
    ap (λ xs. xs ++ more) (sym (append_assoc partial line (b'\n' ∷ tail)))
    ∙ append_assoc (partial ++ line) (b'\n' ∷ tail) more

-- What a step of the splitter keeps, with what is still to come: the pieces of the whole.
abbrev Splits : List ℕ → Splitter → List ℕ → Type 0
Splits whole s more =
    (split_on b'\n' (whole ++ more) ≡ s.emitted ++ split_on b'\n' (s.partial ++ more))
    × (lacks b'\n' s.partial ≡ true)

one_line :
    (partial line tail more : List ℕ) (s : Splitter)
    → lacks b'\n' partial ≡ true
    → lacks b'\n' line ≡ true
    → Splits tail s more
    → Splits
        (partial ++ (line ++ b'\n' ∷ tail))
        (record { emitted = (partial ++ line) ∷ s.emitted; partial = s.partial })
        more
one_line partial line tail more s p l r =
    let free : lacks b'\n' (partial ++ line) ≡ true =
      ground (arith, lacks-append b'\n' partial line) in
    (
      ap (split_on b'\n') (newline_behind partial line tail more)
          ∙ split_on-cut b'\n' (partial ++ line) (tail ++ more) free
          ∙ ap (λ ls. (partial ++ line) ∷ ls) r.0,
      r.1,
    )

take_lines-Splits :
    (fuel : ℕ) (rest partial more : List ℕ)
    → length rest ≤ fuel
    → lacks b'\n' partial ≡ true
    → Splits (partial ++ rest) (take_lines fuel rest partial) more
unfolding take_lines
take_lines-Splits zero [] partial more fits free = (refl, ground (arith, append_nil partial))
take_lines-Splits zero (c ∷ cs) partial more fits free = absurd (ground arith)
take_lines-Splits (suc fuel) rest partial more fits free =
    elim (Option-cases (split_once b'\n' rest)) [
      | inl e ↦
          let same : record { emitted = []; partial = partial ++ rest }
              ≡ take_lines (suc fuel) rest partial =
            ground arith in
          subst (λ s. Splits (partial ++ rest) s more) same
            (refl, ground (arith, lacks-append b'\n' partial rest, split_once-eq-none b'\n' rest))
      | inr ((line, tail), e) ↦
          let (cut, free_line) = split_once-eq-some b'\n' rest line tail e in
          let fewer : length tail ≤ fuel = ground (arith, length-append line (b'\n' ∷ tail)) in
          let s = take_lines fuel tail [] in
          let same : record { emitted = (partial ++ line) ∷ s.emitted; partial = s.partial }
              ≡ take_lines (suc fuel) rest partial =
            ground arith in
          subst (λ t. Splits (partial ++ rest) t more) same
            (subst
              (λ xs.
                Splits (partial ++ xs)
                  (record { emitted = (partial ++ line) ∷ s.emitted; partial = s.partial }) more)
              (sym cut)
              (one_line partial line tail more s free free_line
                (take_lines-Splits fuel tail [] more fewer refl)))
    ]

pub push-lacks :
    (partial chunk : List ℕ)
    → lacks b'\n' partial ≡ true
    → lacks b'\n' (push partial chunk).partial ≡ true
unfolding push
push-lacks partial chunk free =
    ground (arith, take_lines-Splits (length chunk) chunk partial [] (omega arith) free)

-- What is held back is always shorter than the bound.
pub push-lt : (partial chunk : List ℕ) → length (push partial chunk).partial < max_line
unfolding push
push-lt partial chunk = ground arith

all_append : (p : List ℕ → Bool) (xs ys : List (List ℕ)) → all p (xs ++ ys) ≡ (all p xs && all p ys)
all_append p [] ys = refl
all_append p (x ∷ xs) ys = ground (arith, all_append p xs ys)

-- A long beginning makes a long line.
front-long :
    (partial more : List ℕ)
    → lacks b'\n' partial ≡ true
    → max_line ≤ length partial
    → all is_short (split_on b'\n' (partial ++ more)) ≡ false
front-long partial more free long =
    let (piece, pieces, e) = split_on_ends b'\n' more in
    rw (split_on-front b'\n' partial more piece pieces free e)
      (ground (arith, length-append partial piece))

push-Splits :
    (partial chunk more : List ℕ)
    → lacks b'\n' partial ≡ true
    → all is_short (split_on b'\n' ((partial ++ chunk) ++ more)) ≡ true
    → Splits (partial ++ chunk) (push partial chunk) more
unfolding push
push-Splits partial chunk more free short =
    let s = take_lines (length chunk) chunk partial in
    let r = take_lines-Splits (length chunk) chunk partial more (omega arith) free in
    elim (Bool-cases (leb max_line (length s.partial))) [
      | inl over ↦ absurd (
          ground (
            arith,
            front-long s.partial more r.1 (ground arith),
            all_append is_short s.emitted (split_on b'\n' (s.partial ++ more)),
          ))
      | inr fits ↦
          let same : s ≡ push partial chunk = ground arith in
          subst (λ t. Splits (partial ++ chunk) t more) same r
    ]

-- Where every line is shorter than 16 KiB, the records and the rest that is held back are the lines
-- of all the bytes read, in order, wherever the reads cut them.
pub push_all-split_on :
    (partial : List ℕ) (chunks : List (List ℕ))
    → lacks b'\n' partial ≡ true
    → all is_short (split_on b'\n' (partial ++ joined chunks)) ≡ true
    → (push_all partial chunks).emitted ++ (push_all partial chunks).partial ∷ []
      ≡ split_on b'\n' (partial ++ joined chunks)
push_all-split_on partial [] free short =
    ground (arith, split_on-lacks b'\n' partial free, append_nil partial)
push_all-split_on partial (chunk ∷ chunks) free short =
    let assoc = append_assoc partial chunk (joined chunks) in
    let s = push partial chunk in
    let here = push-Splits partial chunk (joined chunks) free (rw assoc short) in
    let later = push_all-split_on s.partial chunks here.1 (
      ground
        (arith, all_append is_short s.emitted (split_on b'\n' (s.partial ++ joined chunks)))) in
    append_assoc s.emitted (push_all s.partial chunks).emitted
      ((push_all s.partial chunks).partial ∷ [])
    ∙ ap (λ ls. s.emitted ++ ls) later
    ∙ sym here.0
    ∙ ap (split_on b'\n') assoc
