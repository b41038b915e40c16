-- ===== src/Log/Bytes.antt =====
-- The splitter of crates/oxinit-log/src/lib.rs loses no byte, however long a line grows.
use oxinit.Prelude.{
  ℕ, zero, suc, ◌≡◌, ◌≤◌, ◌<◌, refl, sym, ap, ◌∙◌, inl, inr, true, not, List, [], ◌∷◌, ◌++◌, arith,
  leb, ◌==◌, length, length-append, keep, append_assoc, append_nil, Option-cases, Bool-cases,
}
use oxinit.Text.Chars.{split_once}
use oxinit.Text.Cuts.{lacks, split_once-eq-some, split_once-eq-none}
use oxinit.Log.{Splitter, take_lines, push, max_line}
use oxinit.Log.Splitting.{joined, push_all, push-lacks, push-lt}

-- The bytes that are no newline.
abbrev pub unbroken : List ℕ → List ℕ
unbroken t = keep (λ b. not (b == b'\n')) t

unbroken-append : (s t : List ℕ) → unbroken (s ++ t) ≡ unbroken s ++ unbroken t
unbroken-append [] t = refl
unbroken-append (b ∷ bs) t = ground (arith, unbroken-append bs t)

unbroken-lacks : (t : List ℕ) → lacks b'\n' t ≡ true → unbroken t ≡ t
unbroken-lacks [] a = refl
unbroken-lacks (b ∷ bs) a = ground (arith, unbroken-lacks bs)

joined-append : (xs ys : List (List ℕ)) → joined (xs ++ ys) ≡ joined xs ++ joined ys
joined-append [] ys = refl
joined-append (x ∷ xs) ys =
    ap (λ t. x ++ t) (joined-append xs ys) ∙ sym (append_assoc x (joined xs) (joined ys))

-- The records and what is held back, one behind the other.
abbrev pub spoken : Splitter → List ℕ
spoken s = joined s.emitted ++ s.partial

one_line :
    (partial line tail : List ℕ) (s : Splitter)
    → unbroken partial ≡ partial
    → lacks b'\n' line ≡ true
    → unbroken tail ≡ spoken s
    → unbroken (partial ++ (line ++ b'\n' ∷ tail))
      ≡ spoken (record { emitted = (partial ++ line) ∷ s.emitted; partial = s.partial })
one_line partial line tail s whole free r =
    unbroken-append partial (line ++ b'\n' ∷ tail)
    ∙ ap (λ t. t ++ unbroken (line ++ b'\n' ∷ tail)) whole
    ∙ ap (λ t. partial ++ t) (unbroken-append line (b'\n' ∷ tail))
    ∙ ap (λ t. partial ++ (t ++ unbroken tail)) (unbroken-lacks line free)
    ∙ ap (λ t. partial ++ (line ++ t)) r
    ∙ sym (append_assoc partial line (spoken s))
    ∙ sym (append_assoc (partial ++ line) (joined s.emitted) s.partial)

take_lines-bytes :
    (fuel : ℕ) (rest partial : List ℕ)
    → length rest ≤ fuel
    → unbroken partial ≡ partial
    → unbroken (partial ++ rest) ≡ spoken (take_lines fuel rest partial)
unfolding take_lines
take_lines-bytes zero [] partial fits free = ground (arith, append_nil partial)
take_lines-bytes zero (c ∷ cs) partial fits free = absurd (ground arith)
take_lines-bytes (suc fuel) rest partial fits free = elim (Option-cases (split_once b'\n' rest)) [
  | inl e ↦
      ground
        (arith, unbroken-append partial rest, unbroken-lacks rest, split_once-eq-none b'\n' rest)
  | inr ((line, tail), e) ↦
      let (cut, free_line) = split_once-eq-some b'\n' rest line tail e in
      let fewer : length tail ≤ fuel = ground (arith, length-append line (b'\n' ∷ tail)) in
      let s = take_lines fuel tail [] in
      let same : record { emitted = (partial ++ line) ∷ s.emitted; partial = s.partial }
          ≡ take_lines (suc fuel) rest partial =
        ground arith in
      ap (λ xs. unbroken (partial ++ xs)) cut
      ∙ one_line partial line tail s free free_line (take_lines-bytes fuel tail [] fewer refl)
      ∙ ap spoken same
]

push-bytes :
    (partial chunk : List ℕ)
    → lacks b'\n' partial ≡ true
    → unbroken (partial ++ chunk) ≡ spoken (push partial chunk)
unfolding push
push-bytes partial chunk free =
    let s = take_lines (length chunk) chunk partial in
    let r =
      take_lines-bytes (length chunk) chunk partial (omega arith) (unbroken-lacks partial free) in
    elim (Bool-cases (leb max_line (length s.partial))) [
      | inl over ↦ ground (
        arith,
        joined-append s.emitted (s.partial ∷ []),
        append_nil s.partial,
        append_nil (joined s.emitted ++ s.partial),
      )
      | inr fits ↦ ground arith
    ]

held_back :
    (partial more : List ℕ)
    → lacks b'\n' partial ≡ true
    → partial ++ unbroken more ≡ unbroken (partial ++ more)
held_back partial more free =
    ap (λ xs. xs ++ unbroken more) (sym (unbroken-lacks partial free))
    ∙ sym (unbroken-append partial more)

-- No read loses a byte: the records and what is held back, one behind the other, are the bytes that
-- were read but for the newlines, in order, even where a line grows past 16 KiB; and what is held
-- back is always shorter than that.
pub push_all-bytes :
    (partial : List ℕ) (chunks : List (List ℕ))
    → lacks b'\n' partial ≡ true
    → length partial < max_line
    → (unbroken (partial ++ joined chunks) ≡ spoken (push_all partial chunks))
      × (length (push_all partial chunks).partial < max_line)
push_all-bytes partial [] free short =
    (ground (arith, append_nil partial, unbroken-lacks partial), short)
push_all-bytes partial (chunk ∷ chunks) free short =
    let s = push partial chunk in
    let here = push-bytes partial chunk free in
    let later =
      push_all-bytes s.partial chunks (push-lacks partial chunk free) (push-lt partial chunk) in
    let t = push_all s.partial chunks in
    (
      ap unbroken (sym (append_assoc partial chunk (joined chunks)))
          ∙ unbroken-append (partial ++ chunk) (joined chunks)
          ∙ ap (λ xs. xs ++ unbroken (joined chunks)) here
          ∙ append_assoc (joined s.emitted) s.partial (unbroken (joined chunks))
          ∙ ap (λ xs. joined s.emitted ++ xs)
              (held_back s.partial (joined chunks) (push-lacks partial chunk free) ∙ later.0)
          ∙ sym (append_assoc (joined s.emitted) (joined t.emitted) t.partial)
          ∙ ap (λ xs. xs ++ t.partial) (sym (joined-append s.emitted t.emitted)),
      later.1,
    )
