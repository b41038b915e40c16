-- ===== src/Text/Lines.antt =====
-- Texts of whole lines: what `lines` reads from them.
use oxinit.Prelude.{◌≡◌, refl, ap, ◌∙◌, Bool, true, ◌&&◌, List, [], ◌∷◌, ◌++◌, arith, all}
use oxinit.Text.{Text, split_on, is_digit}
use oxinit.Text.Chars.{strip_return, lines_of, lines}
use oxinit.Text.Cuts.{lacks, split_on-cut, split_on_ends}

-- A newline behind each line.
unfoldable pub unlines : List Text → Text
unlines [] = []
unlines (line ∷ rest) = line ++ b'\n' ∷ unlines rest

-- Neither a newline nor a carriage return.
abbrev pub is_plain : Text → Bool
is_plain t = lacks b'\n' t && lacks b'\r' t

strip_return-lacks : (t : Text) → lacks b'\r' t ≡ true → strip_return t ≡ t
unfolding strip_return
strip_return-lacks [] a = refl
strip_return-lacks (c ∷ []) a = ground arith
strip_return-lacks (c ∷ d ∷ cs) a = ground (arith, strip_return-lacks (d ∷ cs))

lines-cut : (s t : Text) → is_plain s ≡ true → lines (s ++ b'\n' ∷ t) ≡ s ∷ lines t
unfolding lines_of
lines-cut s t plain =
    let (piece, pieces, e) = split_on_ends b'\n' t in
    ground (arith, split_on-cut b'\n' s t, strip_return-lacks s)

-- Whole lines are read back.
pub lines-unlines : (ls : List Text) → all is_plain ls ≡ true → lines (unlines ls) ≡ ls
unfolding unlines
lines-unlines [] a = unfold split_on lines_of in refl
lines-unlines (line ∷ rest) a =
    lines-cut line (unlines rest) (ground arith)
    ∙ ap (λ l. line ∷ l) (lines-unlines rest (ground arith))

-- Digits hold no line ends.
pub digits-is_plain : (t : Text) → all is_digit t ≡ true → is_plain t ≡ true
digits-is_plain [] a = refl
digits-is_plain (c ∷ cs) a = ground (arith, digits-is_plain cs)
