-- ===== src/Exec/Quoting.antt =====
-- Every argv array can be written as an `exec` string: crates/oxinit-unit/src/exec.rs.
use mathlib.Core.List.{append-nil, append_assoc}
use oxinit.Prelude.{
  ℕ, ◌≡◌, inl, inr, refl, sym, ap, ◌∙◌, true, false, ◌||◌, none, some, List, [], ◌∷◌, ◌++◌, arith,
  ◌==◌, if◌then◌else◌, ok, Bool-cases,
}
use oxinit.Text.{Text}
use oxinit.Text.Chars.{is_whitespace}
use oxinit.Exec.{
  Specifiers, specifier, before, expand, Splitting, push_char, read_char, finish, split_from, split,
  nothing_read, check_program, parse, is_absolute,
}

-- A character inside double quotes.
abbrev escape_char : ℕ → Text → Text
escape_char c rest = if c == b'"' || c == b'\\' then b'\\' ∷ c ∷ rest else c ∷ rest

escape : Text → Text → Text
escape [] rest = rest
escape (c ∷ cs) rest = escape_char c (escape cs rest)

-- The arguments in double quotes, each with a space before it.
quoted : List Text → Text
quoted [] = []
quoted (arg ∷ args) = b' ' ∷ b'"' ∷ escape arg (b'"' ∷ quoted args)

-- A percent sign that is meant.
doubled : Text → Text
doubled [] = []
doubled (c ∷ cs) = if c == b'%' then b'%' ∷ b'%' ∷ doubled cs else c ∷ doubled cs

-- The `exec` string for these arguments.
unfoldable pub write_exec : List Text → Text
unfolding escape quoted doubled
write_exec args = doubled (quoted args)

expand-plain :
    (s : Specifiers) (c : ℕ) (t : Text)
    → (c == b'%') ≡ false
    → expand s (c ∷ t) ≡ before (c ∷ []) (expand s t)
unfolding expand
expand-plain s c [] n = ground arith
expand-plain s c (d ∷ cs) n = ground arith

expand-percent :
    (s : Specifiers) (t : Text) → expand s (b'%' ∷ b'%' ∷ t) ≡ before (b'%' ∷ []) (expand s t)
unfolding expand specifier
expand-percent s t = refl

expand-doubled : (s : Specifiers) (t : Text) → expand s (doubled t) ≡ ok t
unfolding doubled
expand-doubled s [] = unfold expand in refl
expand-doubled s (c ∷ cs) = elim (Bool-cases (c == b'%')) [
  | inl percent ↦ ground (arith, expand-percent s (doubled cs), expand-doubled s cs)
  | inr plain ↦ ground (arith, expand-plain s c (doubled cs), expand-doubled s cs)
]

split-plain :
    (s : Splitting) (c : ℕ) (t : Text)
    → (c == b'\\') ≡ false
    → split_from s (c ∷ t) ≡ split_from (read_char c s) t
unfolding split_from
split-plain s c [] n = ground arith
split-plain s c (d ∷ cs) n = ground arith

split-escape_char :
    (s : Splitting) (c : ℕ) (t : Text)
    → s.quote ≡ some b'"'
    → split_from s (escape_char c t) ≡ split_from (push_char c s) t
split-escape_char s c t q = elim (Bool-cases (c == b'"' || c == b'\\')) [
  | inl special ↦ unfold split_from in ground arith
  | inr plain ↦ unfold read_char in ground (arith, split-plain s c t)
]

split-escape :
    (s : Splitting) (arg t : Text)
    → s.quote ≡ some b'"'
    → s.has_current ≡ true
    → split_from s (escape arg t) ≡ split_from (record s { current = s.current ++ arg }) t
unfolding escape
split-escape s [] t q h =
    ap (λ cur. split_from (record s { current = cur }) t) (sym (append-nil s.current))
split-escape s (c ∷ cs) t q h =
    split-escape_char s c (escape cs t) q
    ∙ split-escape (push_char c s) cs t q refl
    ∙ ground (arith, append_assoc s.current (c ∷ []) cs)

-- Between two words, and behind one.
abbrev between : List Text → Splitting
between a = record { argv = a; current = []; has_current = false; quote = none }

abbrev behind : List Text → Text → Splitting
behind a word = record { argv = a; current = word; has_current = true; quote = none }

split-argument :
    (a : List Text) (arg t : Text)
    → split_from (between a) (b'"' ∷ escape arg (b'"' ∷ t)) ≡ split_from (behind a arg) t
unfolding read_char
split-argument a arg t =
    let inside = record (between a) { quote = some b'"'; has_current = true } in
    split-plain (between a) b'"' (escape arg (b'"' ∷ t)) refl
    ∙ split-escape inside arg (b'"' ∷ t) refl refl
    ∙ split-plain (record inside { current = arg }) b'"' t refl

split-behind :
    (a : List Text) (word : Text) (args : List Text)
    → split_from (behind a word) (quoted args) ≡ ok (a ++ word ∷ args)
unfolding quoted read_char is_whitespace
split-behind a word [] = unfold split_from finish in refl
split-behind a word (arg ∷ args) =
    split-plain (behind a word) b' ' (b'"' ∷ escape arg (b'"' ∷ quoted args)) refl
    ∙ split-argument (a ++ word ∷ []) arg (quoted args)
    ∙ split-behind (a ++ word ∷ []) arg args
    ∙ ap ok (append_assoc a (word ∷ []) (arg ∷ args))

split-quoted : (args : List Text) → split (quoted args) ≡ ok args
unfolding split quoted read_char is_whitespace
split-quoted [] = unfold split_from finish in refl
split-quoted (arg ∷ args) =
    split-plain nothing_read b' ' (b'"' ∷ escape arg (b'"' ∷ quoted args)) refl
    ∙ split-argument [] arg (quoted args)
    ∙ split-behind [] arg args

-- Every argv array with an absolute program has an `exec` string that is parsed to it, whatever the
-- arguments hold and whatever the specifiers stand for.
pub parse-write_exec :
    (program : Text) (args : List Text) (s : Specifiers)
    → is_absolute program ≡ true
    → parse (write_exec (program ∷ args)) s ≡ ok (program ∷ args)
unfolding parse write_exec check_program
parse-write_exec program args s a =
    let expanded = expand-doubled s (quoted (program ∷ args)) in
    let argv = split-quoted (program ∷ args) in ground arith
