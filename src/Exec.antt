-- ===== src/Exec.antt =====
-- crates/oxinit-unit/src/exec.rs: the `exec` string of a service as an argv array. The characters of
-- the string are those of the text, and a loop over them is a recursion on it.
pub mod Quoting
mod Tests
use oxinit.Prelude.{
  ℕ, ◌≡◌, Bool, true, false, ◌&&◌, ◌||◌, not, Option, none, some, List, [], ◌∷◌, ◌++◌, ◌==◌,
  if◌then◌else◌, Outcome, ok, err, ◌>>=◌, is_some,
}
use oxinit.Text.{Text}
use oxinit.Text.Chars.{is_whitespace}

pub data ExecError : Type 0 where
  empty_exec : ExecError
  not_absolute : Text → ExecError
  unknown_specifier : ℕ → ExecError
  trailing_percent unterminated_quote trailing_backslash : ExecError

pub record Specifiers : Type 0 where
  pub name : Text
  pub full_name : Text
  pub hostname : Text
  pub user : Text

unfoldable pub specifier : Specifiers → ℕ → Outcome ExecError Text
specifier s c =
    if c == b'n'
    then ok s.name
    else (if c == b'N'
        then ok s.full_name
        else (if c == b'H'
            then ok s.hostname
            else (if c == b'u'
                then ok s.user
                else (if c == b'%' then ok (b'%' ∷ []) else err (unknown_specifier c)))))

-- Some text before what the rest expands to.
abbrev pub before : Text → Outcome ExecError Text → Outcome ExecError Text
before t (err e) = err e
before t (ok rest) = ok (t ++ rest)

unfoldable pub expand : Specifiers → Text → Outcome ExecError Text
expand s [] = ok []
expand s (c ∷ []) = if c == b'%' then err trailing_percent else ok (c ∷ [])
expand s (c ∷ d ∷ cs) =
    let behind = expand s cs in
    let next = expand s (d ∷ cs) in
    if c == b'%' then (specifier s d >>= λ t. before t behind) else before (c ∷ []) next

-- The variables of the loop that splits.
pub record Splitting : Type 0 where
  pub argv : List Text
  pub current : Text
  pub has_current : Bool
  pub quote : Option ℕ

abbrev pub push_char : ℕ → Splitting → Splitting
push_char c s = record s { current = s.current ++ c ∷ []; has_current = true }

abbrev pub quotes_by : Option ℕ → ℕ → Bool
quotes_by none c = false
quotes_by (some q) c = q == c

abbrev end_word : Splitting → Splitting
end_word s =
    if s.has_current
    then record s { argv = s.argv ++ s.current ∷ []; current = []; has_current = false }
    else s

-- A character that is no backslash.
unfoldable pub read_char : ℕ → Splitting → Splitting
read_char c s =
    if (c == b'"' || c == 39) && not (is_some s.quote)
    then record s { quote = some c; has_current = true }
    else (if quotes_by s.quote c
        then record s { quote = none }
        else (if is_whitespace c && not (is_some s.quote) then end_word s else push_char c s))

unfoldable pub finish : Splitting → Outcome ExecError (List Text)
finish s =
    if is_some s.quote
    then err unterminated_quote
    else (if s.has_current then ok (s.argv ++ s.current ∷ []) else ok s.argv)

unfoldable pub split_from : Splitting → Text → Outcome ExecError (List Text)
split_from s [] = finish s
split_from s (c ∷ []) = if c == b'\\' then err trailing_backslash else finish (read_char c s)
split_from s (c ∷ d ∷ cs) =
    let escaped = split_from (push_char d s) cs in
    let plain = split_from (read_char c s) (d ∷ cs) in if c == b'\\' then escaped else plain

abbrev pub nothing_read : Splitting
nothing_read = record { argv = []; current = []; has_current = false; quote = none }

unfoldable pub split : Text → Outcome ExecError (List Text)
split t = split_from nothing_read t

abbrev pub is_absolute : Text → Bool
is_absolute [] = false
is_absolute (c ∷ cs) = c == b'/'

unfoldable pub check_program : List Text → Outcome ExecError (List Text)
check_program [] = err empty_exec
check_program (program ∷ args) =
    if is_absolute program then ok (program ∷ args) else err (not_absolute program)

unfoldable pub parse : Text → Specifiers → Outcome ExecError (List Text)
parse exec s = expand s exec >>= λ expanded. split expanded >>= check_program
