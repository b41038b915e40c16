-- ===== src/Exec/Tests.antt =====
-- Runs taken from the tests of crates/oxinit-unit/src/exec.rs, and the round trip at one argv array.
use oxinit.Prelude.{◌≡◌, refl, List, [], ◌∷◌, ok, err}
use oxinit.Text.{Text, codes}
use oxinit.Text.Chars.{is_whitespace}
use oxinit.Exec.{
  Specifiers, specifier, expand, read_char, finish, split_from, split, check_program, parse,
  trailing_backslash, unterminated_quote, not_absolute, unknown_specifier, trailing_percent,
  empty_exec,
}
use oxinit.Exec.Quoting.{write_exec, parse-write_exec}

abbrev sample_specifiers : Specifiers
sample_specifiers = record {
  name = codes "sshd";
  full_name = codes "sshd.service";
  hostname = codes "box";
  user = codes "root";
}

abbrev argv : List Text
argv = codes "/bin/echo" ∷ codes "100% \"sure\"" ∷ [] ∷ codes "a\\b" ∷ []

parse-write_exec_example : parse (write_exec argv) sample_specifiers ≡ ok argv
parse-write_exec_example =
    parse-write_exec (codes "/bin/echo") (codes "100% \"sure\"" ∷ [] ∷ codes "a\\b" ∷ [])
      sample_specifiers refl

program : Unit {0}
unfolding parse expand specifier split split_from read_char finish check_program is_whitespace
    write_exec
program = tt

written : write_exec (codes "/bin/x" ∷ codes "5%" ∷ []) ≡ codes " \"/bin/x\" \"5%%\""
unfolding program
written = refl

mixed_quotes :
    parse (codes "/bin/echo \"it's\" 'a b' c\\ d") sample_specifiers
    ≡ ok (codes "/bin/echo" ∷ codes "it's" ∷ codes "a b" ∷ codes "c d" ∷ [])
unfolding program
mixed_quotes = refl

specifiers_expand :
    parse (codes "/bin/x %N 1%%") sample_specifiers
    ≡ ok (codes "/bin/x" ∷ codes "sshd.service" ∷ codes "1%" ∷ [])
unfolding program
specifiers_expand = refl

errors :
    (parse (codes "/bin/x \"open") sample_specifiers ≡ err unterminated_quote)
    × (parse (codes "/bin/x end\\") sample_specifiers ≡ err trailing_backslash)
    × (parse (codes "./sshd") sample_specifiers ≡ err (not_absolute (codes "./sshd")))
    × (parse (codes "/bin/x %z") sample_specifiers ≡ err (unknown_specifier 122))
    × (parse (codes "/bin/x %") sample_specifiers ≡ err trailing_percent)
    × (parse (codes "  ") sample_specifiers ≡ err empty_exec)
unfolding program
errors = (refl, refl, refl, refl, refl, refl)
