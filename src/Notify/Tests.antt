-- ===== src/Notify/Tests.antt =====
-- The runs that the tests of crates/oxinit-service/src/notify.rs name, on bytes that are ASCII.
use oxinit.Prelude.{
  ℕ, ◌≡◌, refl, Option, some, none, List, [], ◌∷◌, true, false, all, ltb, if◌then◌else◌,
}
use oxinit.Text.{Text, codes, str_eq, split_on}
use oxinit.Text.Chars.{split_once, strip_return, lines_of, lines, strip_prefix}
use oxinit.Events.{Message}
use oxinit.Notify.{apply_key, apply_line, apply_lines, parse}
use oxinit.Notify.Lines.{parse-says, says, last_status}

abbrev from_ascii : List ℕ → Option Text
from_ascii bytes = if all (λ b. ltb b 128) bytes then some bytes else none

abbrev body : Text
body = codes "READY=1\r\nSTATUS=a=b\nMAINPID=99\nWATCHDOG=2\n"

abbrev message : Message
message = record { pid = 42; ready = true; watchdog = false; status_line = some (codes "a=b") }

program : Unit {0}
unfolding parse apply_lines apply_line apply_key split_once str_eq split_on strip_return lines_of
    strip_prefix
program = tt

body_parses : parse from_ascii 42 body ≡ some message
unfolding program
body_parses = refl

-- A reader of bytes that takes every ASCII body gives the message that the lines spell.
parse-says_example :
    parse from_ascii 42 body
    ≡ some (record {
      pid = 42;
      ready = says (codes "READY=1") (lines body);
      watchdog = says (codes "WATCHDOG=1") (lines body);
      status_line = last_status (lines body);
    })
parse-says_example = parse-says from_ascii 42 body body refl

not_utf8 : parse from_ascii 1 (0xff ∷ 0xfe ∷ []) ≡ none
unfolding program
not_utf8 = refl
