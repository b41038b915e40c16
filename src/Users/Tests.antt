-- ===== src/Users/Tests.antt =====
-- Accounts as in the tests of crates/oxinit-user/src/lib.rs.
use oxinit.Prelude.{◌≡◌, refl, some, none, err, [], ◌∷◌}
use oxinit.Text.{Text, codes, str_eq, split_on, parse_unsigned}
use oxinit.Text.Chars.{trim_start, trim_end, is_whitespace, strip_return, lines_of}
use oxinit.Users.{
  Identity, fields, entries, find_entry, member_gids, insert_sorted, sort, dedup, identity_of,
  resolve, find_uid, name_of, unknown, malformed,
}

abbrev passwd : Text
passwd =
    codes
      "# accounts\nroot:x:0:0:root:/root:/bin/sh\nana:x:1000:100::/home/ana:/bin/sh\nbad:x:many:1\n"

abbrev group : Text
group = codes "users:x:100:ana\naudio:x:29:bo,ana\nvideo:x:44:bo\n"

abbrev ana : Identity
ana = record { name = codes "ana"; uid = 1000; gid = 100; groups = 29 ∷ 100 ∷ [] }

program : Unit {0}
unfolding resolve identity_of find_entry entries fields member_gids insert_sorted sort dedup str_eq
    split_on parse_unsigned trim_start trim_end is_whitespace strip_return lines_of find_uid name_of
program = tt

refusals :
    (resolve (codes "bo") passwd group ≡ err (unknown (codes "bo")))
    × (resolve (codes "bad") passwd group ≡ err (malformed (codes "bad")))
unfolding program
refusals = (refl, refl)

names : (name_of 1000 passwd ≡ some (codes "ana")) × (name_of 7 passwd ≡ none)
unfolding program
names = (refl, refl)
