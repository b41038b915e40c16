-- ===== src/Cgroup/Tests.antt =====
-- Runs taken from the tests of crates/oxinit-cgroup/src/lib.rs, and the results at a sample kernel.
use oxinit.Prelude.{◌≡◌, refl, true, false, none, some, List, [], ◌∷◌, ok, err}
use oxinit.Text.{Text, codes, str_eq, split_on, contains_text}
use oxinit.Text.Chars.{
  trim_start, trim_end, is_whitespace, strip_return, lines_of, split_once, words_from,
}
use oxinit.Text.Decimal.{print_unsigned}
use oxinit.Text.Lines.{unlines}
use oxinit.Text.Paths.{join, is_absolute}
use oxinit.Cgroup.Calls.{Kernel, Op, already_exists, make_dir, write_file}
use oxinit.Cgroup.{
  new, wanted, enable, enable_line, create_dir, write, park_init, parse_populated, find_populated,
  print_bytes, amount_in,
}
use oxinit.Cgroup.Contents.{parse_populated-keys}
use oxinit.Cgroup.Prepared.{new-delegates, IsDelegated}

-- A kernel without `pids`, whose directories are there already and whose init scope takes no process.
abbrev sample : Kernel
sample = record {
  read_to_string = λ done path. ok (codes "cpu memory io\n");
  create_dir = λ done path. err already_exists;
  open_and_write = λ done path value. ok tt;
}

abbrev after_new : List Op
after_new =
    make_dir (codes "/c/init.scope")
    ∷ write_file (codes "/c/init.scope/cgroup.procs") (codes "1")
    ∷ write_file (codes "/c/cgroup.subtree_control") (codes "+memory")
    ∷ make_dir (codes "/c/oxinit.slice")
    ∷ write_file (codes "/c/oxinit.slice/cgroup.subtree_control") (codes "+memory")
    ∷ []

program : Unit {0}
unfolding new wanted enable enable_line create_dir write park_init is_absolute join words_from
    is_whitespace contains_text str_eq print_unsigned
program = tt

prepared : new sample (codes "/c") 1 [] ≡ (ok (codes "/c/oxinit.slice"), after_new)
unfolding program
prepared = refl

new-delegates_example :
    (listed : Text) × (sample.read_to_string [] (join (codes "/c") (codes "cgroup.controllers"))
      ≡ ok listed)
    × IsDelegated sample (codes "/c") 1 [] (codes "/c/oxinit.slice") after_new listed
new-delegates_example =
    (new-delegates sample (codes "/c") (codes "/c/oxinit.slice") 1 [] after_new).0 prepared

abbrev events_body : List (Text × Text)
events_body = (codes "frozen", codes "0") ∷ (codes "populated", codes "1") ∷ []

two_keys : parse_populated (codes "frozen 0\npopulated 1\n") ≡ some true
unfolding unlines str_eq trim_start trim_end is_whitespace
two_keys = parse_populated-keys events_body ((refl, refl, refl), ((refl, refl, refl), tt))

reading : Unit {0}
unfolding parse_populated find_populated split_on lines_of strip_return split_once str_eq trim_start
    trim_end is_whitespace print_bytes amount_in print_unsigned
reading = tt

emptied : parse_populated (codes "populated 0\nfrozen 0\n") ≡ some false
unfolding reading
emptied = refl

missing : parse_populated (codes "frozen 0\n") ≡ none
unfolding reading
missing = refl

amount : print_bytes 1_572_864 ≡ codes "1.5M"
unfolding reading
amount = refl

nothing : print_bytes 0 ≡ codes "0B"
unfolding reading
nothing = refl
