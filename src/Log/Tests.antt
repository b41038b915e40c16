-- ===== src/Log/Tests.antt =====
-- Runs that the tests of crates/oxinit-log/src/lib.rs name, and the theorems at concrete reads.
use oxinit.Prelude.{◌≡◌, refl, ℕ, List, [], ◌∷◌, ◌++◌, ◌<◌, some, none, arith, length}
use oxinit.Text.{codes, split_on}
use oxinit.Text.Chars.{split_once}
use oxinit.Text.Decimal.{print_unsigned}
use oxinit.Text.Paths.{join, is_absolute}
use oxinit.Log.{
  take_lines, push, flush, max_line, record_of, padded, plan, shifts, remove_file, rename,
  default_rotation,
}
use oxinit.Log.Splitting.{push_all, joined, push_all-split_on}
use oxinit.Log.Bytes.{unbroken, spoken, push_all-bytes}

abbrev reads : List (List ℕ)
reads = codes "he" ∷ codes "llo" ∷ codes " world\n\ndone" ∷ []

program : Unit {0}
unfolding push take_lines split_once split_on flush record_of padded print_unsigned plan shifts join
    is_absolute
program = tt

reads_split :
    push_all [] reads ≡ record { emitted = codes "hello world" ∷ [] ∷ []; partial = codes "done" }
unfolding program
reads_split = refl

push_all-split_on_example :
    (push_all [] reads).emitted ++ (push_all [] reads).partial ∷ []
    ≡ split_on b'\n' (codes "hello world\n\ndone")
push_all-split_on_example = push_all-split_on [] reads refl (unfold split_on in refl)

push_all-bytes_example :
    (unbroken (joined reads) ≡ spoken (push_all [] reads))
    × (length (push_all [] reads).partial < max_line)
push_all-bytes_example = push_all-bytes [] reads refl (omega arith)

flushed : (flush (codes "no newline") ≡ some (codes "no newline")) × (flush [] ≡ none)
unfolding program
flushed = (refl, refl)

probe_record :
    record_of (record { secs = 1754743123; micros = 4567 }) (codes "probe up")
    ≡ codes "1754743123.004567 probe up\n"
unfolding program
probe_record = refl

probe_plan :
    plan default_rotation (codes "/var/log") (codes "probe")
    ≡ remove_file (codes "/var/log/probe.log.3")
      ∷ rename (codes "/var/log/probe.log.2") (codes "/var/log/probe.log.3")
      ∷ rename (codes "/var/log/probe.log.1") (codes "/var/log/probe.log.2")
      ∷ rename (codes "/var/log/probe.log") (codes "/var/log/probe.log.1")
      ∷ []
unfolding program
probe_plan = refl
