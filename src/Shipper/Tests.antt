-- ===== src/Shipper/Tests.antt =====
-- A unit whose file is full, with one generation behind it: the theorems on crates/oxlogd/src/main.rs at
-- concrete files.
use oxinit.Prelude.{ℕ, ◌≡◌, refl, true, Bool, List, [], ◌∷◌, ◌++◌, ◌≤◌, arith, length, ◌+◌}
use oxinit.Text.{Text, codes, str_eq, str_lt}
use oxinit.Text.Decimal.{print_unsigned}
use oxinit.Text.Paths.{join, is_absolute}
use oxinit.Table.{lookup, insert, remove}
use oxinit.Log.{Rotation, Timestamp, record_of, padded, plan, shifts, should_rotate}
use oxinit.Shipper.{
  Shipper, Files, rotate, rename_file, do_moves, open_file, open_sink, make_room, write_to,
  write_sized, write,
}
use oxinit.Shipper.Rotating.{Shifted, rotate-Shifted}
use oxinit.Shipper.Writing.{live, Agrees, Kept, write-Kept}

abbrev var_log : Text
var_log = codes "/log"

abbrev files : Files
files =
    (codes "/log/a.log", codes "current line\n")
    ∷ (codes "/log/a.log.1", codes "older\n")
    ∷ (codes "/log/b.log", codes "b\n")
    ∷ []

abbrev small : Rotation
small = record { max_size = 20; keep = 2 }

abbrev before : Shipper
before = record { files = files; sinks = [] }

abbrev opens : Text → Bool
opens p = true

abbrev write_all : List ℕ → List ℕ → List ℕ × Bool
write_all old bytes = (old ++ bytes, true)

abbrev now : Timestamp
now = record { secs = 7; micros = 12 }

program : Unit {0}
unfolding write write_sized write_to make_room open_sink open_file rotate do_moves rename_file
    should_rotate plan shifts record_of padded print_unsigned join is_absolute str_eq str_lt lookup
    insert remove
program = tt

written : write opens write_all now var_log small (codes "a") (codes "new") before ≡ record {
  files =
      (codes "/log/a.log", codes "7.000012 new\n")
      ∷ (codes "/log/a.log.1", codes "current line\n")
      ∷ (codes "/log/a.log.2", codes "older\n")
      ∷ (codes "/log/b.log", codes "b\n")
      ∷ [];
  sinks = (codes "a", 13) ∷ [];
}
unfolding program
written = refl

rotate-Shifted_example :
    Shifted var_log (codes "a") 2 files (rotate var_log small (codes "a") files)
rotate-Shifted_example = rotate-Shifted var_log (codes "a") small files

record_fits :
    length (live var_log (codes "a") before) + length (record_of now (codes "new"))
    ≤ 18_446_744_073_709_551_615
unfolding program
record_fits = omega arith

before-Agrees : Agrees var_log (codes "a") before
unfolding lookup
before-Agrees n e = absurd (ground arith)

write-Kept_example :
    Agrees var_log
      (codes "a")
      (write opens write_all now var_log small (codes "a") (codes "new") before)
    × Kept var_log
        (codes "a")
        small
        (record_of now (codes "new"))
        before
        (write opens write_all now var_log small (codes "a") (codes "new") before)
write-Kept_example =
    write-Kept opens write_all var_log (codes "a") refl (λ old bytes. refl) now small (codes "new")
      before before-Agrees record_fits
