-- ===== src/Load/Tests.antt =====
-- Two directories, as in the tests of crates/oxinit-unit/src/load.rs: the operator's file of the same
-- name is in effect, and one that cannot be read leaves the packaged one.
use oxinit.Prelude.{
  ◌≡◌, refl, Option, some, none, ok, List, [], ◌∷◌, true, false, Outcome, if◌then◌else◌,
}
use oxinit.Text.{Text, codes, str_eq, str_lt, contains_text}
use oxinit.Table.{lookup, insert}
use oxinit.Unit.{UnitDef, SocketAddr, Kind}
use oxinit.UnitFile.{
  RawFile, system, no_kind, no_deps, validate_name, name_char, check_file, parse_raw, parse_in,
}
use oxinit.UnitFile.WellFormed.{IsWellFormed}
use oxinit.Load.{
  Entry, Directory, not_found, entries, found_in, unit_files, read_and_parse, load_files, load_dir,
  load_from, load_dirs_in, Loaded,
}
use oxinit.Load.Precedence.{
  load_dirs_in-last, load_dirs_in-IsWellFormed, accepted, all_listed, all_errors,
}

abbrev no_address : Text → Option SocketAddr
no_address t = none

abbrev empty_file : RawFile
empty_file = record {
  unit = none;
  service = none;
  target = false;
  socket = none;
  timer = none;
  resources = none;
}

-- A reader for which a text is the description of a target, and an empty text is an empty file.
abbrev targets : Text → Outcome Text RawFile
targets [] = ok empty_file
targets (c ∷ cs) = ok (record empty_file {
  unit = some (record { description = some (c ∷ cs); deps = no_deps });
  target = true;
})

-- The file system of the tests: the text of a file is its path, and `/etc/b.toml` is empty.
abbrev contents : Text → Outcome Text Text
contents path = if str_eq path (codes "/etc/b.toml") then ok [] else ok path

abbrev as_listed : List (Text × Text) → List (Text × Text)
as_listed files = files

abbrev toml_file : Text → Text → Outcome Text Entry
toml_file name path = ok (record { path = path; extension = some (codes "toml"); stem = some name })

abbrev dirs : List (Text × Directory)
dirs =
    (
      codes "/usr/lib",
      entries (
          toml_file (codes "a") (codes "/usr/lib/a.toml")
          ∷ toml_file (codes "b") (codes "/usr/lib/b.toml")
          ∷ []),
    )
    ∷ (codes "/run", not_found)
    ∷ (
      codes "/etc",
      entries (
          toml_file (codes "a") (codes "/etc/a.toml")
          ∷ ok (record {
            path = codes "/etc/README";
            extension = none;
            stem = some (codes "README");
          })
          ∷ toml_file (codes "b") (codes "/etc/b.toml")
          ∷ []),
    )
    ∷ []

abbrev loaded : Loaded
loaded = load_dirs_in no_address targets contents as_listed dirs (codes "h") system

abbrev described : Text → Text → UnitDef
described name text = record { name = name; description = text; deps = no_deps; kind = Kind.target }

program : Unit {0}
unfolding load_dirs_in load_from load_dir load_files unit_files found_in read_and_parse parse_in
    parse_raw check_file validate_name name_char contains_text str_eq str_lt lookup insert
program = tt

operator_wins : lookup (codes "a") loaded.units ≡ some (described (codes "a") (codes "/etc/a.toml"))
unfolding program
operator_wins = refl

unreadable_leaves_packaged :
    (lookup (codes "b") loaded.units ≡ some (described (codes "b") (codes "/usr/lib/b.toml")))
    × (loaded.errors ≡ no_kind (codes "b") ∷ [])
unfolding program
unreadable_leaves_packaged = (refl, refl)

load_dirs_in-last_example :
    (lookup (codes "b") loaded.units
      ≡ accepted no_address targets contents
          (codes "h")
          system
          (codes "b")
          (all_listed as_listed dirs))
    × (loaded.errors ≡ all_errors no_address targets contents (codes "h") system as_listed dirs)
load_dirs_in-last_example =
    load_dirs_in-last no_address targets contents (codes "h") system as_listed (codes "b") dirs

load_dirs_in-IsWellFormed_example :
    IsWellFormed system (codes "a") (described (codes "a") (codes "/etc/a.toml"))
load_dirs_in-IsWellFormed_example =
    load_dirs_in-IsWellFormed no_address targets contents (codes "h") system as_listed (codes "a")
      dirs (described (codes "a") (codes "/etc/a.toml")) operator_wins
