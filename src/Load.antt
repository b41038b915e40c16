-- ===== src/Load.antt =====
-- crates/oxinit-unit/src/load.rs: units from the files of several directories, each overriding the ones
-- before it. What the file system answers is an argument: the entries of each directory, and the
-- text of each file. The standard library's order of paths is a parameter, `sort`.
pub mod Precedence
mod Tests
use oxinit.Prelude.{
  ℕ, ◌≡◌, Bool, true, false, Option, none, some, List, [], ◌∷◌, ◌++◌, Outcome, ok, err, ◌>>=◌,
  if◌then◌else◌,
}
use oxinit.Text.{Text, codes, str_eq}
use oxinit.Table.{Table, insert}
use oxinit.Unit.{UnitDef, SocketAddr}
use oxinit.UnitFile.{RawFile, Scope, UnitError, read, directory, parse_in}

pub record Loaded : Type 0 where
  pub units : Table UnitDef
  pub errors : List UnitError

abbrev pub nothing_loaded : Loaded
nothing_loaded = record { units = []; errors = [] }

-- A path, with what `extension`, and `file_stem` as a string, say of it.
pub record Entry : Type 0 where
  pub path : Text
  pub extension : Option Text
  pub stem : Option Text

-- What `read_dir` gives: a directory that is not there, another failure, or the entries, each of
-- which may be a failure too.
pub data Directory : Type 0 where
  not_found : Directory
  failed : (message : Text) → Directory
  entries : List (Outcome Text Entry) → Directory

abbrev is_unit_file : Entry → Bool
is_unit_file e = elim e.extension [ none ↦ false | some ext ↦ str_eq ext (codes "toml") ]

abbrev pub name_and_path : Entry → List (Text × Text)
name_and_path e =
    if is_unit_file e then elim e.stem [ none ↦ [] | some name ↦ (name, e.path) ∷ [] ] else []

unfoldable pub found_in : List (Outcome Text Entry) → Outcome Text (List (Text × Text))
found_in [] = ok []
found_in (err message ∷ rest) = err message
found_in (ok e ∷ rest) = found_in rest >>= λ files. ok (name_and_path e ++ files)

module _ (sort : List (Text × Text) → List (Text × Text)) where
  unfoldable pub unit_files : List (Outcome Text Entry) → Outcome Text (List (Text × Text))
  unit_files found = found_in found >>= λ files. ok (sort files)

module _ (socket_addr : Text → Option SocketAddr) (from_toml : Text → Outcome Text RawFile)
    (read_to_string : Text → Outcome Text Text) where
  unfoldable pub read_and_parse : Text → Text → Text → Scope → Outcome UnitError UnitDef
  read_and_parse name path hostname scope = elim (read_to_string path) [
    | err message ↦ err (UnitError.read path message)
    | ok text ↦ parse_in socket_addr from_toml name text hostname scope
  ]

  abbrev pub keep_unit : Text → Outcome UnitError UnitDef → Loaded → Loaded
  keep_unit name (ok unit) loaded = record loaded { units = insert name unit loaded.units }
  keep_unit name (err e) loaded = record loaded { errors = loaded.errors ++ e ∷ [] }

  unfoldable pub load_files : List (Text × Text) → Text → Scope → Loaded → Loaded
  load_files [] hostname scope loaded = loaded
  load_files ((name, path) ∷ files) hostname scope loaded =
      load_files files hostname scope
        (keep_unit name (read_and_parse name path hostname scope) loaded)

  module _ (sort : List (Text × Text) → List (Text × Text)) where
    unfoldable pub load_dir : Text → Directory → Text → Scope → Loaded → Loaded
    load_dir dir not_found hostname scope loaded = loaded
    load_dir dir (failed message) hostname scope loaded = record loaded {
      errors = loaded.errors ++ directory dir message ∷ [];
    }
    load_dir dir (entries found) hostname scope loaded = elim (unit_files sort found) [
      | err message ↦ record loaded { errors = loaded.errors ++ directory dir message ∷ [] }
      | ok files ↦ load_files files hostname scope loaded
    ]

    unfoldable pub load_from : List (Text × Directory) → Text → Scope → Loaded → Loaded
    load_from [] hostname scope loaded = loaded
    load_from ((dir, content) ∷ dirs) hostname scope loaded =
        load_from dirs hostname scope (load_dir dir content hostname scope loaded)

    unfoldable pub load_dirs_in : List (Text × Directory) → Text → Scope → Loaded
    load_dirs_in dirs hostname scope = load_from dirs hostname scope nothing_loaded
