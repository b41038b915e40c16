-- ===== src/Load/Precedence.antt =====
-- Which file of crates/oxinit-unit/src/load.rs's directories a unit comes from, and what becomes of the
-- others.
use oxinit.Prelude.{
  or_option-none, ◌≡◌, refl, ap, ◌∙◌, sym, subst, inl, inr, Option, none, some, List, [], ◌∷◌, ◌++◌,
  arith, Outcome, ok, err, Outcome-cases, Option-cases, or_option, if◌then◌else◌, append_assoc,
  append_nil,
}
use oxinit.Text.{Text, str_eq, str_eq_iff}
use oxinit.Table.{lookup, lookup-insert}
use oxinit.Unit.{UnitDef, SocketAddr}
use oxinit.UnitFile.{RawFile, Scope, UnitError, directory}
use oxinit.UnitFile.WellFormed.{IsWellFormed, parse_in-IsWellFormed}
use oxinit.Load.{
  Loaded, Directory, not_found, failed, entries, unit_files, read_and_parse, keep_unit, load_files,
  load_dir, load_from, load_dirs_in, nothing_loaded,
}

-- The unit of a reading, or its error.
abbrev pub unit_in : Outcome UnitError UnitDef → Option UnitDef
unit_in (ok u) = some u
unit_in (err e) = none

abbrev pub error_in : Outcome UnitError UnitDef → List UnitError
error_in (ok u) = []
error_in (err e) = e ∷ []

module _ (sort : List (Text × Text) → List (Text × Text)) where
  -- The unit files of a directory, none where it cannot be read.
  abbrev pub listed : Directory → List (Text × Text)
  listed (entries found) = elim (unit_files sort found) [ err message ↦ [] | ok files ↦ files ]
  listed _ = []

  abbrev pub all_listed : List (Text × Directory) → List (Text × Text)
  all_listed [] = []
  all_listed ((dir, content) ∷ dirs) = listed content ++ all_listed dirs

  -- What goes wrong with a directory; that it is not there is no error.
  abbrev pub unreadable : Text → Directory → List UnitError
  unreadable dir not_found = []
  unreadable dir (failed message) = directory dir message ∷ []
  unreadable dir (entries found) = elim (unit_files sort found) [
    | err message ↦ directory dir message ∷ []
    | ok files ↦ []
  ]

module _ (socket_addr : Text → Option SocketAddr) (from_toml : Text → Outcome Text RawFile)
    (read_to_string : Text → Outcome Text Text) (hostname : Text) (scope : Scope) where
  abbrev reading : Text → Text → Outcome UnitError UnitDef
  reading name path = read_and_parse socket_addr from_toml read_to_string name path hostname scope

  -- The last file of that name that can be read as a unit.
  abbrev pub accepted : Text → List (Text × Text) → Option UnitDef
  accepted name [] = none
  accepted name ((n, path) ∷ files) =
      or_option (accepted name files) (if str_eq n name then unit_in (reading n path) else none)

  -- The errors of the files, in their order.
  abbrev pub refused : List (Text × Text) → List UnitError
  refused [] = []
  refused ((n, path) ∷ files) = error_in (reading n path) ++ refused files

  abbrev load : List (Text × Text) → Loaded → Loaded
  load files loaded = load_files socket_addr from_toml read_to_string files hostname scope loaded

  load_files-lookup :
      (name : Text) (files : List (Text × Text)) (loaded : Loaded)
      → lookup name (load files loaded).units
        ≡ or_option (accepted name files) (lookup name loaded.units)
  unfolding load_files
  load_files-lookup name [] loaded = refl
  load_files-lookup name ((n, path) ∷ files) loaded =
      let later =
        load_files-lookup name files
          (keep_unit socket_addr from_toml read_to_string n (reading n path) loaded) in
      elim (Outcome-cases (reading n path)) [
        | inl (u, e) ↦ ground (arith, lookup-insert n name u loaded.units)
        | inr (x, e) ↦ ground arith
      ]

  load_files-errors :
      (files : List (Text × Text)) (loaded : Loaded)
      → (load files loaded).errors ≡ loaded.errors ++ refused files
  unfolding load_files
  load_files-errors [] loaded = ground (arith, append_nil loaded.errors)
  load_files-errors ((n, path) ∷ files) loaded =
      let later =
        load_files-errors files
          (keep_unit socket_addr from_toml read_to_string n (reading n path) loaded) in
      elim (Outcome-cases (reading n path)) [
        | inl (u, e) ↦ ground arith
        | inr (x, e) ↦ ground (arith, append_assoc loaded.errors (x ∷ []) (refused files))
      ]

  accepted-append :
      (name : Text) (xs ys : List (Text × Text))
      → accepted name (xs ++ ys) ≡ or_option (accepted name ys) (accepted name xs)
  accepted-append name [] ys = elim (Option-cases (accepted name ys)) [
    | inl e ↦ ground arith
    | inr (u, e) ↦ ground arith
  ]
  accepted-append name ((n, path) ∷ xs) ys =
      let later = accepted-append name xs ys in
      elim (Option-cases (accepted name ys)) [ inl e ↦ ground arith | inr (u, e) ↦ ground arith ]

  -- A unit that is accepted was read from a file of its name.
  accepted-IsWellFormed :
      (name : Text) (files : List (Text × Text)) (u : UnitDef)
      → accepted name files ≡ some u
      → IsWellFormed scope name u
  unfolding read_and_parse
  accepted-IsWellFormed name [] u h = absurd (ground arith)
  accepted-IsWellFormed name ((n, path) ∷ files) u h = elim (Option-cases (accepted name files)) [
    | inr (v, e) ↦ accepted-IsWellFormed name files u (ground arith)
    | inl e ↦ elim (Outcome-cases (read_to_string path)) [
      | inr (x, r) ↦ absurd (ground arith)
      | inl (text, r) ↦
          let same : n ≡ name = ground (arith, str_eq_iff n name) in
          subst (λ k. IsWellFormed scope k u) same
            (parse_in-IsWellFormed socket_addr from_toml n text hostname scope u (ground arith))
    ]
  ]

  module _ (sort : List (Text × Text) → List (Text × Text)) where
    abbrev pub all_errors : List (Text × Directory) → List UnitError
    all_errors [] = []
    all_errors ((dir, content) ∷ dirs) =
        (unreadable sort dir content ++ refused (listed sort content)) ++ all_errors dirs

    abbrev load_in : Text → Directory → Loaded → Loaded
    load_in dir content loaded =
        load_dir socket_addr from_toml read_to_string sort dir content hostname scope loaded

    load_dir-lookup :
        (name dir : Text) (content : Directory) (loaded : Loaded)
        → lookup name (load_in dir content loaded).units
          ≡ or_option (accepted name (listed sort content)) (lookup name loaded.units)
    unfolding load_dir
    load_dir-lookup name dir not_found loaded = refl
    load_dir-lookup name dir (failed message) loaded = refl
    load_dir-lookup name dir (entries found) loaded = elim (Outcome-cases (unit_files sort found)) [
      | inl (files, e) ↦ ground (arith, load_files-lookup name files loaded)
      | inr (x, e) ↦ ground arith
    ]

    load_dir-errors :
        (dir : Text) (content : Directory) (loaded : Loaded)
        → (load_in dir content loaded).errors
          ≡ loaded.errors ++ (unreadable sort dir content ++ refused (listed sort content))
    unfolding load_dir
    load_dir-errors dir not_found loaded = append_nil loaded.errors
    load_dir-errors dir (failed message) loaded = refl
    load_dir-errors dir (entries found) loaded = elim (Outcome-cases (unit_files sort found)) [
      | inl (files, e) ↦ ground (arith, load_files-errors files loaded)
      | inr (x, e) ↦ ground arith
    ]

    abbrev load_all : List (Text × Directory) → Loaded → Loaded
    load_all dirs loaded =
        load_from socket_addr from_toml read_to_string sort dirs hostname scope loaded

    load_from-lookup :
        (name : Text) (dirs : List (Text × Directory)) (loaded : Loaded)
        → lookup name (load_all dirs loaded).units
          ≡ or_option (accepted name (all_listed sort dirs)) (lookup name loaded.units)
    unfolding load_from
    load_from-lookup name [] loaded = refl
    load_from-lookup name ((dir, content) ∷ dirs) loaded = ground (
      arith,
      load_from-lookup name dirs (load_in dir content loaded),
      load_dir-lookup name dir content loaded,
      accepted-append name (listed sort content) (all_listed sort dirs),
    )

    load_from-errors :
        (dirs : List (Text × Directory)) (loaded : Loaded)
        → (load_all dirs loaded).errors ≡ loaded.errors ++ all_errors dirs
    unfolding load_from
    load_from-errors [] loaded = append_nil loaded.errors
    load_from-errors ((dir, content) ∷ dirs) loaded =
        load_from-errors dirs (load_in dir content loaded)
        ∙ ap (λ es. es ++ all_errors dirs) (load_dir-errors dir content loaded)
        ∙ append_assoc loaded.errors (unreadable sort dir content ++ refused (listed sort content))
            (all_errors dirs)

    abbrev pub loaded_from : List (Text × Directory) → Loaded
    loaded_from dirs = load_dirs_in socket_addr from_toml read_to_string sort dirs hostname scope

    -- Of the files of one name in all the directories, the last that can be read as a unit is in
    -- effect, whatever stands before or behind it; and the errors are those of every file and
    -- directory that cannot be read, in their order, and no others.
    pub load_dirs_in-last :
        (name : Text) (dirs : List (Text × Directory))
        → (lookup name (loaded_from dirs).units ≡ accepted name (all_listed sort dirs))
          × ((loaded_from dirs).errors ≡ all_errors dirs)
    unfolding load_dirs_in lookup
    load_dirs_in-last name dirs = (
      load_from-lookup name dirs nothing_loaded
          ∙ or_option-none (accepted name (all_listed sort dirs)),
      load_from-errors dirs nothing_loaded,
    )

    -- Every unit that is loaded under a name, whatever the files hold, has that name, made of the
    -- allowed characters; it requires nothing that it conflicts with; a service has a program with
    -- an absolute path, is watched only where it notifies, and, for a user's manager, runs as that
    -- user without the terminal; a socket has an address, and the default backlog where it is a
    -- datagram one; a timer has something to fire on, with a calendar, if any, in its bounds.
    pub load_dirs_in-IsWellFormed :
        (name : Text) (dirs : List (Text × Directory)) (u : UnitDef)
        → lookup name (loaded_from dirs).units ≡ some u
        → IsWellFormed scope name u
    load_dirs_in-IsWellFormed name dirs u h =
        accepted-IsWellFormed name (all_listed sort dirs) u
          (sym (load_dirs_in-last name dirs).0 ∙ h)
