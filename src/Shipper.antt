-- ===== src/Shipper.antt =====
-- crates/oxlogd/src/main.rs: the records of the units go to their files. The log directory is a table
-- from paths to bytes, in which removing and renaming work where the file is there. Whether a file
-- can be opened, and what a write to it leaves behind, are parameters.
pub mod Rotating
pub mod Serve
pub mod Writing
mod Tests
use oxinit.Prelude.{
  ℕ, ◌+◌, ◌≡◌, Bool, true, false, Option, none, some, List, [], ◌∷◌, ◌++◌, if◌then◌else◌, length,
  map_or,
}
use oxinit.Text.{Text}
use oxinit.Time.{saturating_add64}
use oxinit.Table.{Table, lookup, insert, remove, contains_key}
use oxinit.Log.{
  path, Timestamp, record_of, Rotation, Move, remove_file, rename, should_rotate, plan, Splitter,
  push, flush,
}

abbrev pub Files : Type 0
Files = Table (List ℕ)

-- The files, and the size that each open file is taken to have.
pub record Shipper : Type 0 where
  pub files : Files
  pub sinks : Table ℕ

-- `std::fs::rename` on a file that is not there changes nothing.
unfoldable pub rename_file : Text → Text → Files → Files
rename_file from to files = elim (lookup from files) [
  | none ↦ files
  | some content ↦ insert to content (remove from files)
]

unfoldable pub do_moves : List Move → Files → Files
do_moves [] files = files
do_moves (remove_file p ∷ moves) files = do_moves moves (remove p files)
do_moves (rename from to ∷ moves) files = do_moves moves (rename_file from to files)

unfoldable pub rotate : Text → Rotation → Text → Files → Files
rotate dir r unit files = do_moves (plan r dir unit) files

-- `OpenOptions::create(true).append(true)`: a file that is not there is made, empty.
abbrev pub content_of : Option (List ℕ) → List ℕ
content_of none = []
content_of (some content) = content

unfoldable pub open_file : Text → Files → Files
open_file p files = insert p (content_of (lookup p files)) files

module _ (opens : Text → Bool) (write_all : List ℕ → List ℕ → List ℕ × Bool) where
  -- The size of the open file, which is opened if it is not.
  unfoldable pub open_sink : Text → Text → Shipper → Shipper × Option ℕ
  open_sink dir unit s = elim (lookup unit s.sinks) [
    | some size ↦ (s, some size)
    | none ↦
        if opens (path dir unit)
        then (let size = length (content_of (lookup (path dir unit) s.files)) in
            (
              record {
                files = open_file (path dir unit) s.files;
                sinks = insert unit size s.sinks;
              },
              some size,
            ))
        else (s, none)
  ]

  -- The handle of a file that was renamed away is dropped.
  unfoldable pub make_room : Text → Rotation → Text → ℕ → ℕ → Shipper → Shipper
  make_room dir r unit size adding s =
      if should_rotate r size adding
      then record { files = rotate dir r unit s.files; sinks = remove unit s.sinks }
      else s

  unfoldable pub write_to : Text → Text → List ℕ → Shipper × Option ℕ → Shipper
  write_to dir unit bytes (s, none) = s
  write_to dir unit bytes (s, some size) =
      let (content, written) = write_all (content_of (lookup (path dir unit) s.files)) bytes in
      record {
        files = insert (path dir unit) content s.files;
        sinks =
            if written then insert unit (saturating_add64 size (length bytes)) s.sinks else s.sinks;
      }

  unfoldable pub write_sized : Text → Rotation → Text → List ℕ → Shipper × Option ℕ → Shipper
  write_sized dir r unit bytes (s, none) = s
  write_sized dir r unit bytes (s, some size) =
      write_to dir unit bytes (open_sink dir unit (make_room dir r unit size (length bytes) s))

  unfoldable pub write : Timestamp → Text → Rotation → Text → List ℕ → Shipper → Shipper
  write now dir r unit line s = write_sized dir r unit (record_of now line) (open_sink dir unit s)

  -- The records of one read, each with the moment at which it is written.
  unfoldable pub write_lines :
      Text → Rotation → Text → List (Timestamp × List ℕ) → Shipper → Shipper
  write_lines dir r unit [] s = s
  write_lines dir r unit ((now, line) ∷ lines) s =
      write_lines dir r unit lines (write now dir r unit line s)
