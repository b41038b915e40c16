-- ===== src/Cgroup.antt =====
-- crates/oxinit-cgroup/src/lib.rs: the layout of the cgroup hierarchy, and what is written to it. What
-- the kernel answers is a parameter: it may depend on everything that was asked of it before.
pub mod Calls
pub mod Attempts
pub mod Contents
pub mod Prepared
mod Tests
use oxinit.Prelude.{
  ℕ, ◌+◌, ◌*◌, ◌/◌, ◌%◌, ◌^◌, ◌≡◌, Bool, true, false, not, Option, none, some, List, [], ◌∷◌, ◌++◌,
  leb, if◌then◌else◌, find, keep, map, Outcome, ok, err,
}
use oxinit.Text.{Text, codes, str_eq, contains_text, parse_unsigned}
use oxinit.Text.Chars.{trim, trim_start, trim_end, lines, split_once, split_whitespace}
use oxinit.Text.Decimal.{print_unsigned}
use oxinit.Text.Paths.{join}
use oxinit.Time.{u32_max, u64_max}
use oxinit.Unit.{Resources, SizeValue}
use oxinit.Value.{print_size}
use oxinit.Cgroup.Calls.{
  Kernel, Op, IoError, already_exists, other, make_dir, write_file, M, pure, ◌>>=◌, ◌>>◌,
}

abbrev pub slice_name : Text
slice_name = codes "oxinit.slice"

abbrev pub init_scope : Text
init_scope = codes "init.scope"

-- In the order in which they are enabled.
abbrev pub controllers : List Text
controllers = codes "memory" ∷ codes "pids" ∷ []

pub data CgroupError : Type 0 where
  not_cgroup2 create_failed write_failed read_failed :
      (path : Text) (source : IoError) → CgroupError

-- `+memory +pids`.
unfoldable pub enable_line : List Text → Text
enable_line [] = []
enable_line (c ∷ []) = b'+' ∷ c
enable_line (c ∷ d ∷ cs) = (b'+' ∷ c) ++ b' ' ∷ enable_line (d ∷ cs)

-- A directory that is there already is as good as one that is made.
abbrev pub create_answer : Text → Outcome IoError (Unit {0}) → Outcome CgroupError (Unit {0})
create_answer path (ok u) = ok u
create_answer path (err already_exists) = ok tt
create_answer path (err (other code)) = err (create_failed path (other code))

abbrev pub write_answer : Text → Outcome IoError (Unit {0}) → Outcome CgroupError (Unit {0})
write_answer path (ok u) = ok u
write_answer path (err source) = err (write_failed path source)

-- The `populated` key of a `cgroup.events` body, in the lines that have a space.
unfoldable pub find_populated : List Text → Option Bool
find_populated [] = none
find_populated (line ∷ rest) = elim (split_once b' ' line) [
  | none ↦ find_populated rest
  | some (key, value) ↦
      if str_eq key (codes "populated")
      then some (not (str_eq (trim value) (codes "0")))
      else find_populated rest
]

unfoldable pub parse_populated : Text → Option Bool
parse_populated text = find_populated (lines text)

-- `lines().filter_map(|line| line.trim().parse().ok())`, into `u32`.
unfoldable pub parse_pids : List Text → List ℕ
parse_pids [] = []
parse_pids (line ∷ rest) = elim (parse_unsigned u32_max (trim line)) [
  | none ↦ parse_pids rest
  | some pid ↦ pid ∷ parse_pids rest
]

pub record Stats : Type 0 where
  pub memory : Option ℕ
  pub tasks : Option ℕ

-- The scales of a byte count, the greatest first.
abbrev pub units : List (ℕ × Text)
units = (2 ^ 30, codes "G") ∷ (2 ^ 20, codes "M") ∷ (2 ^ 10, codes "K") ∷ (1, codes "B") ∷ []

unfoldable pub amount_in : List (ℕ × Text) → ℕ → Option (ℕ × ℕ × Text)
amount_in [] n = none
amount_in ((scale, suffix) ∷ rest) n =
    if leb scale n then some (n / scale, (n % scale) * 10 / scale, suffix) else amount_in rest n

unfoldable pub print_bytes : ℕ → Text
print_bytes n = elim (amount_in units n) [
  | none ↦ codes "0B"
  | some (whole, tenths, suffix) ↦ print_unsigned whole ++ b'.' ∷ (print_unsigned tenths ++ suffix)
]

abbrev print_memory : Option ℕ → Text
print_memory none = codes "memory unknown"
print_memory (some n) = codes "memory " ++ print_bytes n

abbrev print_tasks : Option ℕ → Text
print_tasks none = codes ", tasks unknown"
print_tasks (some n) = codes ", tasks " ++ print_unsigned n

unfoldable pub print_stats : Stats → Text
print_stats s = print_memory s.memory ++ print_tasks s.tasks

-- Those of the controllers that the kernel has.
unfoldable pub wanted : Text → List Text
wanted listed = keep (contains_text (split_whitespace listed)) controllers

abbrev pub procs : Text → Text
procs path = join path (codes "cgroup.procs")

abbrev pub events : Text → Text
events path = join path (codes "cgroup.events")

module _ (kernel : Kernel) where
  unfoldable pub create_dir : Text → M CgroupError (Unit {0})
  create_dir path done =
      (create_answer path (kernel.create_dir done path), done ++ make_dir path ∷ [])

  unfoldable pub write : Text → Text → M CgroupError (Unit {0})
  write path value done = (
    write_answer path (kernel.open_and_write done path value),
    done ++ write_file path value ∷ [],
  )

  unfoldable pub enable : Text → List Text → M CgroupError (Unit {0})
  enable cgroup [] = pure tt
  enable cgroup (c ∷ cs) =
      write (join cgroup (codes "cgroup.subtree_control")) (enable_line (c ∷ cs))

  unfoldable pub park_init : Text → ℕ → M CgroupError (Unit {0})
  park_init root pid = do
    create_dir (join root init_scope)
    write (join (join root init_scope) (codes "cgroup.procs")) (print_unsigned pid)

  -- Best effort: what comes of it is not looked at.
  abbrev try_park : Text → ℕ → M CgroupError (Unit {0})
  try_park root pid done = let (_, done') = park_init root pid done in (ok tt, done')

  abbrev delegate : Text → ℕ → List Text → M CgroupError Text
  delegate root pid cs = do
    try_park root pid
    enable root cs
    create_dir (join root slice_name)
    enable (join root slice_name) cs
    pure (join root slice_name)

  -- A hierarchy is its slice.
  unfoldable pub new : Text → ℕ → M CgroupError Text
  new root pid done = elim (kernel.read_to_string done (join root (codes "cgroup.controllers"))) [
    | err source ↦ (err (not_cgroup2 root source), done)
    | ok listed ↦ delegate root pid (wanted listed) done
  ]

  abbrev pub apply_memory : Text → Option SizeValue → M CgroupError (Unit {0})
  apply_memory path none = pure tt
  apply_memory path (some size) = write (join path (codes "memory.max")) (print_size size)

  abbrev pub apply_tasks : Text → Option ℕ → M CgroupError (Unit {0})
  apply_tasks path none = pure tt
  apply_tasks path (some n) = write (join path (codes "pids.max")) (print_unsigned n)

  unfoldable pub apply : Text → Resources → M CgroupError (Unit {0})
  apply path r = do apply_memory path r.memory_max; apply_tasks path r.tasks_max

  unfoldable pub populated : Text → M CgroupError Bool
  populated path done = elim (kernel.read_to_string done (events path)) [
    | err source ↦ (err (read_failed (events path) source), done)
    | ok text ↦ (ok (elim (parse_populated text) [ none ↦ false | some b ↦ b ]), done)
  ]

  abbrev read_number : List Op → Text → Option ℕ
  read_number done path = elim (kernel.read_to_string done path) [
    | err source ↦ none
    | ok text ↦ parse_unsigned u64_max (trim text)
  ]

  unfoldable pub stats : Text → List Op → Stats
  stats path done = record {
    memory = read_number done (join path (codes "memory.current"));
    tasks = read_number done (join path (codes "pids.current"));
  }

  unfoldable pub pids : Text → M CgroupError (List ℕ)
  pids path done = elim (kernel.read_to_string done (procs path)) [
    | err source ↦ (err (read_failed (procs path) source), done)
    | ok text ↦ (ok (parse_pids (lines text)), done)
  ]

  unfoldable pub kill : Text → M CgroupError (Unit {0})
  kill path = write (join path (codes "cgroup.kill")) (codes "1")
