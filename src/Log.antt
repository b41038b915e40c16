-- ===== src/Log.antt =====
-- crates/oxinit-log/src/lib.rs: how output becomes lines, what a record looks like, and the plan of a
-- rotation. Bytes are numbers, and a path is its text.
pub mod Bytes
pub mod Splitting
mod Tests
use oxinit.Prelude.{
  ℕ, zero, suc, ◌+◌, ◌-◌, ◌*◌, ◌≡◌, Bool, true, false, ◌&&◌, Option, none, some, List, [], ◌∷◌,
  ◌++◌, ltb, leb, min, if◌then◌else◌, length,
}
use oxinit.Text.{Text, codes}
use oxinit.Text.Chars.{split_once}
use oxinit.Text.Decimal.{print_unsigned}
use oxinit.Text.Paths.{join}
use oxinit.Time.{saturating_add64}

-- `path(dir, unit)`: the live file of a unit.
abbrev pub path : Text → Text → Text
path dir unit = join dir (unit ++ codes ".log")

pub record Timestamp : Type 0 where
  pub secs : ℕ
  pub micros : ℕ

zeros : ℕ → Text
zeros zero = []
zeros (suc n) = b'0' ∷ zeros n

-- `{:06}`.
unfoldable pub padded : ℕ → Text
unfolding zeros
padded n = let t = print_unsigned n in zeros (6 - length t) ++ t

-- What one record appends.
unfoldable pub record_of : Timestamp → List ℕ → List ℕ
record_of at line = print_unsigned at.secs ++ b'.' ∷ padded at.micros ++ b' ' ∷ line ++ b'\n' ∷ []

abbrev pub max_line : ℕ
max_line = 16 * 1024

-- What a read emits, and the line that it leaves unfinished.
pub record Splitter : Type 0 where
  pub emitted : List (List ℕ)
  pub partial : List ℕ

-- The loop over the newlines of a read; every round takes one byte at least.
unfoldable pub take_lines : (fuel : ℕ) → List ℕ → List ℕ → Splitter
take_lines zero rest partial = record { emitted = []; partial = partial ++ rest }
take_lines (suc fuel) rest partial = elim (split_once b'\n' rest) [
  | none ↦ record { emitted = []; partial = partial ++ rest }
  | some (line, tail) ↦
      let s = take_lines fuel tail [] in
      record { emitted = (partial ++ line) ∷ s.emitted; partial = s.partial }
]

unfoldable pub push : List ℕ → List ℕ → Splitter
push partial chunk =
    let s = take_lines (length chunk) chunk partial in
    if leb max_line (length s.partial)
    then record { emitted = s.emitted ++ s.partial ∷ []; partial = [] }
    else s

unfoldable pub flush : List ℕ → Option (List ℕ)
flush [] = none
flush (c ∷ cs) = some (c ∷ cs)

pub record Rotation : Type 0 where
  pub max_size : ℕ
  pub keep : ℕ

-- `Rotation::default()`.
abbrev pub default_rotation : Rotation
default_rotation = record { max_size = 1024 * 1024; keep = 3 }

pub data Move : Type 0 where
  remove_file : (path : Text) → Move
  rename : (from to : Text) → Move

unfoldable pub should_rotate : Rotation → ℕ → ℕ → Bool
should_rotate r current adding = ltb 0 current && ltb r.max_size (saturating_add64 current adding)

abbrev pub generation : Text → Text → ℕ → Text
generation dir unit n = join dir (unit ++ codes ".log." ++ print_unsigned n)

-- `for n in (1..keep).rev()`, from `n` down.
unfoldable pub shifts : Text → Text → ℕ → List Move
shifts dir unit zero = []
shifts dir unit (suc n) =
    rename (generation dir unit (suc n)) (generation dir unit (suc (suc n))) ∷ shifts dir unit n

unfoldable pub plan : Rotation → Text → Text → List Move
plan r dir unit = elim r.keep [
  | zero ↦ remove_file (path dir unit) ∷ []
  | suc k ↦
      remove_file (generation dir unit (suc k)) ∷ shifts dir unit k
      ++ rename (path dir unit) (generation dir unit 1) ∷ []
]
