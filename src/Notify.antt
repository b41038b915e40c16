-- ===== src/Notify.antt =====
-- crates/oxinit-service/src/notify.rs: the body of a `sd_notify` datagram as a message. The standard
-- library's reading of bytes as UTF-8 is a parameter.
pub mod Lines
mod Tests
use oxinit.Prelude.{
  ℕ, ◌≡◌, Bool, true, false, ◌&&◌, Option, none, some, List, [], ◌∷◌, if◌then◌else◌, take,
}
use oxinit.Text.{Text, codes, str_eq}
use oxinit.Text.Chars.{split_once, lines}
use oxinit.Events.{Message}

-- The longest status that is kept, in characters.
abbrev pub max_status : ℕ
max_status = 256

-- The arms of the match on a key and its value.
unfoldable pub apply_key : Text → Text → Message → Message
apply_key key value m =
    if str_eq key (codes "READY") && str_eq value (codes "1")
    then record m { ready = true }
    else (if str_eq key (codes "WATCHDOG") && str_eq value (codes "1")
        then record m { watchdog = true }
        else (if str_eq key (codes "STATUS")
            then record m { status_line = some (take max_status value) }
            else m))

unfoldable pub apply_line : Text → Message → Message
apply_line line m = elim (split_once b'=' line) [
  | none ↦ m
  | some (key, value) ↦ apply_key key value m
]

unfoldable pub apply_lines : List Text → Message → Message
apply_lines [] m = m
apply_lines (line ∷ rest) m = apply_lines rest (apply_line line m)

abbrev pub silent : ℕ → Message
silent pid = record { pid = pid; ready = false; watchdog = false; status_line = none }

module _ (from_utf8 : List ℕ → Option Text) where
  unfoldable pub parse : ℕ → List ℕ → Option Message
  parse pid body = elim (from_utf8 body) [
    | none ↦ none
    | some text ↦ some (apply_lines (lines text) (silent pid))
  ]
