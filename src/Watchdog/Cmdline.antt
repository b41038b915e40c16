-- ===== src/Watchdog/Cmdline.antt =====
-- The settings of crates/oxinit-watchdog/src/lib.rs that come from texts: `Settings::parse`, with the TOML
-- reader as a parameter, and `Settings::from_cmdline`.
pub mod Words
mod Tests
use oxinit.Prelude.{
  ℕ, ◌≡◌, Bool, true, false, Option, none, some, List, [], ◌∷◌, ◌++◌, if◌then◌else◌, Outcome, ok,
  err, ◌>>=◌,
}
use oxinit.Text.{Text, codes, str_eq}
use oxinit.Text.Chars.{split_whitespace, strip_prefix, split_once}
use oxinit.Time.{Duration}
use oxinit.Value.{ValueError, duration_overflow, parse_duration}
use oxinit.Watchdog.{Settings, WatchdogError, toml, unknown_key, value}

abbrev pub cmdline_prefix : Text
cmdline_prefix = codes "oxinit.watchdog."

abbrev pub cmdline_origin : Text
cmdline_origin = codes "kernel command line"

abbrev pub no_settings : Settings
no_settings = record { device = none; timeout_sec = none; boot_unit = none; boot_sec = none }

-- A file, whose keys the TOML reader has read.
unfoldable pub parse : (Text → Outcome Text Settings) → Text → Text → Outcome WatchdogError Settings
parse from_toml origin text = elim (from_toml text) [
  | err message ↦ err (toml origin message)
  | ok settings ↦ ok settings
]

-- `split_once('=').unwrap_or((rest, ""))`.
unfoldable pub key_and_value : Text → Text × Text
key_and_value rest = elim (split_once b'=' rest) [ none ↦ (rest, []) | some pair ↦ pair ]

-- The fuel of `parse_duration` is enough, so it never answers `none`.
abbrev pub duration_of : Text → Outcome ValueError Duration
duration_of text = elim (parse_duration text) [ none ↦ err duration_overflow | some o ↦ o ]

unfoldable pub duration : Text → Text → Outcome WatchdogError Duration
duration key text = elim (duration_of text) [
  | err e ↦ err (value cmdline_origin (cmdline_prefix ++ key) e)
  | ok d ↦ ok d
]

unfoldable pub set_key : Text → Text → Settings → Outcome WatchdogError Settings
set_key key text s =
    if str_eq key (codes "device")
    then ok (record s { device = some text })
    else (if str_eq key (codes "timeout-sec")
        then (duration key text >>= λ d. ok (record s { timeout_sec = some d }))
        else (if str_eq key (codes "boot-unit")
            then ok (record s { boot_unit = some text })
            else (if str_eq key (codes "boot-sec")
                then (duration key text >>= λ d. ok (record s { boot_sec = some d }))
                else err (unknown_key cmdline_origin (cmdline_prefix ++ key)))))

unfoldable pub read_word : Text → Settings → Outcome WatchdogError Settings
read_word word s = elim (strip_prefix cmdline_prefix word) [
  | none ↦ ok s
  | some rest ↦ set_key (key_and_value rest).0 (key_and_value rest).1 s
]

unfoldable pub read_words : List Text → Settings → Outcome WatchdogError Settings
read_words [] s = ok s
read_words (word ∷ words) s = read_word word s >>= read_words words

unfoldable pub from_cmdline : Text → Outcome WatchdogError Settings
from_cmdline cmdline = read_words (split_whitespace cmdline) no_settings
