-- ===== src/Watchdog/Cmdline/Tests.antt =====
-- Command lines that the tests of crates/oxinit-watchdog/src/lib.rs name.
use oxinit.Prelude.{◌≡◌, refl, some, ok, err, all}
use oxinit.Text.{Text, codes, str_eq, parse_unsigned}
use oxinit.Text.Chars.{
  split_whitespace, words_from, strip_prefix, split_once, is_whitespace, trim_start, trim_end,
  take_while,
}
use oxinit.Time.{from_secs}
use oxinit.Value.{parse_duration, read_pairs, read_pair, add_pair, duration_suffix}
use oxinit.Watchdog.{unknown_key, value}
use oxinit.Watchdog.Cmdline.{
  cmdline_origin, no_settings, key_and_value, duration, set_key, read_word, read_words,
  from_cmdline,
}
use oxinit.Watchdog.Cmdline.Words.{is_accepted, value_in, when, said_settings, from_cmdline-said}

abbrev line : Text
line = codes "quiet oxinit.watchdog.boot-sec=3min oxinit.watchdog.boot-sec=45s console=ttyS0"

program : Unit {0}
unfolding from_cmdline read_words read_word set_key duration key_and_value words_from strip_prefix
    split_once is_whitespace trim_start trim_end take_while str_eq parse_unsigned parse_duration
    read_pairs read_pair add_pair
program = tt

line_reads : from_cmdline line ≡ ok (record no_settings { boot_sec = some (from_secs 45) })
unfolding program
line_reads = refl

from_cmdline-said_example :
    value_in (from_cmdline line)
    ≡ when (all is_accepted (split_whitespace line)) (some (said_settings (split_whitespace line)))
from_cmdline-said_example = from_cmdline-said line

typos :
    (from_cmdline (codes "oxinit.watchdog.timout-sec=10s")
      ≡ err (unknown_key cmdline_origin (codes "oxinit.watchdog.timout-sec")))
    × (from_cmdline (codes "oxinit.watchdog.timeout-sec=10")
        ≡ err (
            value cmdline_origin
              (codes "oxinit.watchdog.timeout-sec")
              (duration_suffix (codes "10"))))
    × (from_cmdline (codes "hideos.watchdog=45 oxinit.debug") ≡ ok no_settings)
unfolding program
typos = (refl, refl, refl)
