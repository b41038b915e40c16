-- ===== src/Notify/Lines.antt =====
-- The parser of crates/oxinit-service/src/notify.rs against what the lines of a message say.
use oxinit.Prelude.{
  ℕ, ◌≡◌, inl, inr, refl, sym, ap, ◌∙◌, Bool, true, false, ◌&&◌, ◌||◌, Option, none, some, List, [],
  ◌∷◌, ◌++◌, arith, if◌then◌else◌, take, any, or_option, Option-cases,
}
use oxinit.Text.{Text, codes, str_eq}
use oxinit.Text.Chars.{split_once, strip_prefix, lines}
use oxinit.Text.Cuts.{
  str_eq-apart, split_once-eq-some, split_once-eq-none, str_eq-cut, strip_prefix-cut,
  strip_prefix-lacks, str_eq-lacks,
}
use oxinit.Events.{Message}
use oxinit.Notify.{apply_key, apply_line, apply_lines, silent, max_status, parse}

abbrev bounded : Option Text → Option Text
bounded none = none
bounded (some value) = some (take max_status value)

-- The status that a line gives, if it is a status line.
abbrev pub status_in : Text → Option Text
status_in line = bounded (strip_prefix (codes "STATUS=") line)

-- The status of the last line that gives one.
abbrev pub last_status : List Text → Option Text
last_status [] = none
last_status (line ∷ rest) = or_option (last_status rest) (status_in line)

abbrev pub says : Text → List Text → Bool
says t ls = any (str_eq t) ls

-- What lines add to a message.
abbrev plus : Bool → Bool → Option Text → Message → Message
plus ready watchdog found m = record {
  pid = m.pid;
  ready = m.ready || ready;
  watchdog = m.watchdog || watchdog;
  status_line = or_option found m.status_line;
}

plus-plus :
    (r w r' w' : Bool) (f f' : Option Text) (m : Message)
    → plus r' w' f' (plus r w f m) ≡ plus (r || r') (w || w') (or_option f' f) m
plus-plus r w r' w' f f' m = ground arith

plus-silent :
    (pid : ℕ) (r w : Bool) (f : Option Text)
    → plus r w f (silent pid) ≡ record { pid = pid; ready = r; watchdog = w; status_line = f }
plus-silent pid r w f = ground arith

abbrev told : Text → Message → Message
told line m =
    plus (str_eq (codes "READY=1") line) (str_eq (codes "WATCHDOG=1") line) (status_in line) m

-- The arms of the match, by the tests alone: the keys are different, so at most one of them is met.
arms-told :
    (is_ready is_watchdog is_status one ready watchdog : Bool) (found : Option Text) (value : Text)
    (m : Message)
    → (is_ready ≡ true → is_watchdog ≡ false)
    → (is_ready ≡ true → is_status ≡ false)
    → (is_watchdog ≡ true → is_status ≡ false)
    → ready ≡ (is_ready && one)
    → watchdog ≡ (is_watchdog && one)
    → found ≡ (if is_status then some value else none)
    → (if is_ready && one
        then record m { ready = true }
        else (if is_watchdog && one
            then record m { watchdog = true }
            else (if is_status
                then record m { status_line = some (take max_status value) }
                else m)))
      ≡ plus ready watchdog (bounded found) m
arms-told is_ready is_watchdog is_status one ready watchdog found value m h1 h2 h3 h4 h5 h6 =
    ground arith

apply_line-told : (line : Text) (m : Message) → apply_line line m ≡ told line m
unfolding apply_line apply_key
apply_line-told line m = elim (Option-cases (split_once b'=' line)) [
  | inl e ↦
      let free = split_once-eq-none b'=' line e in
      let r = str_eq-lacks b'=' (codes "READY") (codes "1") line free in
      let w = str_eq-lacks b'=' (codes "WATCHDOG") (codes "1") line free in
      let s = strip_prefix-lacks b'=' (codes "STATUS") line free in ground arith
  | inr ((key, value), e) ↦
      let (same, free) = split_once-eq-some b'=' line key value e in
      let cut : told (key ++ b'=' ∷ value) m ≡ apply_key key value m = sym (
        arms-told (str_eq key (codes "READY")) (str_eq key (codes "WATCHDOG"))
          (str_eq key (codes "STATUS")) (str_eq value (codes "1"))
          (str_eq (codes "READY=1") (key ++ b'=' ∷ value))
          (str_eq (codes "WATCHDOG=1") (key ++ b'=' ∷ value))
          (strip_prefix (codes "STATUS=") (key ++ b'=' ∷ value)) value m
          (str_eq-apart key (codes "READY") (codes "WATCHDOG") (unfold str_eq in refl))
          (str_eq-apart key (codes "READY") (codes "STATUS") (unfold str_eq in refl))
          (str_eq-apart key (codes "WATCHDOG") (codes "STATUS") (unfold str_eq in refl))
          (str_eq-cut b'=' (codes "READY") key (codes "1") value refl free)
          (str_eq-cut b'=' (codes "WATCHDOG") key (codes "1") value refl free)
          (strip_prefix-cut b'=' (codes "STATUS") key value refl free)) in
      ground arith
]

abbrev all_told : List Text → Message → Message
all_told ls m = plus (says (codes "READY=1") ls) (says (codes "WATCHDOG=1") ls) (last_status ls) m

apply_lines-told : (ls : List Text) (m : Message) → apply_lines ls m ≡ all_told ls m
unfolding apply_lines
apply_lines-told [] m = ground arith
apply_lines-told (line ∷ rest) m =
    ap (apply_lines rest) (apply_line-told line m)
    ∙ apply_lines-told rest (told line m)
    ∙ plus-plus (str_eq (codes "READY=1") line) (str_eq (codes "WATCHDOG=1") line)
        (says (codes "READY=1") rest) (says (codes "WATCHDOG=1") rest) (status_in line)
        (last_status rest) m

-- The message in the body of a datagram, where the bytes are UTF-8: it is from the process that the
-- kernel named; it is ready, or a ping, if and only if one of the lines is exactly `READY=1`, or
-- `WATCHDOG=1`; and its status is what follows `STATUS=` on the last line that begins so, cut to
-- 256 characters.
pub parse-says :
    (from_utf8 : List ℕ → Option Text) (pid : ℕ) (body : List ℕ) (text : Text)
    → from_utf8 body ≡ some text
    → parse from_utf8 pid body
      ≡ some (record {
        pid = pid;
        ready = says (codes "READY=1") (lines text);
        watchdog = says (codes "WATCHDOG=1") (lines text);
        status_line = last_status (lines text);
      })
unfolding parse
parse-says from_utf8 pid body text h =
    rw (h, parse)
      (ap some (
        apply_lines-told (lines text) (silent pid)
        ∙ plus-silent pid (says (codes "READY=1") (lines text))
            (says (codes "WATCHDOG=1") (lines text)) (last_status (lines text))))
