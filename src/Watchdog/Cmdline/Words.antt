-- ===== src/Watchdog/Cmdline/Words.antt =====
-- What the words of a kernel command line set: crates/oxinit-watchdog/src/lib.rs.
use oxinit.Prelude.{
  ◌≡◌, refl, sym, ap, ◌∙◌, inl, inr, Bool, true, false, ◌&&◌, ◌||◌, Option, none, some, List, [],
  ◌∷◌, arith, Outcome, ok, err, ◌>>=◌, or_option, or_option_assoc, or_option-none, Option-cases,
  Outcome-cases, Bool-cases, all,
}
use oxinit.Text.{Text, codes, str_eq}
use oxinit.Text.Cuts.{str_eq-apart}
use oxinit.Text.Chars.{split_whitespace, strip_prefix}
use oxinit.Time.{Duration}
use oxinit.Watchdog.{Settings}
use oxinit.Watchdog.Cmdline.{
  cmdline_prefix, no_settings, key_and_value, duration_of, duration, set_key, read_word, read_words,
  from_cmdline,
}

abbrev is_ok {ℓ κ} : {E : Type ℓ} {A : Type κ} → Outcome E A → Bool
is_ok (ok a) = true
is_ok (err e) = false

abbrev pub value_in {ℓ κ} : {E : Type ℓ} {A : Type κ} → Outcome E A → Option A
value_in (ok a) = some a
value_in (err e) = none

value_in-refused {ℓ κ} :
    {E : Type ℓ} {A : Type κ} (o : Outcome E A) → is_ok o ≡ false → value_in o ≡ none
value_in-refused (ok a) h = absurd (ground arith)
value_in-refused (err e) h = refl

-- A key that is known, with a duration where it wants one.
abbrev pub is_accepted_key : Text → Text → Bool
is_accepted_key key text =
    str_eq key (codes "device")
    || str_eq key (codes "boot-unit")
    || ((str_eq key (codes "timeout-sec") || str_eq key (codes "boot-sec"))
        && is_ok (duration_of text))

abbrev pub is_accepted : Text → Bool
is_accepted word = elim (strip_prefix cmdline_prefix word) [
  | none ↦ true
  | some rest ↦ is_accepted_key (key_and_value rest).0 (key_and_value rest).1
]

abbrev pub when {ℓ} : {A : Type ℓ} → Bool → Option A → Option A
when true o = o
when false o = none

abbrev with_key : Text → Text → Settings → Settings
with_key key text s = record {
  device = or_option (when (str_eq key (codes "device")) (some text)) s.device;
  timeout_sec =
      or_option (when (str_eq key (codes "timeout-sec")) (value_in (duration_of text)))
        s.timeout_sec;
  boot_unit = or_option (when (str_eq key (codes "boot-unit")) (some text)) s.boot_unit;
  boot_sec =
      or_option (when (str_eq key (codes "boot-sec")) (value_in (duration_of text))) s.boot_sec;
}

-- At most one of the keys is met.
record Apart (key : Text) : Type 0 where
  pub device :
      str_eq key (codes "device") ≡ true
      → (str_eq key (codes "timeout-sec") ≡ false)
        × (str_eq key (codes "boot-unit") ≡ false)
        × (str_eq key (codes "boot-sec") ≡ false)
  pub timeout :
      str_eq key (codes "timeout-sec") ≡ true
      → (str_eq key (codes "boot-unit") ≡ false) × (str_eq key (codes "boot-sec") ≡ false)
  pub boot_unit : str_eq key (codes "boot-unit") ≡ true → str_eq key (codes "boot-sec") ≡ false

key-Apart : (key : Text) → Apart key
unfolding str_eq
key-Apart key = record {
  device = λ h. (
    str_eq-apart key (codes "device") (codes "timeout-sec") refl h,
    str_eq-apart key (codes "device") (codes "boot-unit") refl h,
    str_eq-apart key (codes "device") (codes "boot-sec") refl h,
  );
  timeout = λ h. (
    str_eq-apart key (codes "timeout-sec") (codes "boot-unit") refl h,
    str_eq-apart key (codes "timeout-sec") (codes "boot-sec") refl h,
  );
  boot_unit = str_eq-apart key (codes "boot-unit") (codes "boot-sec") refl;
}

set_key-with_key :
    (key text : Text) (s : Settings)
    → is_accepted_key key text ≡ true
    → set_key key text s ≡ ok (with_key key text s)
unfolding set_key duration
set_key-with_key key text s h =
    let a = key-Apart key in
    elim (Bool-cases (str_eq key (codes "device"))) [
      | inl e ↦ let other = a.device e in ground arith
      | inr e ↦ elim (Bool-cases (str_eq key (codes "timeout-sec"))) [
        | inl f ↦ let other = a.timeout f in ground arith
        | inr f ↦ elim (Bool-cases (str_eq key (codes "boot-unit"))) [
          | inl g ↦ let other = a.boot_unit g in ground arith
          | inr g ↦ ground arith
        ]
      ]
    ]

set_key-refused :
    (key text : Text) (s : Settings)
    → is_accepted_key key text ≡ false
    → is_ok (set_key key text s) ≡ false
unfolding set_key duration
set_key-refused key text s h = elim (Bool-cases (str_eq key (codes "timeout-sec"))) [
  | inl f ↦ ground arith
  | inr f ↦ elim (Bool-cases (str_eq key (codes "boot-sec"))) [
    | inl g ↦ ground arith
    | inr g ↦ ground arith
  ]
]

-- The text that a word gives for a key, and the duration, by what follows the prefix.
abbrev said_behind : Text → Option Text → Option Text
said_behind name none = none
said_behind name (some rest) =
    when (str_eq (key_and_value rest).0 name) (some (key_and_value rest).1)

abbrev duration_behind : Text → Option Text → Option Duration
duration_behind name none = none
duration_behind name (some rest) =
    when (str_eq (key_and_value rest).0 name) (value_in (duration_of (key_and_value rest).1))

abbrev pub said : Text → Text → Option Text
said name word = said_behind name (strip_prefix cmdline_prefix word)

abbrev pub said_duration : Text → Text → Option Duration
said_duration name word = duration_behind name (strip_prefix cmdline_prefix word)

-- What the last word says that says anything.
abbrev pub last_said {ℓ} : {A : Type ℓ} → (Text → Option A) → List Text → Option A
last_said f [] = none
last_said f (word ∷ words) = or_option (last_said f words) (f word)

abbrev plus : Option Text → Option Duration → Option Text → Option Duration → Settings → Settings
plus device timeout_sec boot_unit boot_sec s = record {
  device = or_option device s.device;
  timeout_sec = or_option timeout_sec s.timeout_sec;
  boot_unit = or_option boot_unit s.boot_unit;
  boot_sec = or_option boot_sec s.boot_sec;
}

abbrev with_word : Text → Settings → Settings
with_word word s =
    plus (said (codes "device") word) (said_duration (codes "timeout-sec") word)
      (said (codes "boot-unit") word) (said_duration (codes "boot-sec") word) s

abbrev with_words : List Text → Settings → Settings
with_words words s =
    plus (last_said (said (codes "device")) words)
      (last_said (said_duration (codes "timeout-sec")) words)
      (last_said (said (codes "boot-unit")) words)
      (last_said (said_duration (codes "boot-sec")) words) s

read_word-with_word :
    (word : Text) (s : Settings)
    → is_accepted word ≡ true
    → read_word word s ≡ ok (with_word word s)
unfolding read_word
read_word-with_word word s h = elim (Option-cases (strip_prefix cmdline_prefix word)) [
  | inl e ↦ ground arith
  | inr (rest, e) ↦
      let set = set_key-with_key (key_and_value rest).0 (key_and_value rest).1 s (ground arith) in
      let read : read_word word s ≡ set_key (key_and_value rest).0 (key_and_value rest).1 s =
        ground arith in
      let here : ok (with_key (key_and_value rest).0 (key_and_value rest).1 s)
          ≡ ok (with_word word s) =
        ap
          (λ o. ok (
            plus (said_behind (codes "device") o) (duration_behind (codes "timeout-sec") o)
              (said_behind (codes "boot-unit") o) (duration_behind (codes "boot-sec") o) s))
          (sym e) in
      read ∙ set ∙ here
]

read_word-refused :
    (word : Text) (s : Settings) → is_accepted word ≡ false → is_ok (read_word word s) ≡ false
unfolding read_word
read_word-refused word s h = elim (Option-cases (strip_prefix cmdline_prefix word)) [
  | inl e ↦ absurd (ground arith)
  | inr (rest, e) ↦ ground (arith, set_key-refused (key_and_value rest).0 (key_and_value rest).1 s)
]

plus-plus :
    (device' device : Option Text) (timeout_sec' timeout_sec : Option Duration)
    (boot_unit' boot_unit : Option Text) (boot_sec' boot_sec : Option Duration) (s : Settings)
    → plus device' timeout_sec' boot_unit' boot_sec' (plus device timeout_sec boot_unit boot_sec s)
      ≡ plus
          (or_option device' device)
          (or_option timeout_sec' timeout_sec)
          (or_option boot_unit' boot_unit)
          (or_option boot_sec' boot_sec)
          s
plus-plus device' device timeout_sec' timeout_sec boot_unit' boot_unit boot_sec' boot_sec s =
    ground (
      arith,
      or_option_assoc device' device s.device,
      or_option_assoc timeout_sec' timeout_sec s.timeout_sec,
      or_option_assoc boot_unit' boot_unit s.boot_unit,
      or_option_assoc boot_sec' boot_sec s.boot_sec,
    )

read_words-with_words :
    (words : List Text) (s : Settings)
    → all is_accepted words ≡ true
    → read_words words s ≡ ok (with_words words s)
unfolding read_words
read_words-with_words [] s h = refl
read_words-with_words (word ∷ words) s h =
    ap (λ o. o >>= read_words words) (read_word-with_word word s (ground arith))
    ∙ read_words-with_words words (with_word word s) (ground arith)
    ∙ ap ok (
        plus-plus (last_said (said (codes "device")) words) (said (codes "device") word)
          (last_said (said_duration (codes "timeout-sec")) words)
          (said_duration (codes "timeout-sec") word) (last_said (said (codes "boot-unit")) words)
          (said (codes "boot-unit") word) (last_said (said_duration (codes "boot-sec")) words)
          (said_duration (codes "boot-sec") word) s)

read_words-refused :
    (words : List Text) (s : Settings)
    → all is_accepted words ≡ false
    → is_ok (read_words words s) ≡ false
unfolding read_words
read_words-refused [] s h = absurd (ground arith)
read_words-refused (word ∷ words) s h = elim (Outcome-cases (read_word word s)) [
  | inr (e, f) ↦ ground arith
  | inl (t, f) ↦ ground (arith, read_words-refused words t, read_word-refused word s)
]

-- What the words of a command line say: for each key, the last word that sets it.
abbrev pub said_settings : List Text → Settings
said_settings words = record {
  device = last_said (said (codes "device")) words;
  timeout_sec = last_said (said_duration (codes "timeout-sec")) words;
  boot_unit = last_said (said (codes "boot-unit")) words;
  boot_sec = last_said (said_duration (codes "boot-sec")) words;
}

with_words-no_settings : (words : List Text) → with_words words no_settings ≡ said_settings words
with_words-no_settings words = ground (
  arith,
  or_option-none (last_said (said (codes "device")) words),
  or_option-none (last_said (said_duration (codes "timeout-sec")) words),
  or_option-none (last_said (said (codes "boot-unit")) words),
  or_option-none (last_said (said_duration (codes "boot-sec")) words),
)

-- A command line whose words under the prefix all have a key that is known, with a duration where it
-- wants one, sets each key as the last word for it says, and no other key; every other command line
-- is an error. Words without the prefix count for nothing.
pub from_cmdline-said :
    (cmdline : Text)
    → (let words = split_whitespace cmdline in
        value_in (from_cmdline cmdline) ≡ when (all is_accepted words) (some (said_settings words)))
unfolding from_cmdline
from_cmdline-said cmdline =
    let words = split_whitespace cmdline in
    elim (Bool-cases (all is_accepted words)) [
      | inl h ↦
          ap value_in (read_words-with_words words no_settings h)
          ∙ ap some (with_words-no_settings words)
          ∙ rw h refl
      | inr h ↦ ground (
        arith,
        read_words-refused words no_settings,
        value_in-refused (read_words words no_settings),
      )
    ]
