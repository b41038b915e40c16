-- ===== src/Oxctl.antt =====
-- crates/oxctl/src/main.rs, from the command line to a request, and the lines of a log that it shows.
use oxinit.Prelude.{
  ℕ, zero, suc, ◌-◌, ◌≡◌, ◌≤◌, Bool, Option, none, some, List, [], ◌∷◌, ◌++◌, length, drop,
  if◌then◌else◌, ◌||◌, min, arith, refl, ap, ◌∙◌,
}
use oxinit.Text.{Text, codes, str_eq, parse_unsigned}
use oxinit.Time.{u64_max}
use oxinit.Control.{
  Request, list_units, status_unit, start_unit, stop_unit, restart_unit, reload_files,
}

-- A request of oxctl, or what it does instead.
pub data Command : Type 0 where
  version usage : Command
  ask : (request : Request) → Command
  logs : (unit : Text) (tail : Option ℕ) → Command
  needs_unit unknown_command : (command : Text) → Command

unfoldable pub get_argument : ℕ → List Text → Option Text
get_argument n [] = none
get_argument zero (a ∷ as') = some a
get_argument (suc n) (a ∷ as') = get_argument n as'

unfoldable pub position : (Text → Bool) → List Text → Option ℕ
position p [] = none
position p (a ∷ as') =
    if p a then some 0 else elim (position p as') [ none ↦ none | some n ↦ some (suc n) ]

-- `-n N`, if given; `usize` is 64 bits wide.
unfoldable pub tail : List Text → Option ℕ
unfolding position get_argument
tail args = elim (position (λ a. str_eq a (codes "-n")) args) [
  | none ↦ none
  | some at ↦ elim (get_argument (suc at) args) [
    | none ↦ none
    | some value ↦ parse_unsigned u64_max value
  ]
]

-- The arms that need a unit.
abbrev with_unit : Text → (Text → Command) → Option Text → Command
with_unit command f none = needs_unit command
with_unit command f (some unit) = f unit

abbrev status_of : Option Text → Command
status_of none = ask list_units
status_of (some unit) = ask (status_unit unit)

unfoldable pub read_command : List Text → Text → Option Text → Command
unfolding tail
read_command args command unit =
    if str_eq command (codes "list")
    then ask list_units
    else (if str_eq command (codes "status")
        then status_of unit
        else (if str_eq command (codes "reload")
            then ask reload_files
            else (if str_eq command (codes "logs")
                then with_unit command (λ u. logs u (tail args)) unit
                else (if str_eq command (codes "start")
                    then with_unit command (λ u. ask (start_unit u)) unit
                    else (if str_eq command (codes "stop")
                        then with_unit command (λ u. ask (stop_unit u)) unit
                        else (if str_eq command (codes "restart")
                            then with_unit command (λ u. ask (restart_unit u)) unit
                            else (if str_eq command (codes "--version")
                                  || str_eq command (codes "-V")
                                then version
                                else (if str_eq command []
                                      || str_eq command (codes "help")
                                      || str_eq command (codes "--help")
                                      || str_eq command (codes "-h")
                                    then usage
                                    else unknown_command command))))))))

abbrev first_argument : List Text → Text
first_argument [] = []
first_argument (a ∷ as') = a

unfoldable pub run : List Text → Command
unfolding read_command get_argument
run args = read_command args (first_argument args) (get_argument 1 args)

-- The lines of a log that are printed; with no number, all of them.
unfoldable pub shown : Option ℕ → List Text → List Text
shown none ls = ls
shown (some n) ls = drop (length ls - n) ls

drop-split {ℓ} :
    {A : Type ℓ} (n : ℕ) (xs : List A)
    → n ≤ length xs
    → (front : List A) × (xs ≡ front ++ drop n xs) × (length (drop n xs) ≡ length xs - n)
drop-split zero xs h = ([], refl, omega arith)
drop-split (suc n) [] h = absurd (omega arith)
drop-split (suc n) (x ∷ xs) h =
    let (front, same, left) = drop-split n xs (omega arith) in
    (x ∷ front, ap (λ l. x ∷ l) same, omega (arith, left))

-- The last lines of a log, as many as are asked for, or all of them where there are fewer.
pub shown-last :
    (n : ℕ) (ls : List Text)
    → (front : List Text) × (ls ≡ front ++ shown (some n) ls)
      × (length (shown (some n) ls) ≡ min n (length ls))
unfolding shown
shown-last n ls =
    let (front, same, left) = drop-split (length ls - n) ls (omega arith) in
    (front, same, left ∙ omega arith)
