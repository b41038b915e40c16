-- ===== src/Cgroup/Contents.antt =====
-- What crates/oxinit-cgroup/src/lib.rs reads in the files of a cgroup, and the byte counts that it prints.
use oxinit.Prelude.{
  ℕ, ◌+◌, ◌*◌, ◌/◌, ◌%◌, ◌^◌, ◌≤◌, ◌<◌, ◌≡◌, refl, ap, ◌∙◌, Bool, true, not, Option, none, some,
  List, [], ◌∷◌, ◌++◌, map, arith, ok, leb, all, All, In, here, there, if◌then◌else◌, ◌⊎◌, inl, inr,
  Bool-cases, leb→le,
}
use oxinit.Text.{Text, codes, str_eq, is_digit}
use oxinit.Text.Chars.{trim, split_once, trim_start, is_whitespace}
use oxinit.Text.Cuts.{lacks, lacks-append}
use oxinit.Text.Decimal.{print_unsigned, parse-print_unsigned, print_unsigned-all_digits}
use oxinit.Text.Lines.{unlines, is_plain, lines-unlines, digits-is_plain}
use oxinit.Text.Pieces.{stops, digit-is_solid, trim_end-solid, trim_start-stops, digits-are_solid}
use oxinit.Time.{u32_max}
use oxinit.Cgroup.Calls.{Kernel, Op}
use oxinit.Cgroup.{
  parse_populated, find_populated, parse_pids, pids, procs, amount_in, units, print_bytes,
}

-- A file of a key and a value on each line.
abbrev line_of : Text × Text → Text
line_of (key, value) = key ++ b' ' ∷ value

abbrev pub write_keys : List (Text × Text) → Text
write_keys entries = unlines (map line_of entries)

abbrev pub IsEntry : Text × Text → Type 0
IsEntry (key, value) = (lacks b' ' key ≡ true) × (is_plain key ≡ true) × (is_plain value ≡ true)

abbrev pub value_of : Text → List (Text × Text) → Option Text
value_of key [] = none
value_of key ((k, value) ∷ rest) = if str_eq k key then some value else value_of key rest

abbrev is_not_zero : Option Text → Option Bool
is_not_zero none = none
is_not_zero (some value) = some (not (str_eq (trim value) (codes "0")))

split_once-cut :
    (c : ℕ) (key value : Text)
    → lacks c key ≡ true
    → split_once c (key ++ c ∷ value) ≡ some (key, value)
unfolding split_once
split_once-cut c [] value a = ground arith
split_once-cut c (k ∷ ks) value a = ground (arith, split_once-cut c ks value)

find_populated-keys :
    (entries : List (Text × Text))
    → All IsEntry entries
    → find_populated (map line_of entries) ≡ is_not_zero (value_of (codes "populated") entries)
unfolding find_populated
find_populated-keys [] a = refl
find_populated-keys ((key, value) ∷ rest) a =
    ground (arith, split_once-cut b' ' key value, find_populated-keys rest a.1)

plain-keys :
    (entries : List (Text × Text)) → All IsEntry entries → all is_plain (map line_of entries) ≡ true
plain-keys [] a = refl
plain-keys ((key, value) ∷ rest) a = ground (
  arith,
  lacks-append b'\n' key (b' ' ∷ value),
  lacks-append b'\r' key (b' ' ∷ value),
  plain-keys rest a.1,
)

-- A `cgroup.events` file with a key and a value on each line says that processes remain exactly if the
-- first value of the key `populated` is, but for white space around it, anything but `0`, and says
-- nothing where the key is missing. The other keys and their order do not matter.
pub parse_populated-keys :
    (entries : List (Text × Text))
    → All IsEntry entries
    → parse_populated (write_keys entries) ≡ is_not_zero (value_of (codes "populated") entries)
unfolding parse_populated
parse_populated-keys entries a =
    ap find_populated (lines-unlines (map line_of entries) (plain-keys entries a))
    ∙ find_populated-keys entries a

abbrev pub write_pids : List ℕ → Text
write_pids ns = unlines (map print_unsigned ns)

trim-digits : (n : ℕ) → trim (print_unsigned n) ≡ print_unsigned n
trim-digits n =
    let ds = print_unsigned-all_digits n in
    ap trim_start (trim_end-solid (print_unsigned n) (digits-are_solid (print_unsigned n) ds))
    ∙ trim_start-stops (print_unsigned n) (first (print_unsigned n) ds)
  where
    first : (t : Text) → all is_digit t ≡ true → stops is_whitespace t ≡ true
    first [] a = refl
    first (c ∷ cs) a = ground (arith, digit-is_solid c)

parse_pids-written :
    (ns : List ℕ) → All (λ n. n ≤ u32_max) ns → parse_pids (map print_unsigned ns) ≡ ns
unfolding parse_pids
parse_pids-written [] a = refl
parse_pids-written (n ∷ ns) a =
    ground (arith, trim-digits n, parse-print_unsigned u32_max n, parse_pids-written ns a.1)

plain-pids : (ns : List ℕ) → all is_plain (map print_unsigned ns) ≡ true
plain-pids [] = refl
plain-pids (n ∷ ns) =
    ground (arith, digits-is_plain (print_unsigned n) (print_unsigned-all_digits n), plain-pids ns)

-- Where the kernel lists process ids, each on a line of `cgroup.procs` and each a `u32`, exactly these
-- are read, in their order, and nothing is changed.
pub pids-written :
    (kernel : Kernel) (path : Text) (done : List Op) (ns : List ℕ)
    → All (λ n. n ≤ u32_max) ns
    → kernel.read_to_string done (procs path) ≡ ok (write_pids ns)
    → pids kernel path done ≡ (ok ns, done)
unfolding pids
pids-written kernel path done ns a h =
    ground (arith, lines-unlines (map print_unsigned ns) (plain-pids ns), parse_pids-written ns a)

-- The count in tenths of the scale, rounded down, with one decimal.
abbrev pub IsRounded : ℕ → ℕ → ℕ → ℕ → Type 0
IsRounded n scale whole tenths =
    (0 < whole)
    × (tenths < 10)
    × ((whole * 10 + tenths) * scale ≤ n * 10)
    × (n * 10 < (whole * 10 + tenths + 1) * scale)
    × ((whole < 1024) ⊎ (scale ≡ 2 ^ 30))

-- A byte count above zero is shown in one of the units, rounded down to one decimal, with a whole part
-- of at least one and, but in the greatest unit, less than 1024.
pub print_bytes-IsRounded :
    (n : ℕ)
    → 0 < n
    → (scale : ℕ) × (suffix : Text) × (whole tenths : ℕ) × In (scale, suffix) units
      × IsRounded n scale whole tenths
      × (print_bytes n ≡ print_unsigned whole ++ b'.' ∷ (print_unsigned tenths ++ suffix))
unfolding amount_in print_bytes
print_bytes-IsRounded n pos = elim (Bool-cases (leb (2 ^ 30) n)) [
  | inl at_least ↦ (
    2 ^ 30,
    codes "G",
    n / (2 ^ 30),
    n % (2 ^ 30) * 10 / (2 ^ 30),
    here,
    (omega (arith, leb→le (2 ^ 30) n at_least), omega arith, omega arith, omega arith, inr refl),
    ground arith,
  )
  | inr g ↦ elim (Bool-cases (leb (2 ^ 20) n)) [
    | inl at_least ↦ (
      2 ^ 20,
      codes "M",
      n / (2 ^ 20),
      n % (2 ^ 20) * 10 / (2 ^ 20),
      there here,
      (
        omega (arith, leb→le (2 ^ 20) n at_least),
        omega arith,
        omega arith,
        omega arith,
        inl (ground arith),
      ),
      ground arith,
    )
    | inr m ↦ elim (Bool-cases (leb (2 ^ 10) n)) [
      | inl at_least ↦ (
        2 ^ 10,
        codes "K",
        n / (2 ^ 10),
        n % (2 ^ 10) * 10 / (2 ^ 10),
        there (there here),
        (
          omega (arith, leb→le (2 ^ 10) n at_least),
          omega arith,
          omega arith,
          omega arith,
          inl (ground arith),
        ),
        ground arith,
      )
      | inr k ↦ (
        1,
        codes "B",
        n,
        0,
        there (there (there here)),
        (omega arith, omega arith, omega arith, omega arith, inl (ground arith)),
        ground arith,
      )
    ]
  ]
]
