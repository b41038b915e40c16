-- ===== src/Shipper/Rotating.antt =====
-- What the plan of crates/oxinit-log/src/lib.rs does to the files when crates/oxlogd/src/main.rs runs it.
use oxinit.Prelude.{
  ℕ, zero, suc, ◌+◌, ◌≡◌, ◌≤◌, ◌<◌, refl, sym, subst, ap, ◌∙◌, inl, inr, false, none, some, List,
  [], ◌∷◌, ◌++◌, arith, ◌==◌, if◌then◌else◌, append_assoc, Option-cases, Bool-cases,
}
use oxinit.Text.{Text, codes, str_eq, str_eq_iff, str_eq_refl, parse_unsigned}
use oxinit.Text.Decimal.{print_unsigned, parse-print_unsigned}
use oxinit.Text.Paths.{join, is_absolute, join_injective, append_cancel}
use oxinit.Table.{lookup, remove, lookup-insert, lookup-remove}
use oxinit.Log.{path, generation, Rotation, Move, remove_file, rename, plan, shifts}
use oxinit.Shipper.{Files, rename_file, do_moves, rotate}

-- The live file, and behind it the generations.
abbrev pub numbered : Text → Text → ℕ → Text
numbered dir unit zero = path dir unit
numbered dir unit (suc n) = generation dir unit (suc n)

print_injective : (m n : ℕ) → print_unsigned m ≡ print_unsigned n → m ≡ n
print_injective m n h =
    let here = parse-print_unsigned (m + n) m (omega arith) in
    let there = parse-print_unsigned (m + n) n (omega arith) in
    let same : some m ≡ some n = sym here ∙ ap (parse_unsigned (m + n)) h ∙ there in ground arith

-- What stands behind the unit's name.
abbrev ending : ℕ → Text
ending zero = codes ".log"
ending (suc n) = codes ".log." ++ print_unsigned (suc n)

ending_injective : (m n : ℕ) → ending m ≡ ending n → m ≡ n
ending_injective zero zero h = refl
ending_injective zero (suc n) h = absurd (ground arith)
ending_injective (suc m) zero h = absurd (ground arith)
ending_injective (suc m) (suc n) h =
    print_injective (suc m) (suc n)
      (append_cancel (codes ".log.") (print_unsigned (suc m)) (print_unsigned (suc n)) h)

numbered-ending : (dir unit : Text) (n : ℕ) → numbered dir unit n ≡ join dir (unit ++ ending n)
numbered-ending dir unit zero = refl
numbered-ending dir unit (suc n) =
    ap (join dir) (append_assoc unit (codes ".log.") (print_unsigned (suc n)))

is_absolute-ending :
    (unit : Text) (m n : ℕ) → is_absolute (unit ++ ending m) ≡ is_absolute (unit ++ ending n)
unfolding is_absolute
is_absolute-ending [] zero zero = refl
is_absolute-ending [] zero (suc n) = refl
is_absolute-ending [] (suc m) zero = refl
is_absolute-ending [] (suc m) (suc n) = refl
is_absolute-ending (c ∷ cs) m n = refl

numbered_injective : (dir unit : Text) (m n : ℕ) → numbered dir unit m ≡ numbered dir unit n → m ≡ n
numbered_injective dir unit m n h = ending_injective m n (
    append_cancel unit (ending m) (ending n) (
      join_injective dir (unit ++ ending m) (unit ++ ending n) (is_absolute-ending unit m n)
        (sym (numbered-ending dir unit m) ∙ h ∙ numbered-ending dir unit n)))

pub str_eq-numbered :
    (dir unit : Text) (m n : ℕ) → str_eq (numbered dir unit m) (numbered dir unit n) ≡ (m == n)
str_eq-numbered dir unit m n = elim (Bool-cases (m == n)) [
  | inl e ↦
      let same : m ≡ n = ground arith in
      subst (λ k. str_eq (numbered dir unit m) (numbered dir unit k) ≡ (m == k)) same
        (ground (arith, str_eq_refl (numbered dir unit m)))
  | inr e ↦ ground (
    arith,
    str_eq_iff (numbered dir unit m) (numbered dir unit n),
    numbered_injective dir unit m n,
  )
]

lookup-rename_file :
    (from to p : Text) (files : Files)
    → str_eq from to ≡ false
    → lookup to files ≡ none
    → lookup p (rename_file from to files) ≡ (
        if str_eq to p then lookup from files else (if str_eq from p then none else lookup p files))
unfolding rename_file
lookup-rename_file from to p files apart free =
    let at_to = str_eq_iff to p in
    let at_from = str_eq_iff from p in
    elim (Option-cases (lookup from files)) [
      | inl e ↦ ground arith
      | inr (content, e) ↦
          ground (arith, lookup-insert to p content (remove from files), lookup-remove from p files)
    ]

-- The renames of a rotation, from the highest number down.
steps : Text → Text → ℕ → List Move
steps dir unit zero = []
steps dir unit (suc n) = rename (numbered dir unit n) (numbered dir unit (suc n)) ∷ steps dir unit n

steps-shifts :
    (dir unit : Text) (k : ℕ)
    → shifts dir unit k ++ rename (path dir unit) (generation dir unit 1) ∷ []
      ≡ steps dir unit (suc k)
unfolding shifts steps
steps-shifts dir unit zero = refl
steps-shifts dir unit (suc k) =
    ap (λ ms. rename (generation dir unit (suc k)) (generation dir unit (suc (suc k))) ∷ ms)
      (steps-shifts dir unit k)

-- Every file has moved up by one number, below the bound, and no other file has changed.
pub record Shifted (dir unit : Text) (n : ℕ) (before after : Files) : Type 0 where
  pub live_gone : lookup (numbered dir unit 0) after ≡ none
  pub moved :
      (i : ℕ)
      → i < n
      → lookup (numbered dir unit (suc i)) after ≡ lookup (numbered dir unit i) before
  pub others :
      (p : Text)
      → ((i : ℕ) → i ≤ n → str_eq (numbered dir unit i) p ≡ false)
      → lookup p after ≡ lookup p before

steps-Shifted :
    (dir unit : Text) (n : ℕ) (files : Files)
    → lookup (numbered dir unit n) files ≡ none
    → Shifted dir unit n files (do_moves (steps dir unit n) files)
unfolding do_moves steps
steps-Shifted dir unit zero files free = record {
  live_gone = free;
  moved = λ i lt. ground arith;
  others = λ p away. refl;
}
steps-Shifted dir unit (suc n) files free =
    let from = numbered dir unit n in
    let to = numbered dir unit (suc n) in
    let renamed = rename_file from to files in
    let effect : (p : Text)
        → lookup p renamed ≡ (
            if str_eq to p
            then lookup from files
            else (if str_eq from p then none else lookup p files)) =
      λ p.
        lookup-rename_file from to p files (str_eq-numbered dir unit n (suc n) ∙ ground arith)
          free in
    let rest =
      steps-Shifted dir unit n renamed
        (ground (arith, effect from, str_eq-numbered dir unit (suc n) n, str_eq_refl from)) in
    record {
      live_gone = rest.live_gone;
      moved = λ i lt. elim (Bool-cases (i == n)) [
        | inl e ↦
            let same : n ≡ i = ground arith in
            let arrived : lookup to (do_moves (steps dir unit n) renamed) ≡ lookup from files =
              rest.others to (λ j le. str_eq-numbered dir unit j (suc n) ∙ ground arith)
              ∙ ground (arith, effect to, str_eq_refl to) in
            subst
              (λ j.
                lookup (numbered dir unit (suc j)) (do_moves (steps dir unit n) renamed)
                ≡ lookup (numbered dir unit j) files)
              same arrived
        | inr e ↦ ground (
          arith,
          rest.moved i,
          effect (numbered dir unit i),
          str_eq-numbered dir unit (suc n) i,
          str_eq-numbered dir unit n i,
        )
      ];
      others = λ p away. ground (
        arith,
        rest.others p (λ i le. away i (omega arith)),
        effect p,
        away n (omega arith),
        away (suc n) (omega arith),
      );
    }

rotate-kept :
    (dir unit : Text) (k : ℕ) (files : Files)
    → Shifted dir unit (suc k) files (
        do_moves
          (remove_file (generation dir unit (suc k)) ∷ shifts dir unit k
            ++ rename (path dir unit) (generation dir unit 1) ∷ [])
          files)
unfolding do_moves
rotate-kept dir unit k files =
    let oldest = numbered dir unit (suc k) in
    let fewer = remove oldest files in
    let gone : (p : Text) → lookup p fewer ≡ (if str_eq oldest p then none else lookup p files) =
      λ p. lookup-remove oldest p files in
    let all =
      steps-Shifted dir unit (suc k) fewer (ground (arith, gone oldest, str_eq_refl oldest)) in
    subst (λ moves. Shifted dir unit (suc k) files (do_moves moves fewer))
      (sym (steps-shifts dir unit k))
      (record {
        live_gone = all.live_gone;
        moved = λ i lt.
            ground
              (arith, all.moved i, gone (numbered dir unit i), str_eq-numbered dir unit (suc k) i);
        others = λ p away. ground (arith, all.others p away, gone p, away (suc k) (omega arith));
      })

rotate_from :
    (dir unit : Text) (r : Rotation) (keep : ℕ) (files : Files)
    → r.keep ≡ keep
    → Shifted dir unit keep files (rotate dir r unit files)
unfolding rotate do_moves plan
rotate_from dir unit r zero files e =
    rw (e, rotate, plan)
      (record {
        live_gone = ground (
          arith,
          lookup-remove (path dir unit) (path dir unit) files,
          str_eq_refl (path dir unit),
        );
        moved = λ i lt. ground arith;
        others =
            λ p away. ground (arith, lookup-remove (path dir unit) p files, away 0 (omega arith));
      })
rotate_from dir unit r (suc k) files e = rw (e, rotate, plan) (rotate-kept dir unit k files)

-- A rotation empties the place of the live file; the live file and every kept generation but the
-- oldest move up by one, with what they held; and no other file of the directory changes.
pub rotate-Shifted :
    (dir unit : Text) (r : Rotation) (files : Files)
    → Shifted dir unit r.keep files (rotate dir r unit files)
rotate-Shifted dir unit r files = rotate_from dir unit r r.keep files refl
