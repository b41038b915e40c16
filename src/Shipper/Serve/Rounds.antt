-- ===== src/Shipper/Serve/Rounds.antt =====
-- What a round of the loop of crates/oxlogd/src/main.rs does to the sources.
use oxinit.Prelude.{
  ℕ, suc, ◌≡◌, refl, sym, ap, ◌∙◌, Bool, true, false, Option, none, some, List, [], ◌∷◌, ◌++◌,
  reverse, length, length-append, append_assoc, arith, ltb, if◌then◌else◌, Bool-cases, inl, inr,
}
use mathlib.Core.List.{reverse-cons}
use oxinit.Text.{Text}
use oxinit.Log.{push, flush}
use oxinit.Shipper.Serve.{
  Source, Read, end_of_file, interrupted, broken, chunk, is_ready, remove_at, remove_each,
  write_each, write_last, drain, drain_ready, drain_sources, note_closed,
}

remove_at-append {ℓ} :
    {A : Type ℓ} (xs ys : List A) (x : A) → remove_at (length xs) (xs ++ x ∷ ys) ≡ xs ++ ys
unfolding remove_at
remove_at-append [] ys x = refl
remove_at-append (z ∷ xs) ys x = ap (λ l. z ∷ l) (remove_at-append xs ys x)

remove_each-append {ℓ} :
    {A : Type ℓ} (ms ns : List ℕ) (xs : List A)
    → remove_each (ms ++ ns) xs ≡ remove_each ns (remove_each ms xs)
unfolding remove_each
remove_each-append [] ns xs = refl
remove_each-append (m ∷ ms) ns xs =
    remove_each-append ms ns (if ltb m (length xs) then remove_at m xs else xs)

remove_one {ℓ} :
    {A : Type ℓ} (xs ys : List A) (x : A) (n : ℕ)
    → length xs ≡ n
    → remove_each (n ∷ []) (xs ++ x ∷ ys) ≡ xs ++ ys
unfolding remove_each
remove_one xs ys x n e = ground (arith, length-append xs (x ∷ ys), remove_at-append xs ys x)

moved {ℓ} :
    {A : Type ℓ} (xs : List A) (x : A) (ys : List A) (places : List ℕ) (zs : List A)
    → remove_each (reverse places) ((xs ++ x ∷ []) ++ ys) ≡ (xs ++ x ∷ []) ++ zs
    → remove_each (reverse places) (xs ++ x ∷ ys) ≡ xs ++ x ∷ zs
moved xs x ys places zs h =
    ap (remove_each (reverse places)) (sym (append_assoc xs (x ∷ []) ys))
    ∙ h
    ∙ append_assoc xs (x ∷ []) zs

-- A source behind a read of it, if it is still there.
abbrev read_from : Source → Read → Option Source
read_from s end_of_file = none
read_from s interrupted = some s
read_from s broken = none
read_from s (chunk bytes) = some (record s { splitter = (push s.splitter bytes).partial })

abbrev add_some : Option Source → List Source → List Source
add_some none ss = ss
add_some (some s) ss = s ∷ ss

-- Each source behind the round that finds these ready, from a place on.
abbrev pub staying : List Bool → (ℕ → Read) → ℕ → List Source → List Source
staying flags reads index [] = []
staying flags reads index (s ∷ ss) =
    add_some (if is_ready (suc index) flags then read_from s (reads s.fd) else some s)
      (staying flags reads (suc index) ss)

-- The records that a read of a source makes, each with its unit: the lines that it completes, and at the
-- end what is left.
abbrev tagged : Text → List (List ℕ) → List (Text × List ℕ)
tagged unit [] = []
tagged unit (line ∷ lines) = (unit, line) ∷ tagged unit lines

abbrev records_of : Source → Read → List (Text × List ℕ)
records_of s end_of_file = elim s.splitter [ [] ↦ [] | c ∷ cs ↦ (s.unit, c ∷ cs) ∷ [] ]
records_of s interrupted = []
records_of s broken = []
records_of s (chunk bytes) = tagged s.unit (push s.splitter bytes).emitted

abbrev records_at : List Bool → (ℕ → Read) → ℕ → Source → List (Text × List ℕ)
records_at flags reads index s =
    if is_ready (suc index) flags then records_of s (reads s.fd) else []

-- The records of all the sources, in their order.
abbrev pub records_in : List Bool → (ℕ → Read) → ℕ → List Source → List (Text × List ℕ)
records_in flags reads index [] = []
records_in flags reads index (s ∷ ss) =
    records_at flags reads index s ++ records_in flags reads (suc index) ss

module _ {ℓ} {W : Type ℓ} (write : Text → List ℕ → W → W) where
  -- Every record, written once.
  abbrev pub written : List (Text × List ℕ) → W → W
  written [] w = w
  written ((unit, line) ∷ rs) w = written rs (write unit line w)

  written-append :
      (rs ts : List (Text × List ℕ)) (w : W) → written (rs ++ ts) w ≡ written ts (written rs w)
  written-append [] ts w = refl
  written-append ((unit, line) ∷ rs) ts w = written-append rs ts (write unit line w)

  write_each-tagged :
      (unit : Text) (lines : List (List ℕ)) (w : W)
      → write_each write unit lines w ≡ written (tagged unit lines) w
  unfolding write_each
  write_each-tagged unit [] w = refl
  write_each-tagged unit (line ∷ lines) w = write_each-tagged unit lines (write unit line w)

module _ {ℓ} {W : Type ℓ} (write : Text → List ℕ → W → W) (flags : List Bool)
    (reads : ℕ → Read) where
  abbrev one : ℕ → Source → W → Source × W × Bool
  one n s w = if is_ready (suc n) flags then drain write s (reads s.fd) w else (s, w, true)

  abbrev kept : Source × W × Bool → Option Source
  kept (s, w, true) = some s
  kept (s, w, false) = none

  drain-read_from :
      (s : Source) (r : Read) (w : W)
      → (kept (drain write s r w) ≡ read_from s r)
        × ((drain write s r w).1 ≡ written write (records_of s r) w)
  unfolding drain flush
  drain-read_from s end_of_file w = (refl, last s.splitter)
    where
      last :
          (left : List ℕ)
          → write_last write s.unit (flush left) w
            ≡ written write (elim left [ [] ↦ [] | c ∷ cs ↦ (s.unit, c ∷ cs) ∷ [] ]) w
      last [] = refl
      last (c ∷ cs) = refl
  drain-read_from s interrupted w = (refl, refl)
  drain-read_from s broken w = (refl, refl)
  drain-read_from s (chunk bytes) w =
      (refl, write_each-tagged write s.unit (push s.splitter bytes).emitted w)

  one-read_from :
      (n : ℕ) (s : Source) (w : W)
      → (kept (one n s w) ≡ (if is_ready (suc n) flags then read_from s (reads s.fd) else some s))
        × ((one n s w).1 ≡ written write (records_at flags reads n s) w)
  one-read_from n s w = elim (Bool-cases (is_ready (suc n) flags)) [
    | inl e ↦ rw e (drain-read_from s (reads s.fd) w)
    | inr e ↦ rw e (refl, refl)
  ]

  -- Removing the places that were noted, the last first, leaves those of the sources that stay.
  removed :
      (front ss : List Source) (n : ℕ) (w : W)
      → length front ≡ n
      → (let (sources, gone, w') = drain_ready write flags reads n ss w in
          (remove_each (reverse gone) (front ++ sources) ≡ front ++ staying flags reads n ss)
          × (w' ≡ written write (records_in flags reads n ss) w))
  unfolding drain_ready remove_each
  removed front [] n w e = (refl, refl)
  removed front (s ∷ ss) n w e =
      behind (one n s w) (one-read_from n s w).0 (one-read_from n s w).1 (
        removed (front ++ (one n s w).0 ∷ []) ss (suc n) (one n s w).1
          (omega (arith, length-append front ((one n s w).0 ∷ []))))
    where
      behind :
          (r : Source × W × Bool)
          → kept r ≡ (if is_ready (suc n) flags then read_from s (reads s.fd) else some s)
          → r.1 ≡ written write (records_at flags reads n s) w
          → (let (sources, gone, w') = drain_ready write flags reads (suc n) ss r.1 in
              (remove_each (reverse gone) ((front ++ r.0 ∷ []) ++ sources)
                ≡ (front ++ r.0 ∷ []) ++ staying flags reads (suc n) ss)
              × (w' ≡ written write (records_in flags reads (suc n) ss) r.1))
          → (let (sources, gone, w') = drain_ready write flags reads (suc n) ss r.1 in
              (remove_each (reverse (note_closed r.2 n gone)) (front ++ r.0 ∷ sources)
                ≡ front ++ staying flags reads n (s ∷ ss))
              × (w' ≡ written write (records_in flags reads n (s ∷ ss)) w))
      behind (s', w', true) k l (ih, il) =
          let (sources, gone, _) = drain_ready write flags reads (suc n) ss w' in
          (
            moved front s' sources gone (staying flags reads (suc n) ss) ih
                ∙ ap (λ o. front ++ add_some o (staying flags reads (suc n) ss)) k,
            il
                ∙ ap (written write (records_in flags reads (suc n) ss)) l
                ∙ sym (
                    written-append write (records_at flags reads n s)
                      (records_in flags reads (suc n) ss) w),
          )
      behind (s', w', false) k l (ih, il) =
          let (sources, gone, _) = drain_ready write flags reads (suc n) ss w' in
          let stay = staying flags reads (suc n) ss in
          (
            ap (λ places. remove_each places (front ++ s' ∷ sources)) (reverse-cons n gone)
                ∙ remove_each-append (reverse gone) (n ∷ []) (front ++ s' ∷ sources)
                ∙ ap (remove_each (n ∷ [])) (moved front s' sources gone stay ih)
                ∙ remove_one front stay s' n e
                ∙ ap (λ o. front ++ add_some o stay) k,
            il
                ∙ ap (written write (records_in flags reads (suc n) ss)) l
                ∙ sym (
                    written-append write (records_at flags reads n s)
                      (records_in flags reads (suc n) ss) w),
          )

-- After a round of reading, the sources are those that stay, each behind its own read, in their order,
-- and each record of these reads was written, once and in the same order: the lines that a read
-- completes, and at the end of a pipe the line that was left. A source that was not ready is as it was.
pub drain_sources-staying {ℓ} :
    {W : Type ℓ} (write : Text → List ℕ → W → W) (flags : List Bool) (reads : ℕ → Read)
    (ss : List Source) (w : W)
    → drain_sources write flags reads ss w
      ≡ (staying flags reads 0 ss, written write (records_in flags reads 0 ss) w)
unfolding drain_sources
drain_sources-staying write flags reads ss w =
    let (a, b) = removed write flags reads [] ss 0 w refl in ground arith
