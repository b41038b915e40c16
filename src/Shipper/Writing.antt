-- ===== src/Shipper/Writing.antt =====
-- What crates/oxlogd/src/main.rs keeps of a unit's records while it writes them.
use oxinit.Prelude.{
  ℕ, ◌+◌, ◌≡◌, ◌≤◌, ◌<◌, refl, sym, subst, ap, ◌∙◌, ◌⊎◌, inl, inr, Bool, true, false, some, List,
  [], ◌∷◌, ◌++◌, arith, length, length-append, Option-cases, Bool-cases,
}
use oxinit.Text.{Text, str_eq, str_eq_refl}
use oxinit.Time.{u64_max, saturating_add64}
use oxinit.Table.{lookup, insert, remove, lookup-insert, lookup-remove}
use oxinit.Log.{path, generation, Timestamp, record_of, Rotation, should_rotate}
use oxinit.Shipper.{
  Shipper, content_of, open_file, open_sink, make_room, write_to, write_sized, write, rotate,
}
use oxinit.Shipper.Rotating.{rotate-Shifted, str_eq-numbered}

-- What a unit's live file holds; nothing where it is not there.
abbrev pub live : Text → Text → Shipper → List ℕ
live dir unit s = content_of (lookup (path dir unit) s.files)

-- The file of a unit that is open is there, and has the size that it is taken to have.
abbrev pub Agrees : Text → Text → Shipper → Type 0
Agrees dir unit s =
    (n : ℕ)
    → lookup unit s.sinks ≡ some n
    → (lookup (path dir unit) s.files ≡ some (live dir unit s)) × (n ≡ length (live dir unit s))

-- How a record is kept: behind the others, where the file stays within its bound or was empty, or
-- at the beginning of a new file, where the one before it has become the first generation.
abbrev pub Kept : Text → Text → Rotation → List ℕ → Shipper → Shipper → Type 0
Kept dir unit r bytes s t =
    ((live dir unit t ≡ live dir unit s ++ bytes)
      × ((live dir unit s ≡ []) ⊎ (length (live dir unit t) ≤ r.max_size)))
    ⊎ ((live dir unit t ≡ bytes)
        × (r.max_size < length (live dir unit s) + length bytes)
        × (0 < r.keep → lookup (generation dir unit 1) t.files ≡ some (live dir unit s)))

stays_small :
    (r : Rotation) (content bytes : List ℕ)
    → length content + length bytes ≤ u64_max
    → should_rotate r (length content) (length bytes) ≡ false
    → (content ≡ []) ⊎ (length (content ++ bytes) ≤ r.max_size)
unfolding should_rotate
stays_small r [] bytes fits stays = inl refl
stays_small r (b ∷ content) bytes fits stays = inr (ground (arith, length-append content bytes))

module _ (opens : Text → Bool) (write_all : List ℕ → List ℕ → List ℕ × Bool) (dir unit : Text)
    (can_open : opens (path dir unit) ≡ true)
    (appends : (old bytes : List ℕ) → write_all old bytes ≡ (old ++ bytes, true)) where
  -- The state behind `open`.
  record Opened (s t : Shipper) : Type 0 where
    pub opened : open_sink opens write_all dir unit s ≡ (t, some (length (live dir unit s)))
    pub held : lookup (path dir unit) t.files ≡ some (live dir unit s)
    pub sized : lookup unit t.sinks ≡ some (length (live dir unit s))
    pub others : (p : Text) → str_eq (path dir unit) p ≡ false → lookup p t.files ≡ lookup p s.files

  open_sink-Opened : (s : Shipper) → Agrees dir unit s → (t : Shipper) × Opened s t
  unfolding open_sink open_file
  open_sink-Opened s a = elim (Option-cases (lookup unit s.sinks)) [
    | inr (n, e) ↦ (
      s,
      record {
        opened = ground (arith, a n e);
        held = (a n e).0;
        sized = ground (arith, a n e);
        others = λ p away. refl;
      },
    )
    | inl e ↦ (
      record {
        files = open_file (path dir unit) s.files;
        sinks = insert unit (length (live dir unit s)) s.sinks;
      },
      record {
        opened = ground arith;
        held = ground (
          arith,
          lookup-insert (path dir unit) (path dir unit) (live dir unit s) s.files,
          str_eq_refl (path dir unit),
        );
        sized =
            ground
              (arith, lookup-insert unit unit (length (live dir unit s)) s.sinks, str_eq_refl unit);
        others =
            λ p away. ground (arith, lookup-insert (path dir unit) p (live dir unit s) s.files);
      },
    )
  ]

  -- The record stands behind what the file held.
  record Appended (bytes : List ℕ) (s t : Shipper) : Type 0 where
    pub grown : live dir unit t ≡ live dir unit s ++ bytes
    pub agrees : Agrees dir unit t
    pub kept : (p : Text) → str_eq (path dir unit) p ≡ false → lookup p t.files ≡ lookup p s.files

  write_to-Appended :
      (bytes : List ℕ) (s : Shipper)
      → length (live dir unit s) + length bytes ≤ u64_max
      → Appended bytes s
          (write_to opens write_all dir unit bytes (s, some (length (live dir unit s))))
  unfolding write_to
  write_to-Appended bytes s fits =
      let old = live dir unit s in
      let after : Shipper = record {
        files = insert (path dir unit) (old ++ bytes) s.files;
        sinks = insert unit (saturating_add64 (length old) (length bytes)) s.sinks;
      } in
      let at_file = λ (p : Text). lookup-insert (path dir unit) p (old ++ bytes) s.files in
      let at_sink =
        lookup-insert unit unit (saturating_add64 (length old) (length bytes)) s.sinks in
      let holds : lookup (path dir unit) after.files ≡ some (old ++ bytes) =
        ground (arith, at_file (path dir unit), str_eq_refl (path dir unit)) in
      let same : after ≡ write_to opens write_all dir unit bytes (s, some (length old)) =
        ground (arith, appends old bytes) in
      subst (Appended bytes s) same (record {
        grown = ap content_of holds;
        agrees = λ n e. (
          ground (arith, holds),
          ground (arith, holds, at_sink, str_eq_refl unit, length-append old bytes),
        );
        kept = λ p away. ground (arith, at_file p);
      })

  -- Once open, a file is opened at once.
  Opened-again : (s t : Shipper) → Opened s t → Opened t t
  unfolding open_sink
  Opened-again s t o =
      let held = o.held in
      let sized = o.sized in
      let same : live dir unit t ≡ live dir unit s = ap content_of held in
      record {
        opened = ground arith;
        held = ground arith;
        sized = ground arith;
        others = λ p away. refl;
      }

  write-Opened :
      (r : Rotation) (bytes : List ℕ) (s t : Shipper)
      → Opened s t
      → write_sized opens write_all dir r unit bytes (open_sink opens write_all dir unit s)
        ≡ write_to opens write_all dir unit bytes (
            open_sink opens write_all dir unit
              (make_room opens write_all dir r unit (length (live dir unit s)) (length bytes) t))
  unfolding write_sized
  write-Opened r bytes s t o = ground (arith, o.opened)

  -- In the file that is open.
  in_place :
      (r : Rotation) (bytes : List ℕ) (s t : Shipper)
      → Opened s t
      → length (live dir unit s) + length bytes ≤ u64_max
      → should_rotate r (length (live dir unit s)) (length bytes) ≡ false
      → (let u = write_to opens write_all dir unit bytes (
            open_sink opens write_all dir unit
              (make_room opens write_all dir r unit (length (live dir unit s)) (length bytes) t)) in
          Agrees dir unit u × Kept dir unit r bytes s u)
  unfolding make_room should_rotate
  in_place r bytes s t o fits stays =
      let same : live dir unit t ≡ live dir unit s = ap content_of o.held in
      let again = Opened-again s t o in
      let result = write_to-Appended bytes t (ground arith) in
      let there : write_to opens write_all dir unit bytes (t, some (length (live dir unit t)))
          ≡ write_to opens write_all dir unit bytes (
              open_sink opens write_all dir unit (
                make_room opens write_all dir r unit (length (live dir unit s)) (length bytes) t)) =
        ground (arith, again.opened) in
      subst (λ u. Agrees dir unit u × Kept dir unit r bytes s u) there
        (
          result.agrees,
          let grown : live dir unit
                    (write_to opens write_all dir unit bytes (t, some (length (live dir unit t))))
                  ≡ live dir unit s ++ bytes =
                result.grown ∙ ap (λ xs. xs ++ bytes) same in
              inl (
                grown,
                subst (λ xs. (live dir unit s ≡ []) ⊎ (length xs ≤ r.max_size)) (sym grown)
                    (stays_small r (live dir unit s) bytes fits stays),
              ),
        )

  -- What a rotation leaves of the state.
  abbrev rotated : Rotation → Shipper → Shipper
  rotated r t = record { files = rotate dir r unit t.files; sinks = remove unit t.sinks }

  rotated-Agrees : (r : Rotation) (t : Shipper) → Agrees dir unit (rotated r t)
  rotated-Agrees r t n e =
      absurd (ground (arith, lookup-remove unit unit t.sinks, str_eq_refl unit))

  -- In a new file.
  in_new_file :
      (r : Rotation) (bytes : List ℕ) (s t fresh : Shipper)
      → Opened s t
      → Opened (rotated r t) fresh
      → length (live dir unit s) + length bytes ≤ u64_max
      → should_rotate r (length (live dir unit s)) (length bytes) ≡ true
      → (let u = write_to opens write_all dir unit bytes (
            open_sink opens write_all dir unit
              (make_room opens write_all dir r unit (length (live dir unit s)) (length bytes) t)) in
          Agrees dir unit u × Kept dir unit r bytes s u)
  unfolding make_room should_rotate
  in_new_file r bytes s t fresh o f fits moves =
      let shifted = rotate-Shifted dir unit r t.files in
      let nothing : live dir unit (rotated r t) ≡ [] = ap content_of shifted.live_gone in
      let nothing' : live dir unit fresh ≡ [] = ap content_of f.held ∙ nothing in
      let result = write_to-Appended bytes fresh (ground arith) in
      let room : make_room opens write_all dir r unit (length (live dir unit s)) (length bytes) t
          ≡ rotated r t =
        ground arith in
      let there : open_sink opens write_all dir unit (rotated r t)
          ≡ (fresh, some (length (live dir unit fresh))) =
        f.opened ∙ ap (λ l. (fresh, some (length l))) (nothing ∙ sym nothing') in
      subst (λ u. Agrees dir unit u × Kept dir unit r bytes s u)
        (sym (
          ap (λ x. write_to opens write_all dir unit bytes (open_sink opens write_all dir unit x))
            room
          ∙ ap (write_to opens write_all dir unit bytes) there))
        (
          result.agrees,
          inr (
            result.grown ∙ ap (λ xs. xs ++ bytes) nothing',
            ground arith,
            λ some_kept.
                result.kept (generation dir unit 1) (str_eq-numbered dir unit 0 1)
                ∙ f.others (generation dir unit 1) (str_eq-numbered dir unit 0 1)
                ∙ shifted.moved 0 some_kept
                ∙ o.held,
          ),
        )

  -- Where the unit's file can be opened and writes succeed, and the size fits a `u64`: a record that is
  -- written stands behind what the file held, which was nothing or stays within `max_size`; or it
  -- begins a new file, because it did not fit, and the old file is the first generation, if any is
  -- kept. The size that the open file is taken to have stays its size.
  pub write-Kept :
      (now : Timestamp) (r : Rotation) (line : List ℕ) (s : Shipper)
      → Agrees dir unit s
      → length (live dir unit s) + length (record_of now line) ≤ u64_max
      → Agrees dir unit (write opens write_all now dir r unit line s)
        × Kept dir unit r (record_of now line) s (write opens write_all now dir r unit line s)
  unfolding write
  write-Kept now r line s a fits =
      let bytes = record_of now line in
      let (t, o) = open_sink-Opened s a in
      let again = open_sink-Opened (rotated r t) (rotated-Agrees r t) in
      subst (λ u. Agrees dir unit u × Kept dir unit r bytes s u) (sym (write-Opened r bytes s t o))
        (elim (Bool-cases (should_rotate r (length (live dir unit s)) (length bytes))) [
          | inl moves ↦ in_new_file r bytes s t again.0 o again.1 fits moves
          | inr stays ↦ in_place r bytes s t o fits stays
        ])
