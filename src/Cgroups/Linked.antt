-- ===== src/Cgroups/Linked.antt =====
-- The handles of crates/oxinit/src/cgroup.rs after any number of units were added.
use oxinit.Prelude.{
  ℕ, zero, suc, ◌≡◌, refl, subst, Bool, not, Option, some, List, [], ◌∷◌, ◌++◌, arith, all, All,
  find, ◌⊎◌, Bool-cases, ap, sym, ◌∙◌, length, Outcome, ok, err, Option-cases, inl, inr,
}
use oxinit.Text.{Text, str_eq, str_eq_iff}
use oxinit.Text.Paths.{join}
use oxinit.Cgroup.Calls.{Kernel, Op}
use oxinit.Cgroup.{create_dir, events, CgroupError}
use oxinit.Cgroups.{Handle, Cgroups, handle, unit_of, get, add, open_events}

-- No handle of the list is of this unit.
abbrev pub is_new : Text → List Handle → Bool
is_new name hs = all (λ h. not (str_eq h.unit name)) hs

handle-append_old :
    (id : ℕ) (hs : List Handle) (h g : Handle)
    → handle id hs ≡ some g
    → handle id (hs ++ h ∷ []) ≡ some g
unfolding handle
handle-append_old id [] h g e = ground arith
handle-append_old zero (x ∷ hs) h g e = e
handle-append_old (suc id) (x ∷ hs) h g e = handle-append_old id hs h g e

handle-append_new :
    (id : ℕ) (hs : List Handle) (h g : Handle)
    → handle id (hs ++ h ∷ []) ≡ some g
    → (handle id hs ≡ some g) ⊎ ((g ≡ h) × (id ≡ length hs))
unfolding handle
handle-append_new zero [] h g e = inr (ground arith, refl)
handle-append_new (suc id) [] h g e = ground arith
handle-append_new zero (x ∷ hs) h g e = inl e
handle-append_new (suc id) (x ∷ hs) h g e = elim (handle-append_new id hs h g e) [
  | inl old ↦ inl old
  | inr (f, k) ↦ inr (f, ground arith)
]

handle-length : (hs : List Handle) (h : Handle) → handle (length hs) (hs ++ h ∷ []) ≡ some h
unfolding handle
handle-length [] h = refl
handle-length (x ∷ hs) h = handle-length hs h

-- The first handle of a unit.
abbrev first_of : Text → List Handle → Option Handle
first_of name hs = find (λ h. str_eq h.unit name) hs

-- Every handle lies at the place of its unit, so that all handles of a unit have the same.
abbrev pub IsPlaced : (Text → Text) → List Handle → Type 0
IsPlaced place hs = All (λ h. h.cgroup ≡ place h.unit) hs

get-placed :
    (place : Text → Text) (hs : List Handle) (id : ℕ) (g : Handle)
    → IsPlaced place hs
    → handle id hs ≡ some g
    → (g.cgroup ≡ place g.unit)
      × ((f : Handle) × (first_of g.unit hs ≡ some f) × (f.cgroup ≡ place g.unit))
unfolding handle
get-placed place [] id g p e = absurd (ground arith)
get-placed place (x ∷ hs) zero g p e =
    let same : x ≡ g = ground arith in
    (
      subst (λ h. h.cgroup ≡ place h.unit) same p.0,
      (x, ground (arith, str_eq_iff x.unit g.unit), ground arith),
    )
get-placed place (x ∷ hs) (suc id) g p e =
    let (a, (f, b, c)) = get-placed place hs id g p.1 e in
    elim (Bool-cases (str_eq x.unit g.unit)) [
      | inl same ↦ (a, (x, ground arith, p.0 ∙ ap place ((str_eq_iff x.unit g.unit).0 same)))
      | inr differ ↦ (a, (f, ground arith, c))
    ]

IsPlaced-append :
    (place : Text → Text) (hs : List Handle) (h : Handle)
    → IsPlaced place hs
    → h.cgroup ≡ place h.unit
    → IsPlaced place (hs ++ h ∷ [])
IsPlaced-append place [] h p e = (e, tt)
IsPlaced-append place (x ∷ hs) h p e = (p.0, IsPlaced-append place hs h p.1 e)

abbrev pub empty_slice : Text → Cgroups
empty_slice slice = record { hierarchy = some slice; handles = [] }

module _ (kernel : Kernel) (open_read : List Op → Text → Option ℕ) (full : Text → Text) where
  -- The loop over the services, whose full names are these.
  unfoldable pub add_all : List Text → Cgroups → List Op → Cgroups × List Op
  add_all [] s done = (s, done)
  add_all (name ∷ names) s done =
      let ((s', _), done') = add kernel open_read name (full name) s done in add_all names s' done'

  -- What an addition leaves: the same handles, or one more for this unit, at its place.
  abbrev IsGrown : Text → Text → Cgroups → Cgroups → Type 0
  IsGrown slice name s t =
      (t.hierarchy ≡ some slice)
      × ((t.handles ≡ s.handles)
          ⊎ ((fd : ℕ) × (t.handles
                ≡ s.handles
                  ++ record { unit = name; cgroup = join slice (full name); events_fd = fd } ∷ [])))

  add-IsGrown :
      (name slice : Text) (s : Cgroups) (done : List Op)
      → s.hierarchy ≡ some slice
      → IsGrown slice name s (add kernel open_read name (full name) s done).0.0
  unfolding add open_events
  add-IsGrown name slice s done e =
      rw (e, add) (made (create_dir kernel (join slice (full name)) done))
    where
      made :
          (r : Outcome CgroupError (Unit {0}) × List Op)
          → IsGrown slice name s
              (open_events kernel open_read name (join slice (full name)) s r).0.0
      made (err source, after) = (e, inl refl)
      made (ok u, after) = elim (Option-cases (open_read after (events (join slice (full name))))) [
        | inl f ↦ rw (open_events, f) (e, inl refl)
        | inr (fd, f) ↦ rw (open_events, f) (e, inr (fd, refl))
      ]

  -- A slice, with every handle at its unit's place in it.
  abbrev IsLinked : Text → Cgroups → Type 0
  IsLinked slice s =
      (s.hierarchy ≡ some slice) × IsPlaced (λ unit. join slice (full unit)) s.handles

  abbrev Extends : Cgroups → Cgroups → Type 0
  Extends t s = (id : ℕ) (g : Handle) → handle id s.handles ≡ some g → handle id t.handles ≡ some g

  grown-IsLinked :
      (name slice : Text) (s t : Cgroups)
      → IsLinked slice s
      → IsGrown slice name s t
      → IsLinked slice t × Extends t s
  grown-IsLinked name slice s t l (h, inl e) = (
    (h, subst (IsPlaced (λ unit. join slice (full unit))) (sym e) l.1),
    λ id g k. subst (λ hs. handle id hs ≡ some g) (sym e) k,
  )
  grown-IsLinked name slice s t l (h, inr (fd, e)) =
      let place : Text → Text = λ unit. join slice (full unit) in
      let new : Handle = record { unit = name; cgroup = join slice (full name); events_fd = fd } in
      (
        (h, subst (IsPlaced place) (sym e) (IsPlaced-append place s.handles new l.1 refl)),
        λ id g k.
            subst (λ hs. handle id hs ≡ some g) (sym e) (handle-append_old id s.handles new g k),
      )

  add_all-IsLinked :
      (names : List Text) (slice : Text) (s : Cgroups) (done : List Op)
      → IsLinked slice s
      → IsLinked slice (add_all names s done).0 × Extends (add_all names s done).0 s
  unfolding add_all
  add_all-IsLinked [] slice s done l = (l, λ id g k. k)
  add_all-IsLinked (name ∷ names) slice s done l =
      let ((s', _), done') = add kernel open_read name (full name) s done in
      let (first, kept) = grown-IsLinked name slice s s' l (add-IsGrown name slice s done l.0) in
      let (last, kept') = add_all-IsLinked names slice s' done' first in
      (last, λ id g k. kept' id g (kept id g k))

  -- A place among the handles leads to the same unit for good: once services were added under a slice,
  -- with whatever failures, and others after them, what stands at a place is the unit that stood
  -- there before, and its cgroup, which is the one that is found under the unit's name, is the
  -- directory of its full name in the slice.
  pub add_all-kept :
      (names more : List Text) (slice : Text) (done : List Op) (id : ℕ) (g : Handle)
      → handle id (add_all names (empty_slice slice) done).0.handles ≡ some g
      → (let s = add_all names (empty_slice slice) done in
          let t = (add_all more s.0 s.1).0 in
          (unit_of id t ≡ some g.unit)
          × (get g.unit t ≡ some g.cgroup)
          × (g.cgroup ≡ join slice (full g.unit)))
  unfolding unit_of get
  add_all-kept names more slice done id g h =
      let (s, after) = add_all names (empty_slice slice) done in
      let first = add_all-IsLinked names slice (empty_slice slice) done (refl, tt) in
      let (linked, kept) = add_all-IsLinked more slice s after first.0 in
      let still = kept id g h in
      let (a, (f, b, c)) =
        get-placed (λ unit. join slice (full unit)) (add_all more s after).0.handles id g linked.1
          still in
      (ground arith, ground arith, a)
