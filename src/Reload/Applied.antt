-- ===== src/Reload/Applied.antt =====
-- What a reload of crates/oxinit/src/supervisor.rs changes.
use oxinit.Prelude.{
  ◌≡◌, refl, sym, ap, ◌∙◌, inl, inr, Bool, true, false, not, Option, none, some, [], ◌∷◌, arith,
  if◌then◌else◌, is_some, ◌&&◌, Option-cases, Bool-cases, subst,
}
use oxinit.Text.{Text, str_eq, str_eq_iff}
use oxinit.Table.{Table, lookup, keys, remove, lookup-insert, lookup-remove}
use oxinit.Table.Sets.{Distinct, IsSorted, IsSorted-Distinct, contains-keys, insert-IsSorted}
use oxinit.Unit.{UnitDef}
use oxinit.Unit.Equality.{same_unit, same_unit_iff}
use oxinit.Load.{Loaded}
use oxinit.Service.{Instance, new}
use oxinit.Supervisor.{Supervisor, is_idle}
use oxinit.Reload.{Reloading, reload_unit, reload_units, retained, reload_all, reload}

-- A unit that is not running, or not known.
abbrev pub is_down : Option Instance → Bool
is_down none = true
is_down (some i) = is_idle i.state

-- One unit against its new definition.
abbrev updated : UnitDef → Option Instance → Option Instance
updated unit none = some (new unit)
updated unit (some i) =
    if same_unit i.unit unit
    then some i
    else (if not (is_idle i.state) then some i else some (new unit))

lookup-reload_unit :
    (name k : Text) (unit : UnitDef) (r : Reloading)
    → lookup k (reload_unit name unit r).instances
      ≡ (if str_eq name k then updated unit (lookup k r.instances) else lookup k r.instances)
unfolding reload_unit
lookup-reload_unit name k unit r =
    let at_name = str_eq_iff name k in
    let inserted = lookup-insert name k (new unit) r.instances in
    elim (Option-cases (lookup name r.instances)) [
      | inl e ↦ ground arith
      | inr (i, e) ↦ ground arith
    ]

abbrev against : Option UnitDef → Option Instance → Option Instance
against none o = o
against (some unit) o = updated unit o

lookup-reload_units :
    (k : Text) (units : Table UnitDef) (r : Reloading)
    → Distinct (keys units)
    → lookup k (reload_units units r).instances ≡ against (lookup k units) (lookup k r.instances)
unfolding reload_units lookup
lookup-reload_units k [] r d = refl
lookup-reload_units k ((name, unit) ∷ units) r d = ground (
  arith,
  lookup-reload_units k units (reload_unit name unit r) d.1,
  lookup-reload_unit name k unit r,
  str_eq_iff name k,
  contains-keys name units,
  d.0,
)

-- Whether an entry of this name goes.
abbrev goes : Table UnitDef → Text → Option Instance → Bool
goes units k none = false
goes units k (some i) = not (is_some (lookup k units)) && is_idle i.state

lookup-retained :
    (units : Table UnitDef) (k : Text) (entries m : Table Instance)
    → Distinct (keys entries)
    → lookup k (retained units entries m)
      ≡ (if goes units k (lookup k entries) then none else lookup k m)
unfolding retained lookup
lookup-retained units k [] m d = ground arith
lookup-retained units k ((name, i) ∷ entries) m d = ground (
  arith,
  lookup-retained units k entries m d.1,
  lookup-retained units k entries (remove name m) d.1,
  lookup-remove name k m,
  str_eq_iff name k,
  contains-keys name entries,
  d.0,
)

reload_unit-IsSorted :
    (name : Text) (unit : UnitDef) (r : Reloading)
    → IsSorted (keys r.instances)
    → IsSorted (keys (reload_unit name unit r).instances)
unfolding reload_unit
reload_unit-IsSorted name unit r h =
    let inserted = insert-IsSorted name (new unit) r.instances h in
    elim (Option-cases (lookup name r.instances)) [
      | inl e ↦ rw (e, reload_unit) inserted
      | inr (i, e) ↦ elim (Bool-cases (same_unit i.unit unit)) [
        | inl f ↦ rw (e, f, reload_unit) h
        | inr f ↦ elim (Bool-cases (is_idle i.state)) [
          | inl g ↦ rw (e, f, g, reload_unit) inserted
          | inr g ↦ rw (e, f, g, reload_unit) h
        ]
      ]
    ]

reload_units-IsSorted :
    (units : Table UnitDef) (r : Reloading)
    → IsSorted (keys r.instances)
    → IsSorted (keys (reload_units units r).instances)
unfolding reload_units
reload_units-IsSorted [] r h = h
reload_units-IsSorted ((name, unit) ∷ units) r h =
    reload_units-IsSorted units (reload_unit name unit r) (reload_unit-IsSorted name unit r h)

-- A unit that is to run by this definition once it is started: it is down, and defined so.
abbrev pub IsReady : UnitDef → Option Instance → Type 0
IsReady unit none = ⊥
IsReady unit (some i) = (i.unit ≡ unit) × (is_idle i.state ≡ true)

-- What has become of one name.
pub record IsReloaded (name : Text) (loaded : Loaded) (s t : Supervisor) : Type 0 where
  pub running :
      is_down (lookup name s.instances) ≡ false → lookup name t.instances ≡ lookup name s.instances
  pub defined :
      (unit : UnitDef)
      → lookup name loaded.units ≡ some unit
      → is_down (lookup name s.instances) ≡ true
      → IsReady unit (lookup name t.instances)
  pub undefined :
      lookup name loaded.units ≡ none
      → is_down (lookup name s.instances) ≡ true
      → lookup name t.instances ≡ none
  pub untouched : (t.pending ≡ s.pending) × (t.effects ≡ s.effects) × (t.order ≡ s.order)

abbrev renewed : Table UnitDef → Supervisor → Supervisor
renewed units s = record s {
  instances = retained units (reload_all units s).instances (reload_all units s).instances;
}

reload-renewed :
    (loaded : Loaded) (s : Supervisor)
    → loaded.errors ≡ []
    → renewed loaded.units s ≡ (reload loaded s).0
unfolding reload
reload-renewed loaded s e = ground arith

-- What becomes of a name: its new definition, and then the units without one go.
abbrev outcome : Option UnitDef → Option Instance → Option Instance
outcome (some unit) o = updated unit o
outcome none none = none
outcome none (some i) = if is_idle i.state then none else some i

lookup-renewed :
    (name : Text) (units : Table UnitDef) (s : Supervisor)
    → IsSorted (keys s.instances)
    → IsSorted (keys units)
    → lookup name (renewed units s).instances
      ≡ outcome (lookup name units) (lookup name s.instances)
unfolding reload_all
lookup-renewed name units s h k =
    let start : Reloading = record {
      instances = s.instances;
      changed = [];
      skipped = [];
      cgroups = [];
    } in
    let after = reload_units units start in
    let sorted = reload_units-IsSorted units start h in
    let kept =
      lookup-retained units name after.instances after.instances
        (IsSorted-Distinct (keys after.instances) sorted) in
    let read = lookup-reload_units name units start (IsSorted-Distinct (keys units) k) in
    elim (Option-cases (lookup name units)) [
      | inr (unit, e) ↦ ground arith
      | inl e ↦ elim (Option-cases (lookup name s.instances)) [
        | inl f ↦ ground arith
        | inr (i, f) ↦ ground arith
      ]
    ]

updated-IsReady :
    (unit : UnitDef) (o : Option Instance) → is_down o ≡ true → IsReady unit (updated unit o)
unfolding new
updated-IsReady unit none d = (refl, refl)
updated-IsReady unit (some i) d =
    let same = same_unit_iff i.unit unit in
    elim (Bool-cases (same_unit i.unit unit)) [
      | inl e ↦ rw e ((same_unit_iff i.unit unit).0 e, d)
      | inr e ↦ rw (e, d) (refl, refl)
    ]

outcome-running : (d : Option UnitDef) (o : Option Instance) → is_down o ≡ false → outcome d o ≡ o
outcome-running d none up = absurd (ground arith)
outcome-running none (some i) up = ground arith
outcome-running (some unit) (some i) up = ground arith

outcome-down : (o : Option Instance) → is_down o ≡ true → outcome none o ≡ none
outcome-down none d = refl
outcome-down (some i) d = ground arith

-- A reload of directories without a bad file leaves every unit that runs as it is; it gives every
-- other unit that has a file, new or known, exactly the definition in it, down; it forgets the ones
-- that have none and do not run; and it starts and stops nothing. The tables are sorted by their
-- keys, as the source's maps are.
pub reload-IsReloaded :
    (name : Text) (loaded : Loaded) (s : Supervisor)
    → loaded.errors ≡ []
    → IsSorted (keys s.instances)
    → IsSorted (keys loaded.units)
    → IsReloaded name loaded s (reload loaded s).0
reload-IsReloaded name loaded s e h k =
    let found = lookup-renewed name loaded.units s h k in
    subst (IsReloaded name loaded s) (reload-renewed loaded s e) (record {
      running =
          λ up. found ∙ outcome-running (lookup name loaded.units) (lookup name s.instances) up;
      defined = λ unit f down.
          subst (IsReady unit) (sym (found ∙ ap (λ d. outcome d (lookup name s.instances)) f))
            (updated-IsReady unit (lookup name s.instances) down);
      undefined = λ f down.
          found
          ∙ ap (λ d. outcome d (lookup name s.instances)) f
          ∙ outcome-down (lookup name s.instances) down;
      untouched = (refl, refl, refl);
    })
