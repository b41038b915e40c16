-- ===== src/Boot/Started.antt =====
-- What a boot starts: the loading of crates/oxinit/src/supervisor.rs, and `start_all` behind it.
use oxinit.Prelude.{
  ℕ, ◌≡◌, refl, ap, ◌∙◌, Bool, true, Option, none, some, List, [], ◌∷◌, ◌++◌, arith, if◌then◌else◌,
  Outcome, ok, err,
}
use oxinit.Text.{Text, contains_text, str_eq, str_eq_iff}
use oxinit.Table.{Table, lookup, insert, keys, lookup-insert}
use oxinit.Table.Sets.{Distinct}
use oxinit.Unit.{UnitDef, Listen}
use oxinit.Load.{Loaded}
use oxinit.Graph.{GraphError, Plan, default_unit}
use oxinit.Graph.Reach.{Pulled}
use oxinit.Topology.{resolve, resolve_from}
use oxinit.Topology.Resolve.{resolve_from-IsPlan}
use oxinit.Service.{Instance, new}
use oxinit.Supervisor.{World, Supervisor, start_all}
use oxinit.Supervisor.Spawning.{attempts, names_of, IsTaken, pump-in_order}
use oxinit.Supervisor.Winding.{starts}
use oxinit.Supervisor.Ordering.{in_order}
use oxinit.Cgroup.Calls.{Kernel, Op}
use oxinit.Cgroups.{Cgroups}
use oxinit.Boot.{planned, add_instances, load, load_units}

lookup-keys :
    (k : Text) (units : Table UnitDef) (u : UnitDef)
    → lookup k units ≡ some u
    → contains_text (keys units) k ≡ true
unfolding lookup contains_text
lookup-keys k [] u e = ground arith
lookup-keys k ((j, v) ∷ units) u e = ground (arith, lookup-keys k units u)

lookup-add_instances :
    (k : Text) (units : Table UnitDef) (m : Table Instance)
    → Distinct (keys units)
    → lookup k (add_instances units m)
      ≡ elim (lookup k units) [ none ↦ lookup k m | some u ↦ some (new u) ]
unfolding add_instances lookup
lookup-add_instances k [] m d = refl
lookup-add_instances k ((name, unit) ∷ units) m d =
    lookup-add_instances k units (insert name (new unit) m) d.1 ∙ here (lookup k units) refl
  where
    here :
        (o : Option UnitDef)
        → lookup k units ≡ o
        → (elim o [ none ↦ lookup k (insert name (new unit) m) | some u ↦ some (new u) ])
          ≡ elim (if str_eq name k then some unit else lookup k units) [
            | none ↦ lookup k m
            | some u ↦ some (new u)
          ]
    here none e = ground (arith, lookup-insert name k (new unit) m)
    here (some u) e = let stands = lookup-keys k units u e in ground (arith, str_eq_iff name k)

-- What the start order holds is pulled in by the default unit.
planned-Pulled :
    (units : Table UnitDef) (v : Text)
    → contains_text (planned (resolve units)) v ≡ true
    → Pulled units default_unit v
unfolding resolve planned
planned-Pulled units v h = by (resolve_from units default_unit) refl h
  where
    by :
        (o : Option (Outcome GraphError Plan))
        → resolve_from units default_unit ≡ o
        → contains_text (planned o) v ≡ true
        → Pulled units default_unit v
    by none e k = absurd (unfold contains_text in ground arith)
    by (some (err x)) e k = absurd (unfold contains_text in ground arith)
    by (some (ok plan)) e k =
        let is = resolve_from-IsPlan units default_unit plan e in (is.holds v).0 k

-- After the loading, the supervisor knows exactly the units that were loaded, each as a new instance.
abbrev pub IsFresh : Table UnitDef → Table Instance → Type 0
IsFresh units instances =
    (k : Text) → lookup k instances ≡ elim (lookup k units) [ none ↦ none | some u ↦ some (new u) ]

-- A supervisor that has started nothing, and knows these units.
record IsReady (units : Table UnitDef) (s : Supervisor) : Type 0 where
  fresh : IsFresh units s.instances
  pulled : (v : Text) → contains_text s.order v ≡ true → Pulled units default_unit v
  idle : starts s ≡ []

module _ (kernel : Kernel) (open_read : List Op → Text → Option ℕ) (binds : Listen → Bool) where
  load_units-IsReady :
      (units : Table UnitDef) (cgroups : Cgroups) (done : List Op)
      → Distinct (keys units)
      → IsReady units (load_units kernel open_read binds units cgroups done).0.supervisor
  unfolding load_units
  load_units-IsReady [] cgroups done d = record {
    fresh = λ k. unfold lookup in refl;
    pulled = λ v h. absurd (unfold contains_text in ground arith);
    idle = refl;
  }
  load_units-IsReady (u ∷ us) cgroups done d = record {
    fresh = λ k. lookup-add_instances k (u ∷ us) [] d ∙ nothing k (lookup k (u ∷ us));
    pulled = λ v h. planned-Pulled (u ∷ us) v h;
    idle = refl;
  }
    where
      nothing :
          (k : Text) (o : Option UnitDef)
          → (elim o [ none ↦ lookup {V = Instance} k [] | some x ↦ some (new x) ])
            ≡ elim o [ none ↦ none | some x ↦ some (new x) ]
      nothing k none = unfold lookup in refl
      nothing k (some x) = refl

  -- A boot, from the units that were loaded, each under its own name, to its first processes, whatever the
  -- kernel answers: the supervisor knows exactly these units, all as new instances; and nothing is
  -- started but at most one process for each of some units, in their order, of which each is listed
  -- once, is in the start order and does not wait in the queue any more, none stands before one that
  -- it is `after`, and all are pulled in by the default unit.
  pub load-started :
      (w : World) (loaded : Loaded) (cgroups : Cgroups) (done : List Op)
      → Distinct (keys loaded.units)
      → (let s = (load kernel open_read binds loaded cgroups done).0.supervisor in
          IsFresh loaded.units s.instances
          × ((xs : List (Text × Option ℕ)) × (starts (start_all w s) ≡ attempts xs)
              × IsTaken s.order (start_all w s).pending (names_of xs)
              × (in_order s.instances (names_of xs) ≡ true)
              × ((v : Text)
                  → contains_text (names_of xs) v ≡ true
                  → Pulled loaded.units default_unit v)))
  unfolding load start_all
  load-started w loaded cgroups done d =
      let s = (load_units kernel open_read binds loaded.units cgroups done).0.supervisor in
      let ready = load_units-IsReady loaded.units cgroups done d in
      let (xs, all, taken, order) = pump-in_order w (record s { pending = s.order }) in
      (
        ready.fresh,
        (
          xs,
          all ∙ ap (λ es. es ++ attempts xs) ready.idle,
          taken,
          order,
          λ v h. ready.pulled v (taken.queued v h),
        ),
      )
