-- ===== src/Boot.antt =====
-- crates/oxinit/src/supervisor.rs, `Supervisor::load`: from the units that the directories hold to a
-- supervisor that has started nothing yet. The cgroups are made under a kernel that answers as it
-- will, and whether an address can be bound is a parameter.
pub mod Started
mod Tests
use oxinit.Prelude.{
  ℕ, ◌≡◌, Bool, true, false, Option, none, some, List, [], ◌∷◌, ◌++◌, Outcome, ok, err,
}
use oxinit.Text.{Text}
use oxinit.Table.{Table, lookup, insert}
use oxinit.Unit.{UnitDef, Listen, service_of, socket_of, full_name}
use oxinit.Load.{Loaded}
use oxinit.Graph.{GraphError, Plan}
use oxinit.Topology.{resolve}
use oxinit.Service.{Instance, new}
use oxinit.Supervisor.{Supervisor}
use oxinit.Sockets.{Bound, bind}
use oxinit.Cgroup.Calls.{Kernel, Op}
use oxinit.Cgroups.{Cgroups, add}

pub record Machine : Type 0 where
  pub supervisor : Supervisor
  pub cgroups : Cgroups
  pub sockets : List Bound

-- A broken graph is refused whole.
unfoldable pub planned : Option (Outcome GraphError Plan) → List Text
planned none = []
planned (some (err e)) = []
planned (some (ok plan)) = plan.order

-- The timers that it is given have nothing scheduled yet.
abbrev pub idle_supervisor : List Text → Table Instance → Supervisor
idle_supervisor order instances = record {
  instances = instances;
  order = order;
  pending = [];
  pending_restart = [];
  next_elapse = [];
  shutdown = none;
  heap = [];
  wall_heap = [];
  effects = [];
}

-- An instance for every unit.
unfoldable pub add_instances : Table UnitDef → Table Instance → Table Instance
add_instances [] m = m
add_instances ((name, unit) ∷ units) m = add_instances units (insert name (new unit) m)

-- The descriptors are bound in the start order.
unfoldable pub bind_in_order : (Listen → Bool) → Table UnitDef → List Text → List Bound → List Bound
bind_in_order binds units [] bound = bound
bind_in_order binds units (name ∷ names) bound =
    bind_in_order binds units names (elim (lookup name units) [
      | none ↦ bound
      | some u ↦ elim (socket_of u.kind) [ none ↦ bound | some s ↦ bind binds name s bound ]
    ])

module _ (kernel : Kernel) (open_read : List Op → Text → Option ℕ) (binds : Listen → Bool) where
  -- A cgroup for every service; what fails is only reported.
  unfoldable pub add_cgroups : Table UnitDef → Cgroups → List Op → Cgroups × List Op
  add_cgroups [] cgroups done = (cgroups, done)
  add_cgroups ((name, unit) ∷ units) cgroups done = elim (service_of unit.kind) [
    | none ↦ add_cgroups units cgroups done
    | some _ ↦
        let ((cgroups', _), done') = add kernel open_read name (full_name unit) cgroups done in
        add_cgroups units cgroups' done'
  ]

  abbrev pub no_units : Cgroups → Machine
  no_units cgroups = record { supervisor = idle_supervisor [] []; cgroups = cgroups; sockets = [] }

  unfoldable pub load_units : Table UnitDef → Cgroups → List Op → Machine × List Op
  unfolding planned add_instances bind_in_order add_cgroups
  load_units [] cgroups done = (no_units cgroups, done)
  load_units (u ∷ us) cgroups done =
      let (cgroups', done') = add_cgroups (u ∷ us) cgroups done in
      (
        record {
          supervisor = idle_supervisor (planned (resolve (u ∷ us))) (add_instances (u ∷ us) []);
          cgroups = cgroups';
          sockets = bind_in_order binds (u ∷ us) (planned (resolve (u ∷ us))) [];
        },
        done',
      )

  -- The errors of the loading are reported, and the units that could be read are all that counts.
  unfoldable pub load : Loaded → Cgroups → List Op → Machine × List Op
  unfolding load_units
  load loaded cgroups done = load_units loaded.units cgroups done
