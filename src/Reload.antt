-- ===== src/Reload.antt =====
-- crates/oxinit/src/supervisor.rs, `reload`: the units of the directories, read again, against the units
-- that the supervisor knows. What the directories hold is an argument.
pub mod Applied
mod Tests
use oxinit.Prelude.{
  ℕ, Bool, true, false, not, Option, none, some, List, [], ◌∷◌, ◌++◌, ◌&&◌, if◌then◌else◌, length,
  ◌≡◌,
}
use oxinit.Text.{Text}
use oxinit.Table.{Table, lookup, insert, remove, contains_key}
use oxinit.Unit.{UnitDef, service_of}
use oxinit.Unit.Equality.{same_unit}
use oxinit.UnitFile.{UnitError}
use oxinit.Load.{Loaded}
use oxinit.Service.{Instance, new}
use oxinit.Supervisor.{Supervisor, is_idle}

-- The variables of `reload`; `cgroups` are the units that are given a cgroup.
pub record Reloading : Type 0 where
  pub instances : Table Instance
  pub changed : List Text
  pub skipped : List Text
  pub cgroups : List Text

abbrev pub replace : Text → UnitDef → Reloading → Reloading
replace name unit r = record {
  instances = insert name (new unit) r.instances;
  changed = r.changed ++ name ∷ [];
  skipped = r.skipped;
  cgroups = elim (service_of unit.kind) [ none ↦ r.cgroups | some _ ↦ r.cgroups ++ name ∷ [] ];
}

-- One unit of the directories.
unfoldable pub reload_unit : Text → UnitDef → Reloading → Reloading
reload_unit name unit r = elim (lookup name r.instances) [
  | none ↦ replace name unit r
  | some existing ↦
      if same_unit existing.unit unit
      then r
      else (if not (is_idle existing.state)
          then record r { skipped = r.skipped ++ name ∷ [] }
          else replace name unit r)
]

unfoldable pub reload_units : Table UnitDef → Reloading → Reloading
reload_units [] r = r
reload_units ((name, unit) ∷ units) r = reload_units units (reload_unit name unit r)

abbrev pub gone : Table UnitDef → Text → Bool
gone units name = not (contains_key name units)

-- `retain`, over the entries: a unit whose file is gone stays only while it runs.
unfoldable pub retained :
    Table UnitDef → (entries : Table Instance) → Table Instance → Table Instance
retained units [] m = m
retained units ((name, i) ∷ entries) m =
    retained units entries (if gone units name && is_idle i.state then remove name m else m)

unfoldable pub still_running : Table UnitDef → Table Instance → List Text
still_running units [] = []
still_running units ((name, i) ∷ m) =
    let rest = still_running units m in
    if gone units name && not (is_idle i.state) then name ∷ rest else rest

-- What the answer says: the errors, or how many units changed and which were left alone.
pub data Answer : Type 0 where
  problems : List UnitError → Answer
  reloaded : (changed : ℕ) (skipped : List Text) → Answer

unfoldable pub reload_all : Table UnitDef → Supervisor → Reloading
reload_all units s =
    reload_units units
      (record { instances = s.instances; changed = []; skipped = []; cgroups = [] })

unfoldable pub reload : Loaded → Supervisor → Supervisor × Answer
reload loaded s = elim loaded.errors [
  | e ∷ es ↦ (s, problems (e ∷ es))
  | [] ↦
      let r = reload_all loaded.units s in
      (
        record s { instances = retained loaded.units r.instances r.instances },
        reloaded (length r.changed) (r.skipped ++ still_running loaded.units r.instances),
      )
]
