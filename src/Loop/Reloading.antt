-- ===== src/Loop/Reloading.antt =====
-- What a reload of crates/oxinit/src/supervisor.rs does once a shutdown has begun.
use oxinit.Prelude.{
  refl, Bool, true, false, arith, List, [], ◌∷◌, ◌++◌, ◌&&◌, length, if◌then◌else◌,
}
use oxinit.Text.{Text}
use oxinit.Table.{Table, remove, lookup-insert, lookup-remove}
use oxinit.Load.{Loaded}
use oxinit.Unit.{UnitDef}
use oxinit.UnitFile.{UnitError}
use oxinit.Service.{Instance, new}
use oxinit.Supervisor.{Supervisor, is_idle}
use oxinit.Supervisor.Winding.{AllWind, IsDown, Keeps, Keeps-refl}
use oxinit.Reload.{
  Reloading, reload_unit, reload_units, retained, gone, reload_all, reload, Answer, problems,
  reloaded, still_running,
}

-- A reload makes units that are idle, and takes others away.
reload_unit-AllWind :
    (name : Text) (unit : UnitDef) (r : Reloading)
    → AllWind r.instances
    → AllWind (reload_unit name unit r).instances
unfolding reload_unit new
reload_unit-AllWind name unit r d k =
    ground (arith, lookup-insert name k (new unit) r.instances, d k)

reload_units-AllWind :
    (units : Table UnitDef) (r : Reloading)
    → AllWind r.instances
    → AllWind (reload_units units r).instances
unfolding reload_units
reload_units-AllWind [] r d = d
reload_units-AllWind ((name, unit) ∷ units) r d =
    reload_units-AllWind units (reload_unit name unit r) (reload_unit-AllWind name unit r d)

removed-AllWind :
    (name : Text) (b : Bool) (m : Table Instance)
    → AllWind m
    → AllWind (if b then remove name m else m)
removed-AllWind name true m d k = ground (arith, lookup-remove name k m, d k)
removed-AllWind name false m d k = d k

retained-AllWind :
    (units : Table UnitDef) (entries m : Table Instance)
    → AllWind m
    → AllWind (retained units entries m)
unfolding retained
retained-AllWind units [] m d = d
retained-AllWind units ((name, i) ∷ entries) m d =
    retained-AllWind units entries _ (removed-AllWind name (gone units name && is_idle i.state) m d)

pub reload-Keeps : (found : Loaded) (s : Supervisor) → IsDown s → Keeps s (reload found s).0
unfolding reload reload_all
reload-Keeps found s d = of_errors found.errors
  where
    of_errors :
        (errors : List UnitError)
        → Keeps s
            (elim errors as (λ _. Supervisor × Answer) [
              | e ∷ es ↦ (s, problems (e ∷ es))
              | [] ↦
                  let r = reload_all found.units s in
                  (
                    record s { instances = retained found.units r.instances r.instances },
                    reloaded
                        (length r.changed)
                        (r.skipped ++ still_running found.units r.instances),
                  )
            ]).0
    of_errors (e ∷ es) = Keeps-refl d
    of_errors [] = record {
      shutdown = refl;
      starts = refl;
      winding =
          retained-AllWind found.units (reload_all found.units s).instances
            (reload_all found.units s).instances
            (reload_units-AllWind found.units
              (record { instances = s.instances; changed = []; skipped = []; cgroups = [] })
              d.winding);
    }
