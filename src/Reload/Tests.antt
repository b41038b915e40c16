-- ===== src/Reload/Tests.antt =====
-- A reload of a machine with a unit that runs, one that is down, and one whose file is gone.
use oxinit.Prelude.{◌≡◌, refl, none, [], ◌∷◌}
use oxinit.Text.{Text, codes, str_lt}
use oxinit.Unit.{UnitDef, Kind}
use oxinit.UnitFile.{no_deps, no_kind}
use oxinit.Load.{Loaded}
use oxinit.Service.{Instance, new, active}
use oxinit.Supervisor.{Supervisor}
use oxinit.Reload.{reload, problems}
use oxinit.Reload.Applied.{IsReloaded, reload-IsReloaded}

abbrev target_of : Text → Text → UnitDef
target_of name description = record {
  name = name;
  description = description;
  deps = no_deps;
  kind = Kind.target;
}

abbrev up : Text → Instance
up name = record (new (target_of name name)) { state = active }

abbrev machine : Supervisor
machine = record {
  instances =
      (codes "a", up (codes "a"))
      ∷ (codes "b", new (target_of (codes "b") (codes "b")))
      ∷ (codes "c", new (target_of (codes "c") (codes "c")))
      ∷ [];
  order = [];
  pending = [];
  pending_restart = [];
  next_elapse = [];
  shutdown = none;
  heap = [];
  wall_heap = [];
  effects = [];
}

abbrev on_disk : Loaded
on_disk = record {
  units =
      (codes "a", target_of (codes "a") (codes "new"))
      ∷ (codes "b", target_of (codes "b") (codes "new"))
      ∷ (codes "d", target_of (codes "d") (codes "new"))
      ∷ [];
  errors = [];
}

reload-IsReloaded_example : IsReloaded (codes "b") on_disk machine (reload on_disk machine).0
reload-IsReloaded_example =
    reload-IsReloaded (codes "b") on_disk machine refl
      (unfold str_lt in ((refl, (refl, tt)), ((refl, tt), (tt, tt))))
      (unfold str_lt in ((refl, (refl, tt)), ((refl, tt), (tt, tt))))

-- With an error on disk nothing changes.
bad_file :
    reload (record on_disk { errors = no_kind (codes "b") ∷ [] }) machine
    ≡ (machine, problems (no_kind (codes "b") ∷ []))
unfolding reload
bad_file = refl
