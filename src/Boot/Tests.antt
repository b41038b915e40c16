-- ===== src/Boot/Tests.antt =====
-- A machine of two units, from what its directories hold to its first processes.
use oxinit.Prelude.{ℕ, ◌≡◌, refl, true, false, Option, none, some, List, [], ◌∷◌, ok}
use oxinit.Text.{Text, codes, str_eq, contains_text}
use oxinit.Time.{from_secs}
use oxinit.Table.{keys}
use oxinit.Table.Sets.{Distinct}
use oxinit.Unit.{UnitDef, Kind, service, target, Service, simple, on_failure, console}
use oxinit.Load.{Loaded}
use oxinit.Graph.{default_unit}
use oxinit.Graph.Reach.{Pulled}
use oxinit.Supervisor.{World, Supervisor, start_all}
use oxinit.Supervisor.Winding.{starts}
use oxinit.Supervisor.Ordering.{in_order}
use oxinit.Supervisor.Spawning.{attempts, names_of, IsTaken}
use oxinit.Cgroup.Calls.{Kernel}
use oxinit.Cgroups.{unavailable}
use oxinit.Boot.{load}
use oxinit.Boot.Started.{IsFresh, load-started}

abbrev unit_of : Text → List Text → List Text → Kind → UnitDef
unit_of name requires after kind = record {
  name = name;
  description = name;
  deps = record { requires = requires; wants = []; after = after; before = []; conflicts = [] };
  kind = kind;
}

abbrev daemon : Service
daemon = record {
  ty = simple;
  exec = codes "/bin/daemon" ∷ [];
  restart = on_failure;
  restart_sec = from_secs 1;
  start_sec = from_secs 90;
  stop_sec = from_secs 30;
  watchdog_sec = none;
  user = codes "root";
  tty = false;
  output = console;
  resources = record { memory_max = none; tasks_max = none };
}

abbrev on_disk : Loaded
on_disk = record {
  units =
      (codes "cron", unit_of (codes "cron") [] [] (service daemon))
      ∷ (codes "default", unit_of (codes "default") (codes "sshd" ∷ []) (codes "sshd" ∷ []) target)
      ∷ (codes "sshd", unit_of (codes "sshd") [] [] (service daemon))
      ∷ [];
  errors = [];
}

abbrev willing : Kernel
willing = record {
  read_to_string = λ done path. ok [];
  create_dir = λ done path. ok tt;
  open_and_write = λ done path value. ok tt;
}

abbrev at_boot : World
at_boot = record {
  now = from_secs 1;
  unix_now = 1_700_000_000;
  has_cgroup = λ _. true;
  populated = λ _. false;
  limits_applied = λ _ _. true;
  output_opened = λ _ _. true;
  spawn = λ _. some 100;
  timer_set = true;
  clock_stepped = false;
}

abbrev loaded : Supervisor
loaded = (load willing (λ done path. none) (λ address. true) on_disk unavailable []).0.supervisor

once : Distinct (keys on_disk.units)
unfolding contains_text str_eq
once = (refl, (refl, (refl, tt)))

load-started_example :
    IsFresh on_disk.units loaded.instances
    × ((xs : List (Text × Option ℕ)) × (starts (start_all at_boot loaded) ≡ attempts xs)
        × IsTaken loaded.order (start_all at_boot loaded).pending (names_of xs)
        × (in_order loaded.instances (names_of xs) ≡ true)
        × ((v : Text) → contains_text (names_of xs) v ≡ true → Pulled on_disk.units default_unit v))
load-started_example =
    load-started willing (λ done path. none) (λ address. true) at_boot on_disk unavailable [] once
