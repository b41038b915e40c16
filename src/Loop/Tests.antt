-- ===== src/Loop/Tests.antt =====
-- Runs of the loop and of the supervisor on a small machine, and the theorems at it.
use oxinit.Prelude.{
  Option, ◌++◌, ℕ, ◌+◌, ◌-◌, ◌≡◌, ◌<◌, ◌↔◌, ◌⊎◌, refl, true, false, none, some, List, [], ◌∷◌,
  arith,
}
use oxinit.Text.{Text, codes, contains_text, str_eq}
use oxinit.Time.{from_secs, Duration}
use oxinit.Unit.{UnitDef, Kind, service, Service, simple, on_failure, console}
use oxinit.Service
use oxinit.Service.{Instance, inactive, active, deactivating}
use oxinit.Table.{lookup, modify}
use oxinit.Supervisor.{
  World, Supervisor, Action, reboot, begin_shutdown, start, start_now, pump, pump_rounds, pump_one,
  next_startable, settled, wait_bound, stop, stop_instance, shutting_down, ordering_satisfied,
  failed_requirement, spawned, start_all, start_instance, start_service, service_started, stop_busy,
  conflicting_with, add_excluding, apply_resources,
}
use oxinit.Supervisor.Winding.{starts, wind_at}
use oxinit.Supervisor.Conflicts.{start-exclude, exclude}
use oxinit.Supervisor.Ordering.{in_order}
use oxinit.Supervisor.Spawning.{attempts, names_of, IsTaken, pump-in_order}
use oxinit.Supervisor.Queue.{pump-next_startable}
use oxinit.Loop.{WakeUp, run, signals, sigchld, sigterm, timer, cgroup, client}
use oxinit.Cgroup.{Stats}
use oxinit.Load.{Loaded}
use oxinit.Control.{reload_files}
use oxinit.Loop.Down.{nothing_starts}
use oxinit.Loop.Ending.{AllIdle, shutdown_ends, wait_bound-settled}

abbrev unit_of : Text → List Text → List Text → Kind → UnitDef
unit_of name after conflicts kind = record {
  name = name;
  description = name;
  deps = record { requires = []; wants = []; after = after; before = []; conflicts = conflicts };
  kind = kind;
}

abbrev daemon : Service
daemon = record {
  ty = simple;
  exec = codes "/bin/daemon" ∷ [];
  restart = on_failure;
  restart_sec = from_secs 1;
  start_sec = from_secs 90;
  stop_sec = from_secs 30;
  watchdog_sec = none;
  user = codes "root";
  tty = false;
  output = console;
  resources = record { memory_max = none; tasks_max = none };
}

-- A machine whose `login` comes after `udevd`, and whose `rescue` excludes `login`.
abbrev machine : Supervisor
machine = record {
  instances =
      (
        codes "login",
        Service.new (unit_of (codes "login") (codes "udevd" ∷ []) [] (service daemon)),
      )
      ∷ (
        codes "rescue",
        Service.new (unit_of (codes "rescue") [] (codes "login" ∷ []) (service daemon)),
      )
      ∷ (codes "udevd", Service.new (unit_of (codes "udevd") [] [] (service daemon)))
      ∷ [];
  order = codes "udevd" ∷ codes "login" ∷ [];
  pending = [];
  pending_restart = [];
  next_elapse = [];
  shutdown = none;
  heap = [];
  wall_heap = [];
  effects = [];
}

-- The kernel gives every process the number 100, and every cgroup is empty.
abbrev at_second : ℕ → World
at_second t = record {
  now = from_secs t;
  unix_now = 1_700_000_000 + t;
  has_cgroup = λ _. true;
  populated = λ _. false;
  limits_applied = λ _ _. true;
  output_opened = λ _ _. true;
  spawn = λ _. some 100;
  timer_set = true;
  clock_stepped = false;
}

abbrev started : Supervisor
started = start_all (at_second 1) machine

program : Unit {0}
unfolding start_all pump pump_rounds pump_one next_startable ordering_satisfied failed_requirement
    start start_now start_instance start_service service_started stop_busy conflicting_with
    add_excluding apply_resources stop stop_instance shutting_down contains_text str_eq lookup
    modify Service.new Service.entered_activating Service.entered_active
    Service.entered_deactivating
program = tt

booted_in_order : starts started ≡ spawned (codes "udevd") 100 ∷ spawned (codes "login") 100 ∷ []
unfolding program
booted_in_order = refl

started_up : started.shutdown ≡ none
unfolding program
started_up = refl

login_excluded : exclude started.instances (codes "rescue") (codes "login") ≡ true
unfolding program
login_excluded = refl

start-exclude_example :
    wind_at (start (at_second 2) (codes "rescue") started).instances (codes "login") ≡ true
start-exclude_example =
    start-exclude (at_second 2) (codes "rescue") (codes "login") started started_up
      (unfold str_eq in refl) login_excluded

pump-next_startable_example :
    next_startable (pump (at_second 1) (record machine { pending = machine.order })) ≡ none
pump-next_startable_example =
    pump-next_startable (at_second 1) (record machine { pending = machine.order })

-- A reload finds one more unit.
abbrev no_stats : Text → Stats
no_stats unit = record { memory = none; tasks = none }

abbrev on_disk : Loaded
on_disk = record {
  units = (codes "cron", unit_of (codes "cron") [] [] (service daemon)) ∷ [];
  errors = [];
}

abbrev wake_ups : List WakeUp
wake_ups =
    record {
      sources =
          (
            at_second 4,
            signals
                (sigchld (record { pid = 100; code = some 0; signal = none } ∷ []) ∷ sigterm ∷ []),
          )
          ∷ (at_second 4, cgroup (codes "login") false)
          ∷ [];
      after_sources = at_second 4;
    }
    ∷ record {
      sources = (at_second 40, timer) ∷ (at_second 40, client no_stats on_disk reload_files) ∷ [];
      after_sources = at_second 40;
    }
    ∷ []

nothing_starts_example :
    let t = run wake_ups (begin_shutdown (at_second 3) reboot started) in
    (starts t ≡ starts started)
    × (wind_at t.instances (codes "login") ≡ true)
    × (t.shutdown ≡ some (record { action = reboot; started = from_secs 3 }))
nothing_starts_example =
    nothing_starts (at_second 3) reboot started wake_ups (codes "login") started_up

shutdown_ends_example :
    let t = run wake_ups (begin_shutdown (at_second 3) reboot started) in
    ((settled (from_secs 41) t ≡ some reboot)
      ↔ (AllIdle t.instances ⊎ (from_secs 90 < from_secs 41 - from_secs 3)))
    × ((how : Action) → settled (from_secs 41) t ≡ some how → how ≡ reboot)
shutdown_ends_example =
    shutdown_ends (at_second 3) reboot started wake_ups (from_secs 41) started_up

wait_bound-settled_example :
    let t = run wake_ups (begin_shutdown (at_second 3) reboot started) in
    (wait : Duration) × (wait_bound (from_secs 41) t ≡ some wait)
    × (settled (from_secs 41 + wait) t ≡ some reboot)
wait_bound-settled_example =
    wait_bound-settled (at_second 3) reboot started wake_ups (from_secs 41) started_up (omega arith)

pump-in_order_example :
    (xs : List (Text × Option ℕ)) × (starts
        (pump (at_second 1) (record machine { pending = machine.order }))
      ≡ starts machine ++ attempts xs)
    × IsTaken machine.order
        (pump (at_second 1) (record machine { pending = machine.order })).pending
        (names_of xs)
    × (in_order machine.instances (names_of xs) ≡ true)
pump-in_order_example = pump-in_order (at_second 1) (record machine { pending = machine.order })
