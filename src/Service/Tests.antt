-- ===== src/Service/Tests.antt =====
-- Runs taken from the source's own tests, and the theorems at concrete inputs.
use oxinit.Prelude.{◌≡◌, ◌↔◌, refl, ℕ, none, some, List, [], ◌∷◌, false, arith}
use oxinit.Text.{codes}
use oxinit.Time.{from_secs, Instant}
use oxinit.Unit.{UnitDef, Service, service, simple, on_failure, console, Restart, Deps}
use oxinit.Service.{
  failed, restarting, clean, status, abnormal, new, on_exit, entered_active, requested, watchdog,
  schedule_restart, deactivated, entered_deactivating,
}
use oxinit.Service.Backoff.{
  Restarts, failed_status, failed_abnormally, Attempt, attempt, attempts, delay-attempts,
  on_exit-restarting_iff,
}
use oxinit.Service.Lifecycle.{
  Call, spawned, up, exited, timed_out, ping, call, calls, IsSound, calls-IsSound,
}
use oxinit.Service.Stops.{some_exit, some_ping, expiry, requested_stop, watchdog_stop}

abbrev pub no_deps : Deps
no_deps = record { requires = []; wants = []; after = []; before = []; conflicts = [] }

abbrev pub plain_service : Restart → ℕ → Service
plain_service policy delay = record {
  ty = simple;
  exec = codes "/bin/true" ∷ [];
  restart = policy;
  restart_sec = delay;
  start_sec = from_secs 90;
  stop_sec = from_secs 30;
  watchdog_sec = none;
  user = codes "root";
  tty = false;
  output = console;
  resources = record { memory_max = none; tasks_max = none };
}

abbrev sshd : UnitDef
sshd = record {
  name = codes "sshd";
  description = codes "sshd";
  deps = no_deps;
  kind = service (plain_service on_failure (from_secs 1));
}

abbrev crash : Attempt
crash = record { pid = 40; exit = status 1; ended = 7 }

abbrev three_crashes : List Attempt
three_crashes = crash ∷ record { pid = 41; exit = abnormal; ended = 90 } ∷ crash ∷ []

delay-attempts_example : (attempt crash (attempts three_crashes (new sshd))).1 ≡ some (from_secs 8)
delay-attempts_example =
    delay-attempts sshd three_crashes crash (omega arith)
      (failed_status, (failed_abnormally, (failed_status, tt))) failed_status

on_exit-restarting_iff_example :
    ((on_exit clean 5 (new sshd)).0.state ≡ restarting) ↔ Restarts on_failure clean
unfolding new
on_exit-restarting_iff_example = on_exit-restarting_iff clean 5 (new sshd) (λ e. cc)

abbrev history : List (Call × Instant)
history =
    (spawned 40, 1)
    ∷ (up, 2)
    ∷ (exited abnormal, 3)
    ∷ (spawned 41, 2_000_000_000)
    ∷ (up, 2_000_000_001)
    ∷ []

calls-IsSound_example : IsSound sshd (calls history (new sshd))
calls-IsSound_example = calls-IsSound sshd history

abbrev slow_stop : List (Call × Instant)
slow_stop = (ping, 4) ∷ (timed_out, 5) ∷ (exited abnormal, 6) ∷ []

requested_stop_example :
    let j =
      deactivated 9
        (calls slow_stop (entered_deactivating requested (entered_active 1 (new sshd)))) in
    (j.1 ≡ none)
    × (j.0.state ≡ failed)
    × (j.0.restarts ≡ (entered_active 1 (new sshd)).restarts)
    × (j.0.backoff ≡ (entered_active 1 (new sshd)).backoff)
requested_stop_example =
    requested_stop (entered_active 1 (new sshd)) slow_stop 9 (some_ping, (expiry, (some_exit, tt)))

watchdog_stop_example :
    let j =
      deactivated 9
        (calls slow_stop (entered_deactivating watchdog (entered_active 1 (new sshd)))) in
    let crashed = on_exit abnormal 9 (entered_active 1 (new sshd)) in
    (j.1 ≡ crashed.1)
    × (j.0.state ≡ crashed.0.state)
    × (j.0.restarts ≡ crashed.0.restarts)
    × (j.0.backoff ≡ crashed.0.backoff)
watchdog_stop_example =
    watchdog_stop (entered_active 1 (new sshd)) slow_stop 9 (unfold entered_active new in λ e. cc)
      (some_ping, (expiry, (some_exit, tt)))

watchdog_stop_restarts :
    (deactivated 9
      (calls slow_stop (entered_deactivating watchdog (entered_active 1 (new sshd))))).1
    ≡ some (from_secs 1)
unfolding deactivated schedule_restart call on_exit entered_deactivating entered_active new
watchdog_stop_restarts = refl
