-- ===== src/Loop/Down.antt =====
-- On the way down: what the loop of crates/oxinit/src/main.rs still does once a shutdown has begun.
use oxinit.Prelude.{◌≡◌, refl, sym, subst, ◌∙◌, true, none, some, arith, List, [], ◌∷◌, not}
use oxinit.Text.{Text}
use oxinit.Table.{contains_key}
use oxinit.Alarms.{Alarm, expired}
use oxinit.Supervisor
use oxinit.Supervisor.{
  World, Supervisor, Action, is_idle, stop, pump, begin_shutdown, shutting_down,
}
use oxinit.Supervisor.Winding.{
  wind_at, starts, IsDown, Keeps, Keeps-IsDown, Keeps-refl, Keeps-trans, stop-Keeps,
  begin_shutdown-again, begin_shutdown-IsDown,
}
use oxinit.Deadlines.{on_alarm, on_alarms, on_timer, on_wall_alarms, on_wall_timer}
use oxinit.Cgroup.{Stats}
use oxinit.Load.{Loaded}
use oxinit.Loop.Reloading.{reload-Keeps}
use oxinit.Control.{
  Request, list_units, status_unit, start_unit, stop_unit, restart_unit, reload_files, handle,
}
use oxinit.Loop.{
  Signal, on_signal, on_signals, Source, on_source, on_sources, WakeUp, wake_up, run, signals,
  timer, wall_timer, notify, cgroup, socket, client, sigchld, sigterm, sigpwr, sigint, sigusr1,
  sigusr2, other,
}
use oxinit.Loop.Handlers.{
  if-Keeps, same_Keeps, on_sigchld-Keeps, on_cgroup-Keeps, on_notify-Keeps, on_socket-Keeps,
  stop_timeout-Keeps, start_timed_out-Keeps, check_watchdog-Keeps, timer_elapsed-Keeps,
  restart_due-Keeps,
}

on_alarm-Keeps : (w : World) (a : Alarm) (s : Supervisor) → IsDown s → Keeps s (on_alarm w a s)
unfolding on_alarm
on_alarm-Keeps w (Alarm.restart name) s d = restart_due-Keeps w name s d
on_alarm-Keeps w (Alarm.watchdog_check name) s d = check_watchdog-Keeps w name s d
on_alarm-Keeps w (Alarm.stop_timeout name) s d = stop_timeout-Keeps w name s d
on_alarm-Keeps w (Alarm.timer_elapsed name) s d = timer_elapsed-Keeps w name s d
on_alarm-Keeps w (Alarm.start_timeout name) s d = start_timed_out-Keeps w name s d

on_alarms-Keeps :
    (w : World) (alarms : List Alarm) (s : Supervisor) → IsDown s → Keeps s (on_alarms w alarms s)
unfolding on_alarms
on_alarms-Keeps w [] s d = Keeps-refl d
on_alarms-Keeps w (a ∷ alarms) s d =
    let k = on_alarm-Keeps w a s d in Keeps-trans k (on_alarms-Keeps w alarms _ (Keeps-IsDown d k))

on_wall_alarms-Keeps :
    (w : World) (alarms : List Alarm) (s : Supervisor)
    → IsDown s
    → Keeps s (on_wall_alarms w alarms s)
unfolding on_wall_alarms
on_wall_alarms-Keeps w [] s d = Keeps-refl d
on_wall_alarms-Keeps w (Alarm.timer_elapsed name ∷ alarms) s d =
    let k = timer_elapsed-Keeps w name s d in
    Keeps-trans k (on_wall_alarms-Keeps w alarms _ (Keeps-IsDown d k))
on_wall_alarms-Keeps w (Alarm.restart name ∷ alarms) s d = on_wall_alarms-Keeps w alarms s d
on_wall_alarms-Keeps w (Alarm.watchdog_check name ∷ alarms) s d = on_wall_alarms-Keeps w alarms s d
on_wall_alarms-Keeps w (Alarm.stop_timeout name ∷ alarms) s d = on_wall_alarms-Keeps w alarms s d
on_wall_alarms-Keeps w (Alarm.start_timeout name ∷ alarms) s d = on_wall_alarms-Keeps w alarms s d

on_timer-Keeps : (w : World) (s : Supervisor) → IsDown s → Keeps s (on_timer w s)
unfolding on_timer
on_timer-Keeps w s d =
    let k = same_Keeps d refl refl refl in
    if-Keeps w.timer_set
      (λ _. Keeps-trans k (on_alarms-Keeps w (expired w.now s.heap).0 _ (Keeps-IsDown d k)))
      (λ _. k)

on_wall_timer-Keeps : (w : World) (s : Supervisor) → IsDown s → Keeps s (on_wall_timer w s)
unfolding on_wall_timer
on_wall_timer-Keeps w s d =
    let k = same_Keeps d refl refl refl in
    if-Keeps w.clock_stepped (λ _. Keeps-refl d)
      (λ _.
        if-Keeps w.timer_set
          (λ _.
            Keeps-trans k
              (on_wall_alarms-Keeps w (expired w.unix_now s.wall_heap).0 _ (Keeps-IsDown d k)))
          (λ _. k))

begin_shutdown-Keeps :
    (w : World) (action : Action) (s : Supervisor) → IsDown s → Keeps s (begin_shutdown w action s)
begin_shutdown-Keeps w action s d =
    subst (λ t. Keeps s t) (sym (begin_shutdown-again w action s d.down)) (Keeps-refl d)

on_signal-Keeps : (w : World) (x : Signal) (s : Supervisor) → IsDown s → Keeps s (on_signal w x s)
unfolding on_signal
on_signal-Keeps w (sigchld reaped) s d = on_sigchld-Keeps w reaped s d
on_signal-Keeps w sigterm s d = begin_shutdown-Keeps w Supervisor.power_off s d
on_signal-Keeps w sigpwr s d = begin_shutdown-Keeps w Supervisor.power_off s d
on_signal-Keeps w sigint s d = begin_shutdown-Keeps w Supervisor.reboot s d
on_signal-Keeps w sigusr1 s d = begin_shutdown-Keeps w Supervisor.halt s d
on_signal-Keeps w sigusr2 s d = Keeps-refl d
on_signal-Keeps w other s d = Keeps-refl d

on_signals-Keeps :
    (w : World) (xs : List Signal) (s : Supervisor) → IsDown s → Keeps s (on_signals w xs s)
unfolding on_signals
on_signals-Keeps w [] s d = Keeps-refl d
on_signals-Keeps w (x ∷ xs) s d =
    let k = on_signal-Keeps w x s d in Keeps-trans k (on_signals-Keeps w xs _ (Keeps-IsDown d k))

handle-Keeps :
    (stats : Text → Stats) (found : Loaded) (w : World) (request : Request) (s : Supervisor)
    → IsDown s
    → Keeps s (handle stats found w request s).0
unfolding handle shutting_down
handle-Keeps stats found w list_units s d = Keeps-refl d
handle-Keeps stats found w (status_unit name) s d =
    subst (λ t. Keeps s t) (ground arith) (Keeps-refl d)
handle-Keeps stats found w (start_unit name) s d =
    subst (λ t. Keeps s t) (let is = d.down in ground arith) (Keeps-refl d)
handle-Keeps stats found w (stop_unit name) s d =
    subst (λ t. Keeps s t) (ground arith)
      (if-Keeps (not (contains_key name s.instances)) (λ _. Keeps-refl d)
        (λ _. stop-Keeps w name s d))
handle-Keeps stats found w (restart_unit name) s d =
    subst (λ t. Keeps s t) (let is = d.down in ground arith) (Keeps-refl d)
handle-Keeps stats found w reload_files s d = reload-Keeps found s d

on_source-Keeps : (w : World) (x : Source) (s : Supervisor) → IsDown s → Keeps s (on_source w x s)
unfolding on_source
on_source-Keeps w (signals xs) s d = on_signals-Keeps w xs s d
on_source-Keeps w timer s d = on_timer-Keeps w s d
on_source-Keeps w wall_timer s d = on_wall_timer-Keeps w s d
on_source-Keeps w (notify msgs) s d = on_notify-Keeps w msgs s d
on_source-Keeps w (cgroup name populated) s d = on_cgroup-Keeps w name populated s d
on_source-Keeps w (socket service) s d = on_socket-Keeps w service s d
on_source-Keeps w (client stats found request) s d = handle-Keeps stats found w request s d

on_sources-Keeps :
    (xs : List (World × Source)) (s : Supervisor) → IsDown s → Keeps s (on_sources xs s)
unfolding on_sources
on_sources-Keeps [] s d = Keeps-refl d
on_sources-Keeps ((w, x) ∷ xs) s d =
    let k = on_source-Keeps w x s d in Keeps-trans k (on_sources-Keeps xs _ (Keeps-IsDown d k))

pump-Keeps : (w : World) (s : Supervisor) → IsDown s → Keeps s (pump w s)
unfolding pump shutting_down
pump-Keeps w s d =
    let is = d.down in
    subst (λ t. Keeps s t) (ground arith)
      (same_Keeps {s = s} {t = record s { pending = [] }} d refl refl refl)

pub run-Keeps : (ks : List WakeUp) (s : Supervisor) → IsDown s → Keeps s (run ks s)
unfolding run wake_up
run-Keeps [] s d = Keeps-refl d
run-Keeps (k ∷ ks) s d =
    let a = on_sources-Keeps k.sources s d in
    let b = Keeps-trans a (pump-Keeps k.after_sources _ (Keeps-IsDown d a)) in
    Keeps-trans b (run-Keeps ks _ (Keeps-IsDown d b))

-- Once a shutdown has begun, no wake-up of the loop, whatever it is woken by, starts a process, every
-- unit stays idle or on its way there, and the shutdown stays the one that was asked for first.
pub nothing_starts :
    (w : World) (action : Action) (s : Supervisor) (ks : List WakeUp) (name : Text)
    → s.shutdown ≡ none
    → let t = run ks (begin_shutdown w action s) in
      (starts t ≡ starts s)
      × (wind_at t.instances name ≡ true)
      × (t.shutdown ≡ some (record { action = action; started = w.now }))
nothing_starts w action s ks name n =
    let (d, sd, st) = begin_shutdown-IsDown w action s n in
    let k = run-Keeps ks (begin_shutdown w action s) d in
    (k.starts ∙ st, k.winding name, k.shutdown ∙ sd)
