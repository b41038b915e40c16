-- ===== src/Deadlines.antt =====
-- crates/oxinit/src/supervisor.rs: what the supervisor does when a deadline of crates/oxinit/src/timer.rs
-- has passed.
use oxinit.Prelude.{none, some, List, [], ◌∷◌, if◌then◌else◌, not}
use oxinit.Text.{Text}
use oxinit.Table.{lookup, contains_key}
use oxinit.Timer.{next}
use oxinit.Unit.{timer_of}
use oxinit.Service.{
  active, activating, deactivating, restarting, is_state, watchdog, watchdog_expired,
  stop_timed_out,
}
use oxinit.Alarms.{Alarm, expired}
use oxinit.Supervisor.{
  World, Supervisor, killed, is_busy, put, effect, shutting_down, stop, start, arm,
}
use oxinit.Events.{arm_watchdog, watchdog_sec_of}

unfoldable pub start_timed_out : World → Text → Supervisor → Supervisor
start_timed_out w name s = elim (lookup name s.instances) [
  | none ↦ s
  | some i ↦ if is_state i.state activating then stop w name watchdog s else s
]

unfoldable pub stop_timeout : World → Text → Supervisor → Supervisor
stop_timeout w name s = elim (lookup name s.instances) [
  | none ↦ s
  | some i ↦
      if is_state i.state deactivating
      then effect (killed name) (put name (stop_timed_out i) s)
      else s
]

unfoldable pub check_watchdog : World → Text → Supervisor → Supervisor
check_watchdog w name s = elim (lookup name s.instances) [
  | none ↦ s
  | some i ↦ elim (watchdog_sec_of i) [
    | none ↦ s
    | some interval ↦
        if is_state i.state active
        then (if watchdog_expired interval w.now i
            then stop w name watchdog s
            else arm_watchdog w name interval s)
        else s
  ]
]

-- Start the service of a timer, when it is known and idle.
unfoldable pub start_timed : World → Text → Supervisor → Supervisor
start_timed w service s =
    if not (contains_key service s.instances)
    then s
    else (if is_busy s.instances service then s else start w service s)

-- A timer elapsed: it is armed again first.
unfoldable pub timer_elapsed : World → Text → Supervisor → Supervisor
timer_elapsed w name s = elim (lookup name s.instances) [
  | none ↦ s
  | some i ↦ elim (timer_of i.unit.kind) [
    | none ↦ s
    | some t ↦
        if shutting_down s
        then s
        else start_timed w t.service (arm w name (next t.schedule w.unix_now) s)
  ]
]

unfoldable pub restart_due : World → Text → Supervisor → Supervisor
restart_due w name s = elim (lookup name s.instances) [
  | none ↦ s
  | some i ↦ if is_state i.state restarting then start w name s else s
]

unfoldable pub on_alarm : World → Alarm → Supervisor → Supervisor
on_alarm w (Alarm.restart name) s = restart_due w name s
on_alarm w (Alarm.watchdog_check name) s = check_watchdog w name s
on_alarm w (Alarm.stop_timeout name) s = stop_timeout w name s
on_alarm w (Alarm.timer_elapsed name) s = timer_elapsed w name s
on_alarm w (Alarm.start_timeout name) s = start_timed_out w name s

unfoldable pub on_alarms : World → List Alarm → Supervisor → Supervisor
on_alarms w [] s = s
on_alarms w (a ∷ alarms) s = on_alarms w alarms (on_alarm w a s)

-- The due entries are popped, and lost where setting the timerfd again fails.
unfoldable pub on_timer : World → Supervisor → Supervisor
on_timer w s =
    let (fired, later) = expired w.now s.heap in
    let s' = record s { heap = later } in if w.timer_set then on_alarms w fired s' else s'

-- On the wall clock only a timer's elapsing counts.
unfoldable pub on_wall_alarms : World → List Alarm → Supervisor → Supervisor
on_wall_alarms w [] s = s
on_wall_alarms w (Alarm.timer_elapsed name ∷ alarms) s =
    on_wall_alarms w alarms (timer_elapsed w name s)
on_wall_alarms w (_ ∷ alarms) s = on_wall_alarms w alarms s

-- A step of the clock makes the read fail once, and nothing fires then.
unfoldable pub on_wall_timer : World → Supervisor → Supervisor
on_wall_timer w s =
    let (fired, later) = expired w.unix_now s.wall_heap in
    let s' = record s { wall_heap = later } in
    if w.clock_stepped then s else (if w.timer_set then on_wall_alarms w fired s' else s')
