-- ===== src/Service.antt =====
-- crates/oxinit-service/src/lib.rs: the state machine of one unit, and its restart policy. A method
-- that mutates the instance returns the new one; a method that reads the clock takes the moment.
mod Tests
pub mod Backoff
pub mod Lifecycle
pub mod Stops
use oxinit.Prelude.{
  ℕ, zero, suc, ◌+◌, ◌-◌, ◌≡◌, Bool, true, false, ◌&&◌, ◌||◌, not, Option, none, some, ltb, leb,
  ◌==◌, if◌then◌else◌, map_or, min,
}
use oxinit.Text.{Text}
use oxinit.Time.{
  Duration, Instant, from_secs, from_millis, saturating_mul, saturating_add32, elapsed,
}
use oxinit.Unit.{
  UnitDef, Service, service_of, Restart, never, always, on_failure, on_abnormal, ServiceType,
  oneshot, simple, forking, notify,
}

abbrev pub max_backoff : Duration
max_backoff = from_secs 300

pub data State : Type 0 where
  inactive activating active deactivating failed restarting : State

-- How the main process of a service ended. A non-zero status is an `i32`, kept as its 32 bits.
pub data Exit : Type 0 where
  clean : Exit
  status : ℕ → Exit
  abnormal : Exit

unfoldable pub from_status : Option ℕ → Option ℕ → Exit
from_status (some zero) signal = clean
from_status (some (suc c)) signal = status (suc c)
from_status none signal = abnormal

pub data StopCause : Type 0 where
  requested watchdog : StopCause

-- One unit's runtime state. A `Child` is its pid.
pub record Instance : Type 0 where
  pub unit : UnitDef
  pub state : State
  pub child : Option ℕ
  pub restarts : ℕ  -- u32
  pub backoff : Duration
  pub active_since : Option Instant
  pub status_text : Option Text
  pub last_ping : Option Instant
  pub stop_cause : Option StopCause
  pub killed : Bool
  pub reached : Bool

abbrev pub base_backoff : UnitDef → Duration
base_backoff u = map_or (from_millis 100) (λ s. s.restart_sec) (service_of u.kind)

unfoldable pub new : UnitDef → Instance
new u = record {
  unit = u;
  state = inactive;
  child = none;
  restarts = 0;
  backoff = base_backoff u;
  active_since = none;
  status_text = none;
  last_ping = none;
  stop_cause = none;
  killed = false;
  reached = false;
}

unfoldable pub entered_activating : ℕ → Instance → Instance
entered_activating pid i = record i { child = some pid; state = activating }

unfoldable pub failed_to_start : Instance → Instance
failed_to_start i = record i { child = none; active_since = none; state = failed }

unfoldable pub entered_active : Instant → Instance → Instance
entered_active now i = record i {
  reached = true;
  state = active;
  active_since = some now;
  last_ping = some now;
}

unfoldable pub forked_away : Instant → Instance → Instance
unfolding entered_active
forked_away now i = entered_active now (record i { child = none })

unfoldable pub pinged : Instant → Instance → Instance
pinged now i = record i { last_ping = some now }

abbrev pub is_state : State → State → Bool
is_state inactive inactive = true
is_state activating activating = true
is_state active active = true
is_state deactivating deactivating = true
is_state failed failed = true
is_state restarting restarting = true
is_state _ _ = false

unfoldable pub watchdog_expired : Duration → Instant → Instance → Bool
watchdog_expired interval now i =
    is_state i.state active && map_or false (λ last. ltb interval (elapsed last now)) i.last_ping

unfoldable pub entered_deactivating : StopCause → Instance → Instance
entered_deactivating cause i = record i {
  stop_cause = some cause;
  killed = false;
  state = deactivating;
}

unfoldable pub stop_timed_out : Instance → Instance
stop_timed_out i = record i { killed = true }

unfoldable pub cancel_restart : Instance → Instance
cancel_restart i =
    if is_state i.state restarting
    then record i { child = none; active_since = none; state = inactive }
    else i

abbrev pub is_clean : Exit → Bool
is_clean clean = true
is_clean _ = false

-- Whether `policy` restarts after `exit`.
unfoldable pub should_restart : Restart → Exit → Bool
should_restart never _ = false
should_restart always _ = true
should_restart on_failure exit = not (is_clean exit)
should_restart on_abnormal abnormal = true
should_restart on_abnormal _ = false

-- A unit that stayed up longer than its own backoff has its failures forgotten.
forget_failures : Instant → Instance → Instance
forget_failures now i = elim i.active_since [
  | none ↦ i
  | some since ↦
      if ltb i.backoff (elapsed since now)
      then record i { restarts = 0; backoff = base_backoff i.unit }
      else i
]

abbrev policy_of : UnitDef → Restart
policy_of u = map_or never (λ s. s.restart) (service_of u.kind)

-- Apply the restart policy to a unit that has stopped running: the delay, when a restart applies.
unfoldable pub schedule_restart : Exit → Instant → Instance → Instance × Option Duration
unfolding forget_failures should_restart
schedule_restart exit now i =
    let j = record (forget_failures now i) { active_since = none } in
    if should_restart (policy_of i.unit) exit
    then (
      record j {
        restarts = saturating_add32 j.restarts 1;
        backoff = min (saturating_mul j.backoff 2) max_backoff;
        state = restarting;
      },
      some j.backoff,
    )
    else (record j { state = if is_clean exit then inactive else failed }, none)

-- The cgroup emptied, which ends a stop. Both fields that the stop used are taken.
unfoldable pub deactivated : Instant → Instance → Instance × Option Duration
deactivated now i =
    let j = record i { child = none; killed = false; stop_cause = none } in
    let stopped = record j {
      active_since = none;
      status_text = none;
      state = if i.killed then failed else inactive;
    } in
    elim i.stop_cause [
      | some watchdog ↦ schedule_restart abnormal now j
      | some requested ↦ (stopped, none)
      | none ↦ (stopped, none)
    ]

abbrev pub is_type : ServiceType → ServiceType → Bool
is_type simple simple = true
is_type forking forking = true
is_type oneshot oneshot = true
is_type notify notify = true
is_type _ _ = false

-- A `oneshot` never becomes active; its clean exit while activating is its coming up.
unfoldable pub confirm_oneshot : Exit → Instance → Instance
confirm_oneshot exit i =
    let is_oneshot = map_or false (λ s. is_type s.ty oneshot) (service_of i.unit.kind) in
    if is_oneshot && is_state i.state activating && is_clean exit
    then record i { reached = true }
    else i

-- What happens after the main process exits. Mid-stop it does not end the unit.
unfoldable pub on_exit : Exit → Instant → Instance → Instance × Option Duration
on_exit exit now i =
    let j = record i { child = none } in
    if is_state i.state deactivating
    then (j, none)
    else schedule_restart exit now (confirm_oneshot exit j)
