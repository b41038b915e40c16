-- ===== src/Supervisor.antt =====
-- crates/oxinit/src/supervisor.rs: the state of PID 1, and starting and stopping units. One event is
-- handled at one moment, and what the kernel and the other crates answer meanwhile is a `World`.
pub mod Winding
pub mod Conflicts
pub mod Queue
pub mod Ordering
pub mod Spawning
use oxinit.Prelude.{
  ℕ, zero, suc, ◌+◌, ◌-◌, ◌≡◌, Bool, true, false, ◌&&◌, ◌||◌, not, Option, none, some, List, [],
  ◌∷◌, ◌++◌, map, reverse, ltb, leb, ◌==◌, if◌then◌else◌, is_some, map_or, keep, any, all, find,
  length,
}
use oxinit.Text.{Text, str_eq, contains_text}
use oxinit.Table.{Table, lookup, insert, modify, remove, keys, contains_key}
use oxinit.Time.{Duration, Instant, from_secs, from_millis}
use oxinit.Timer.{Next, after, moment, first, next}
use oxinit.Unit.{
  UnitDef, Kind, Service, Resources, Output, console, ServiceType, simple, service_of, timer_of,
  socket_of,
}
use oxinit.Service.{
  Instance, State, inactive, activating, active, deactivating, failed, restarting, is_state,
  is_type, StopCause, requested, watchdog, entered_activating, entered_active, failed_to_start,
  entered_deactivating, deactivated, cancel_restart,
}
use oxinit.Alarms
use oxinit.Alarms.{Alarm, Entry, push}

pub data Action : Type 0 where
  power_off reboot halt : Action

pub record Shutdown : Type 0 where
  pub action : Action
  pub started : Instant

abbrev pub deadline : Duration
deadline = from_secs 90

-- What PID 1 does to processes.
pub data Effect : Type 0 where
  spawned : (unit : Text) (pid : ℕ) → Effect
  terminated : (unit : Text) → Effect
  killed : (unit : Text) → Effect

-- The answers of the kernel, of the cgroup hierarchy and of the log pipes while one event is handled.
pub record World : Type 0 where
  pub now : Instant
  pub unix_now : ℕ
  pub has_cgroup : Text → Bool
  pub populated : Text → Bool
  pub limits_applied : Text → Resources → Bool
  pub output_opened : Text → Output → Bool
  pub spawn : Text → Option ℕ
  pub timer_set : Bool
  pub clock_stepped : Bool

pub record Supervisor : Type 0 where
  pub instances : Table Instance
  pub order : List Text
  pub pending : List Text
  pub pending_restart : List Text
  pub next_elapse : Table Next
  pub shutdown : Option Shutdown
  pub heap : List Entry
  pub wall_heap : List Entry
  pub effects : List Effect

unfoldable pub shutting_down : Supervisor → Bool
shutting_down s = is_some s.shutdown

abbrev pub is_idle : State → Bool
is_idle inactive = true
is_idle failed = true
is_idle _ = false

-- Assign to the instance that is there under this name.
abbrev pub put : Text → Instance → Supervisor → Supervisor
put name i s = record s { instances = modify name (λ _. i) s.instances }

-- `Timers::schedule`; the entry is kept also where setting the timerfd fails.
abbrev pub schedule : Instant → Duration → Alarm → Supervisor → Supervisor
schedule now delay a s = record s { heap = push (record { due = now + delay; alarm = a }) s.heap }

abbrev pub effect : Effect → Supervisor → Supervisor
effect e s = record s { effects = s.effects ++ e ∷ [] }

-- A unit that runs no process stops at once.
unfoldable pub stop_instance : World → Text → StopCause → Instance → Supervisor → Supervisor
stop_instance w name cause i s =
    if is_state i.state restarting
    then put name (cancel_restart i) s
    else elim (service_of i.unit.kind) [
      | none ↦ put name (deactivated w.now (entered_deactivating cause i)).0 s
      | some svc ↦
          if is_idle i.state || is_state i.state deactivating
          then s
          else schedule w.now svc.stop_sec (Alarm.stop_timeout name)
              (effect (terminated name) (put name (entered_deactivating cause i) s))
    ]

unfoldable pub stop : World → Text → StopCause → Supervisor → Supervisor
stop w name cause s =
    let s' = record s { pending = keep (λ queued. not (str_eq queued name)) s.pending } in
    elim (lookup name s.instances) [ none ↦ s' | some i ↦ stop_instance w name cause i s' ]

abbrev pub conflicts_of : Table Instance → Text → List Text
conflicts_of m name = elim (lookup name m) [ none ↦ [] | some i ↦ i.unit.deps.conflicts ]

-- The loop over all instances: one that excludes `name` joins the list.
unfoldable pub add_excluding : Text → Table Instance → List Text → List Text
add_excluding name [] names = names
add_excluding name ((other, i) ∷ m) names =
    let joins = contains_text i.unit.deps.conflicts name && not (contains_text names other) in
    add_excluding name m (if joins then names ++ other ∷ [] else names)

unfoldable pub conflicting_with : Text → Supervisor → List Text
conflicting_with name s = add_excluding name s.instances (conflicts_of s.instances name)

abbrev pub is_busy : Table Instance → Text → Bool
is_busy m name = elim (lookup name m) [ none ↦ false | some i ↦ not (is_idle i.state) ]

-- Stop every one of these units that is not idle.
unfoldable pub stop_busy : World → List Text → Supervisor → Supervisor
stop_busy w [] s = s
stop_busy w (other ∷ others) s =
    stop_busy w others (if is_busy s.instances other then stop w other requested s else s)

-- Schedule a timer unit's next firing, on the clock that its schedule chose.
unfoldable pub arm : World → Text → Option Next → Supervisor → Supervisor
arm w name none s = record s { next_elapse = remove name s.next_elapse }
arm w name (some (after delay)) s =
    let s' = schedule w.now delay (Alarm.timer_elapsed name) s in
    if w.timer_set then record s' { next_elapse = insert name (after delay) s.next_elapse } else s'
arm w name (some (moment t)) s =
    let s' = record s {
      wall_heap = push (record { due = t; alarm = Alarm.timer_elapsed name }) s.wall_heap;
    } in
    if w.timer_set then record s' { next_elapse = insert name (moment t) s.next_elapse } else s'

abbrev pub is_default : Resources → Bool
is_default r = not (is_some r.memory_max) && not (is_some r.tasks_max)

unfoldable pub apply_resources : World → Text → Resources → Bool
apply_resources w name r = is_default r || (w.has_cgroup name && w.limits_applied name r)

abbrev pub output_for : World → Text → Output → Bool
output_for w name console = true
output_for w name other = w.output_opened name other

-- The child was forked.
unfoldable pub service_started : World → Text → Service → Instance → ℕ → Supervisor → Supervisor
service_started w name svc i pid s =
    let j = entered_activating pid i in
    let s' = effect (spawned name pid) s in
    if is_type svc.ty simple
    then put name (entered_active w.now j) s'
    else schedule w.now svc.start_sec (Alarm.start_timeout name) (put name j s')

unfoldable pub start_service : World → Text → Service → Instance → Supervisor → Supervisor
start_service w name svc i s =
    if apply_resources w name svc.resources && output_for w name svc.output
    then elim (w.spawn name) [
      | none ↦ put name (failed_to_start i) s
      | some pid ↦ service_started w name svc i pid s
    ]
    else put name (failed_to_start i) s

unfoldable pub start_instance : World → Text → Instance → Supervisor → Supervisor
start_instance w name i s = elim i.unit.kind [
  | Kind.target ↦ put name (entered_active w.now i) s
  | Kind.timer t ↦ arm w name (first t.schedule w.unix_now) (put name (entered_active w.now i) s)
  | Kind.socket _ ↦ put name (entered_active w.now i) s
  | Kind.service svc ↦ start_service w name svc i s
]

-- The part of `start` after its guard.
unfoldable pub start_now : World → Text → Supervisor → Supervisor
start_now w name s =
    let s' = stop_busy w (conflicting_with name s) s in
    elim (lookup name s'.instances) [ none ↦ s' | some i ↦ start_instance w name i s' ]

unfoldable pub start : World → Text → Supervisor → Supervisor
start w name s = if shutting_down s then s else start_now w name s

-- Whether a unit that this one is `after` holds it back.
abbrev pub holds_back : Supervisor → Text → Bool
holds_back s dep =
    contains_text s.pending dep
    || elim (lookup dep s.instances) [ none ↦ false | some i ↦ is_state i.state activating ]

unfoldable pub ordering_satisfied : Supervisor → Text → Bool
ordering_satisfied s name = elim (lookup name s.instances) [
  | none ↦ false
  | some i ↦ all (λ dep. not (holds_back s dep)) i.unit.deps.after
]

unfoldable pub next_startable : Supervisor → Option Text
next_startable s = find (ordering_satisfied s) s.pending

unfoldable pub failed_requirement : Supervisor → Text → Option Text
failed_requirement s name = elim (lookup name s.instances) [
  | none ↦ none
  | some i ↦
      find
        (λ dep. elim (lookup dep s.instances) [ none ↦ false | some j ↦ is_state j.state failed ])
        i.unit.deps.requires
]

-- One unit of the queue: a failed requirement fails it, and else it starts.
unfoldable pub pump_one : World → Text → Supervisor → Supervisor
pump_one w name s =
    let s' = record s { pending = keep (λ queued. not (str_eq queued name)) s.pending } in
    elim (failed_requirement s' name) [
      | none ↦ start w name s'
      | some _ ↦ record s' { instances = modify name failed_to_start s'.instances }
    ]

-- The loop, on as many rounds as units are queued; a round with nothing startable ends it.
unfoldable pub pump_rounds : ℕ → World → Supervisor → Supervisor
pump_rounds zero w s = s
pump_rounds (suc n) w s = elim (next_startable s) [
  | none ↦ s
  | some name ↦ pump_rounds n w (pump_one w name s)
]

unfoldable pub pump : World → Supervisor → Supervisor
pump w s = if shutting_down s then record s { pending = [] } else pump_rounds (length s.pending) w s

unfoldable pub start_all : World → Supervisor → Supervisor
start_all w s = pump w (record s { pending = s.order })

-- Every unit, those of the resolved order first and in reverse.
unfoldable pub add_missing : List Text → List Text → List Text
add_missing [] names = names
add_missing (k ∷ ks) names =
    add_missing ks (if contains_text names k then names else names ++ k ∷ [])

unfoldable pub stop_order : Supervisor → List Text
stop_order s = add_missing (keys s.instances) (reverse s.order)

unfoldable pub stop_all : World → List Text → Supervisor → Supervisor
stop_all w [] s = s
stop_all w (name ∷ names) s = stop_all w names (stop w name requested s)

unfoldable pub begin_shutdown : World → Action → Supervisor → Supervisor
begin_shutdown w action s =
    if is_some s.shutdown
    then s
    else (let s' = record s { shutdown = some (record { action = action; started = w.now }) } in
        stop_all w (stop_order s') s')

abbrev pub busy_units : Table Instance → List Text
busy_units [] = []
busy_units ((name, i) ∷ m) = if is_idle i.state then busy_units m else name ∷ busy_units m

-- What to do now: the action once all units are idle, or once the deadline has passed.
unfoldable pub settled : Instant → Supervisor → Option Action
settled now s = elim s.shutdown [
  | none ↦ none
  | some sd ↦ elim (busy_units s.instances) [
    | [] ↦ some sd.action
    | _ ∷ _ ↦ if ltb deadline (now - sd.started) then some sd.action else none
  ]
]

-- How long the loop may sleep until the deadline of a shutdown, and ten milliseconds past it.
unfoldable pub wait_bound : Instant → Supervisor → Option Duration
wait_bound now s = elim s.shutdown [
  | none ↦ none
  | some sd ↦ some (deadline - (now - sd.started) + from_millis 10)
]

-- Whether a unit has come up once.
unfoldable pub reached : Text → Supervisor → Bool
reached name s = elim (lookup name s.instances) [ none ↦ false | some i ↦ i.reached ]
