-- ===== src/Events.antt =====
-- crates/oxinit/src/supervisor.rs: the handlers of the event loop. The reaped children, the datagrams
-- and the fired alarms that a handler loops over come as lists.
use oxinit.Prelude.{
  ℕ, Bool, true, false, ◌&&◌, not, Option, none, some, List, [], ◌∷◌, ◌==◌, if◌then◌else◌, is_some,
  map_or, keep, or_option,
}
use oxinit.Text.{Text, str_eq, contains_text}
use oxinit.Table.{Table, lookup}
use oxinit.Time.{Duration}
use oxinit.Unit.{UnitDef, ServiceType, forking, service_of}
use oxinit.Service.{
  Instance, activating, active, deactivating, is_state, is_type, entered_active, failed_to_start,
  deactivated, cancel_restart, Exit, clean, abnormal, from_status, on_exit, forked_away, pinged,
}
use oxinit.Alarms.{Alarm}
use oxinit.Supervisor.{World, Supervisor, is_idle, put, schedule, start}

unfoldable pub holds_pid : ℕ → Instance → Bool
holds_pid pid i = elim i.child [ none ↦ false | some p ↦ p == pid ]

unfoldable pub unit_for_pid : Table Instance → ℕ → Option Text
unit_for_pid [] pid = none
unit_for_pid ((name, i) ∷ m) pid = if holds_pid pid i then some name else unit_for_pid m pid

-- What follows the end of a stop or of a process, by the delay that the policy asked for. On the way
-- down nothing comes back.
unfoldable pub after_policy : World → Text → Instance × Option Duration → Supervisor → Supervisor
after_policy w name (i, none) s = put name i s
after_policy w name (i, some delay) s =
    if is_some s.shutdown
    then put name (cancel_restart i) s
    else schedule w.now delay (Alarm.restart name) (put name i s)

-- A start that an `oxctl restart` asked for is made once the stop is over.
unfoldable pub restart_pending : World → Text → Supervisor → Supervisor
restart_pending w name s =
    if contains_text s.pending_restart name
    then start w name
        (record s { pending_restart = keep (λ n. not (str_eq n name)) s.pending_restart })
    else s

unfoldable pub finish_deactivation : World → Text → Supervisor → Supervisor
finish_deactivation w name s = elim (lookup name s.instances) [
  | none ↦ s
  | some i ↦
      if is_state i.state deactivating
      then restart_pending w name (after_policy w name (deactivated w.now i) s)
      else s
]

-- A `forking` unit's first process exited while the unit was activating.
unfoldable pub forking_parent_exited : World → Text → Exit → Instance → Supervisor → Supervisor
forking_parent_exited w name clean i s =
    put name
      (if w.has_cgroup name && w.populated name then forked_away w.now i else failed_to_start i) s
forking_parent_exited w name _ i s = put name (failed_to_start i) s

abbrev pub is_service_type : ServiceType → UnitDef → Bool
is_service_type ty u = map_or false (λ svc. is_type svc.ty ty) (service_of u.kind)

-- Whether a stop still waits for the cgroup of the unit to empty.
abbrev pub is_waiting : World → Text → Bool
is_waiting w name = w.has_cgroup name && w.populated name

unfoldable pub process_exited : World → Text → Exit → Instance → Supervisor → Supervisor
process_exited w name exit i s =
    if is_state i.state deactivating
    then (let s' = put name (on_exit exit w.now i).0 s in
        if is_waiting w name then s' else finish_deactivation w name s')
    else after_policy w name (on_exit exit w.now i) s

-- One reaped child.
unfoldable pub on_child : World → ℕ → Exit → Supervisor → Supervisor
on_child w pid exit s = elim (unit_for_pid s.instances pid) [
  | none ↦ s
  | some name ↦ elim (lookup name s.instances) [
    | none ↦ s
    | some i ↦
        if is_service_type forking i.unit && is_state i.state activating
        then forking_parent_exited w name exit i s
        else process_exited w name exit i s
  ]
]

pub record Reaped : Type 0 where
  pub pid : ℕ
  pub code : Option ℕ
  pub signal : Option ℕ

unfoldable pub on_sigchld : World → List Reaped → Supervisor → Supervisor
on_sigchld w [] s = s
on_sigchld w (r ∷ rs) s = on_sigchld w rs (on_child w r.pid (from_status r.code r.signal) s)

-- The `populated` key of a unit's cgroup changed, and this is its new value.
unfoldable pub on_cgroup : World → Text → Bool → Supervisor → Supervisor
on_cgroup w name true s = s
on_cgroup w name false s = elim (lookup name s.instances) [
  | none ↦ s
  | some i ↦ elim i.state [
    | deactivating ↦ finish_deactivation w name s
    | active ↦
        if is_some i.child
        then s
        else (let (j, delay) = on_exit abnormal w.now i in
            elim delay [
              | none ↦ put name j s
              | some d ↦ schedule w.now d (Alarm.restart name) (put name j s)
            ])
    | _ ↦ s
  ]
]

pub record Message : Type 0 where
  pub pid : ℕ
  pub ready : Bool
  pub watchdog : Bool
  pub status_line : Option Text

unfoldable pub arm_watchdog : World → Text → Duration → Supervisor → Supervisor
arm_watchdog w name interval s = schedule w.now interval (Alarm.watchdog_check name) s

abbrev pub watchdog_sec_of : Instance → Option Duration
watchdog_sec_of i = elim (service_of i.unit.kind) [ none ↦ none | some svc ↦ svc.watchdog_sec ]

-- The status line and the ping of a message.
unfoldable pub heard : World → Message → Instance → Instance
heard w msg i =
    let told = record i { status_text = or_option msg.status_line i.status_text } in
    if msg.watchdog then pinged w.now told else told

-- The unit said that it is ready.
unfoldable pub became_ready : World → Text → Instance → Supervisor → Supervisor
became_ready w name i s =
    let s' = put name (entered_active w.now i) s in
    elim (watchdog_sec_of i) [ none ↦ s' | some interval ↦ arm_watchdog w name interval s' ]

unfoldable pub on_message : World → Message → Supervisor → Supervisor
on_message w msg s = elim (unit_for_pid s.instances msg.pid) [
  | none ↦ s
  | some name ↦ elim (lookup name s.instances) [
    | none ↦ s
    | some i ↦
        if msg.ready && is_state i.state activating
        then became_ready w name (heard w msg i) s
        else put name (heard w msg i) s
  ]
]

unfoldable pub on_notify : World → List Message → Supervisor → Supervisor
on_notify w [] s = s
on_notify w (msg ∷ msgs) s = on_notify w msgs (on_message w msg s)

abbrev pub is_known_idle : Table Instance → Text → Bool
is_known_idle m name = elim (lookup name m) [ none ↦ false | some i ↦ is_idle i.state ]

-- A connection on a descriptor that this service is to get.
unfoldable pub on_socket : World → Text → Supervisor → Supervisor
on_socket w service s = if is_known_idle s.instances service then start w service s else s
