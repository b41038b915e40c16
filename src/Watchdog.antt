-- ===== src/Watchdog.antt =====
-- crates/oxinit-watchdog/src/lib.rs: the configuration of the hardware watchdog, and the policy that
-- says when to pet it. A method that mutates the policy returns the new one.
mod Tests
pub mod Feeding
pub mod Cmdline
pub mod Deadline
pub mod Device
use oxinit.Prelude.{
  ℕ, zero, suc, ◌+◌, ◌-◌, ◌*◌, ◌/◌, ◌%◌, ◌≡◌, Bool, true, false, ◌&&◌, ◌||◌, not, Option, none,
  some, ltb, leb, ◌==◌, if◌then◌else◌, map_or, min, is_some, or_option, Outcome, ok, err, keep,
}
use oxinit.Text.{Text, codes}
use oxinit.Value.{ValueError}
use oxinit.Time.{Duration, from_secs, as_secs, subsec_nanos}

abbrev pub default_device : Text
default_device = codes "/dev/watchdog0"

abbrev pub unknown_timeout_interval : Duration
unknown_timeout_interval = from_secs 1

abbrev pub max_timeout_secs : ℕ
max_timeout_secs = 2_147_483_647

-- A bad value holds the error itself and not its text.
pub data WatchdogError : Type 0 where
  toml : (origin message : Text) → WatchdogError
  unknown_key : (origin key : Text) → WatchdogError
  value : (origin key : Text) → ValueError → WatchdogError
  timeout boot_without_unit unit_without_boot : WatchdogError

pub record Settings : Type 0 where
  pub device : Option Text
  pub timeout_sec : Option Duration
  pub boot_unit : Option Text
  pub boot_sec : Option Duration

-- How long a boot has to confirm itself, and the unit that confirms it.
pub record Boot : Type 0 where
  pub unit : Text
  pub within : Duration

pub record Config : Type 0 where
  pub device : Text
  pub seconds : ℕ  -- u32
  pub boot : Option Boot

-- The first settings, with what they leave unsaid taken from the second.
unfoldable pub over : Settings → Settings → Settings
over s base = record {
  device = or_option s.device base.device;
  timeout_sec = or_option s.timeout_sec base.timeout_sec;
  boot_unit = or_option s.boot_unit base.boot_unit;
  boot_sec = or_option s.boot_sec base.boot_sec;
}

abbrev non_zero : Option Duration → Option Duration
non_zero none = none
non_zero (some d) = if d == 0 then none else some d

unfoldable pub resolve_boot : Settings → Outcome WatchdogError (Option Boot)
resolve_boot s = elim (non_zero s.boot_sec) [
  | none ↦ elim s.boot_unit [
    | none ↦ ok none
    | some _ ↦ if is_some s.boot_sec then ok none else err unit_without_boot
  ]
  | some d ↦ elim s.boot_unit [
    | none ↦ err boot_without_unit
    | some u ↦ ok (some (record { unit = u; within = d }))
  ]
]

unfoldable pub with_boot :
    Settings
    → Duration
    → Outcome WatchdogError (Option Boot)
    → Outcome WatchdogError (Option Config)
with_boot s d (err e) = err e
with_boot s d (ok b) = ok (
    some (record {
      device = elim s.device [ none ↦ default_device | some path ↦ path ];
      seconds = as_secs d;
      boot = b;
    }))

-- What to run with; `none` is no watchdog. The conversion to u32 cannot fail behind the bound.
unfoldable pub resolve : Settings → Outcome WatchdogError (Option Config)
resolve s = elim s.timeout_sec [
  | none ↦ ok none
  | some d ↦
      if d == 0
      then ok none
      else (if not (subsec_nanos d == 0) || ltb max_timeout_secs (as_secs d)
          then err timeout
          else with_boot s d (resolve_boot s))
]

-- Twice per timeout.
unfoldable pub pet_interval : ℕ → Duration
pet_interval secs = from_secs secs / 2

pub data BootState : Type 0 where
  confirmed pending overdue : BootState

pub data Action : Type 0 where
  nothing open_device pet : Action

pub data Event : Type 0 where
  boot_confirmed boot_overdue : Event

pub record Tick : Type 0 where
  pub action : Action
  pub event : Option Event

pub data Release : Type 0 where
  disarm keep_running : Release

unfoldable pub release : Bool → Release
release true = keep_running
release false = disarm

pub record Policy : Type 0 where
  pub config : Config
  pub boot : BootState
  pub is_open : Bool
  pub interval : Duration
  pub last_pet : Option Duration
  pub last_try : Option Duration
  pub shutting_down : Bool

unfoldable pub new : Config → Policy
new c = record {
  config = c;
  boot = elim c.boot [ none ↦ confirmed | some _ ↦ pending ];
  is_open = false;
  interval = pet_interval c.seconds;
  last_pet = none;
  last_try = none;
  shutting_down = false;
}

abbrev pub is_boot_state : BootState → BootState → Bool
is_boot_state confirmed confirmed = true
is_boot_state pending pending = true
is_boot_state overdue overdue = true
is_boot_state _ _ = false

-- The unit that the boot still waits for.
unfoldable pub awaiting : Policy → Option Text
awaiting p =
    if is_boot_state p.boot pending
    then elim p.config.boot [ none ↦ none | some b ↦ some b.unit ]
    else none

unfoldable pub opened : Duration → Option ℕ → Policy → Policy
opened now (some (suc n)) p = record p {
  is_open = true;
  last_pet = some now;
  interval = pet_interval (suc n);
}
opened now _ p = record p {
  is_open = true;
  last_pet = some now;
  interval = unknown_timeout_interval;
}

unfoldable pub open_failed : Duration → Policy → Policy
open_failed now p = record p { last_try = some now }

unfoldable pub begin_shutdown : Policy → Policy
begin_shutdown p = record p { shutting_down = true }

unfoldable pub due : Policy → Option Duration → Duration → Bool
due p none now = true
due p (some last) now = leb p.interval (now - last)

unfoldable pub update_boot : Duration → Bool → Policy → Policy × Option Event
update_boot now booted p =
    if not (is_boot_state p.boot pending)
    then (p, none)
    else (if booted
        then (record p { boot = confirmed }, some boot_confirmed)
        else elim p.config.boot [
          | none ↦ (p, none)
          | some b ↦
              if not p.shutting_down && leb b.within now
              then (record p { boot = overdue }, some boot_overdue)
              else (p, none)
        ])

-- The decision on the device, recorded as done.
unfoldable pub act : Duration → Policy → Policy × Action
act now p =
    if not p.is_open
    then (if due p p.last_try now
        then (record p { last_try = some now }, open_device)
        else (p, nothing))
    else (if is_boot_state p.boot overdue
        then (p, nothing)
        else (if due p p.last_pet now
            then (record p { last_pet = some now }, pet)
            else (p, nothing)))

unfoldable pub tick : Duration → Bool → Policy → Policy × Tick
tick now booted p =
    let (q, happened) = update_boot now booted p in
    let (r, what) = act now q in (r, record { action = what; event = happened })

unfoldable pub consider : Duration → Duration → Option Duration → Option Duration
consider now moment none = some (moment - now)
consider now moment (some soonest) = some (min soonest (moment - now))

-- The moment at which something that is done once per interval is due again.
abbrev pub again : Policy → Option Duration → Duration → Duration
again p none now = now
again p (some last) now = last + p.interval

unfoldable pub next_device : Duration → Policy → Option Duration
next_device now p =
    if not p.is_open
    then consider now (again p p.last_try now) none
    else (if is_boot_state p.boot overdue then none else consider now (again p p.last_pet now) none)

-- How long the loop may sleep; `none` when nothing will ever be due again.
unfoldable pub next_wake : Duration → Policy → Option Duration
next_wake now p =
    if is_boot_state p.boot pending && not p.shutting_down
    then elim p.config.boot [
      | none ↦ next_device now p
      | some b ↦ consider now b.within (next_device now p)
    ]
    else next_device now p
