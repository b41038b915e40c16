-- ===== src/Watchdog/Device.antt =====
-- crates/oxinit/src/watchdog.rs: the device, on which the policy is carried out, `tick` and `release`. What
-- opening the device gives is an argument; a write is recorded whether or not the driver takes it.
pub mod Starving
mod Tests
use oxinit.Prelude.{ℕ, Bool, true, false, Option, none, some, List, [], ◌∷◌, ◌++◌, if◌then◌else◌}
use oxinit.Time.{Duration}
use oxinit.Supervisor
use oxinit.Watchdog
use oxinit.Watchdog.{
  Policy, nothing, open_device, pet, begin_shutdown, opened, open_failed, disarm, keep_running,
}

pub data Write : Type 0 where
  keepalive magic_close : Write

pub record Device : Type 0 where
  pub policy : Policy
  pub is_held : Bool
  pub writes : List Write

-- What an attempt to open the device gives: none if it cannot be opened, else the timeout that the
-- driver says it applies, if it says one that a u32 holds.
abbrev pub Opening : Type 0
Opening = Option (Option ℕ)

unfoldable pub open_at : Duration → Opening → Device → Device
open_at now none d = record d { policy = open_failed now d.policy }
open_at now (some applied) d = record d { policy = opened now applied d.policy; is_held = true }

unfoldable pub write_held : Write → Device → Device
write_held byte d = if d.is_held then record d { writes = d.writes ++ byte ∷ [] } else d

abbrev pub carry_out : Watchdog.Action → Duration → Opening → Device → Device
carry_out nothing now opening d = d
carry_out open_device now opening d = open_at now opening d
carry_out pet now opening d = write_held keepalive d

abbrev pub suspended : Bool → Policy → Policy
suspended shutting_down p = if shutting_down then begin_shutdown p else p

-- Once per wake-up of the loop.
unfoldable pub on_tick : (now : Duration) (booted shutting_down : Bool) → Opening → Device → Device
on_tick now booted shutting_down opening d =
    let (p, t) = Watchdog.tick now booted (suspended shutting_down d.policy) in
    carry_out t.action now opening (record d { policy = p })

abbrev pub is_reboot : Supervisor.Action → Bool
is_reboot Supervisor.reboot = true
is_reboot Supervisor.power_off = false
is_reboot Supervisor.halt = false

-- The end of a shutdown: the magic close also closes the device.
abbrev pub let_go : Watchdog.Release → Device → Device
let_go disarm d = record (write_held magic_close d) { is_held = false }
let_go keep_running d = write_held keepalive d

unfoldable pub on_release : Supervisor.Action → Device → Device
on_release action d = let_go (Watchdog.release (is_reboot action)) d
