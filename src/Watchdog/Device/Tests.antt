-- ===== src/Watchdog/Device/Tests.antt =====
-- A boot that hangs with the device held, and the shutdown behind it.
use oxinit.Prelude.{◌≡◌, refl, true, false, none, some, List, [], ◌∷◌, ◌++◌, if◌then◌else◌}
use oxinit.Text.{codes}
use oxinit.Time.{from_secs}
use oxinit.Supervisor.{reboot}
use oxinit.Watchdog.{
  new, tick, update_boot, act, due, opened, open_failed, begin_shutdown, overdue, release,
  pet_interval,
}
use oxinit.Watchdog.Device.{Device, open_at, write_held, on_tick, on_release, keepalive}
use oxinit.Watchdog.Device.Starving.{Turn, turns, last_write, overdue_starves}

abbrev fresh : Device
fresh = record {
  policy = new (record {
    device = codes "/dev/watchdog0";
    seconds = 60;
    boot = some (record { unit = codes "login"; within = from_secs 120 });
  });
  is_held = false;
  writes = [];
}

program : Unit {0}
unfolding turns on_tick on_release open_at write_held tick update_boot act due opened open_failed
    begin_shutdown new release pet_interval
program = tt

-- The device opens at once, is fed at 60 s, and the boot is overdue at 121 s.
abbrev hung : List Turn
hung =
    record { now = 0; booted = false; shutting_down = false; opening = some (some 60) }
    ∷ record { now = from_secs 60; booted = false; shutting_down = false; opening = none }
    ∷ record { now = from_secs 121; booted = false; shutting_down = false; opening = none }
    ∷ []

abbrev going_down : List Turn
going_down =
    record { now = from_secs 160; booted = true; shutting_down = true; opening = none } ∷ []

hung-overdue : (turns hung fresh).policy.boot ≡ overdue
unfolding program
hung-overdue = refl

fed_once : (turns hung fresh).writes ≡ keepalive ∷ []
unfolding program
fed_once = refl

overdue_starves_example :
    let e = turns going_down (turns hung fresh) in
    (e.policy.boot ≡ overdue)
    × (e.writes ≡ (turns hung fresh).writes)
    × ((on_release reboot e).writes
        ≡ (turns hung fresh).writes ++ (if e.is_held then last_write reboot ∷ [] else []))
overdue_starves_example = overdue_starves going_down reboot (turns hung fresh) hung-overdue
