-- ===== src/Watchdog/Device/Starving.antt =====
-- The watchdog behind a boot that is overdue: crates/oxinit/src/watchdog.rs.
use oxinit.Prelude.{◌≡◌, refl, Bool, arith, List, [], ◌∷◌, ◌++◌, append_nil, if◌then◌else◌, ◌∙◌}
use oxinit.Time.{Duration}
use oxinit.Supervisor
use oxinit.Watchdog.{overdue, tick, update_boot, act, opened, open_failed, begin_shutdown, release}
use oxinit.Watchdog.Device.{
  Write, keepalive, magic_close, Device, Opening, open_at, write_held, on_tick, on_release,
}

-- A wake-up of the loop, with what the watchdog is told and gets.
pub record Turn : Type 0 where
  pub now : Duration
  pub booted : Bool
  pub shutting_down : Bool
  pub opening : Opening

abbrev pub turn : Turn → Device → Device
turn t d = on_tick t.now t.booted t.shutting_down t.opening d

unfoldable pub turns : List Turn → Device → Device
turns [] d = d
turns (t ∷ ts) d = turns ts (turn t d)

overdue-turn :
    (t : Turn) (d : Device)
    → d.policy.boot ≡ overdue
    → ((turn t d).policy.boot ≡ overdue) × ((turn t d).writes ≡ d.writes)
unfolding on_tick open_at tick update_boot act opened open_failed begin_shutdown
overdue-turn t d o = ground arith

overdue-turns :
    (ts : List Turn) (d : Device)
    → d.policy.boot ≡ overdue
    → ((turns ts d).policy.boot ≡ overdue) × ((turns ts d).writes ≡ d.writes)
unfolding turns
overdue-turns [] d o = (o, refl)
overdue-turns (t ∷ ts) d o =
    let (stays, quiet) = overdue-turn t d o in
    let (last, quiet') = overdue-turns ts (turn t d) stays in (last, quiet' ∙ quiet)

-- What the driver is left with: it is stopped, unless the machine reboots.
abbrev pub last_write : Supervisor.Action → Write
last_write Supervisor.power_off = magic_close
last_write Supervisor.halt = magic_close
last_write Supervisor.reboot = keepalive

on_release-writes :
    (action : Supervisor.Action) (d : Device)
    → (on_release action d).writes ≡ d.writes ++ (if d.is_held then last_write action ∷ [] else [])
unfolding on_release write_held release
on_release-writes Supervisor.power_off d = ground (arith, append_nil d.writes)
on_release-writes Supervisor.halt d = ground (arith, append_nil d.writes)
on_release-writes Supervisor.reboot d = ground (arith, append_nil d.writes)

-- Once the boot deadline has passed, whatever the wake-ups of the loop bring, the verdict stays and none
-- of them writes to the device. If a shutdown then ends, that writes once, and only if the device is held:
-- the magic close before a power-off or a halt, a keepalive before a reboot.
pub overdue_starves :
    (ts : List Turn) (action : Supervisor.Action) (d : Device)
    → d.policy.boot ≡ overdue
    → let e = turns ts d in
      (e.policy.boot ≡ overdue)
      × (e.writes ≡ d.writes)
      × ((on_release action e).writes
          ≡ d.writes ++ (if e.is_held then last_write action ∷ [] else []))
overdue_starves ts action d o =
    let (stays, quiet) = overdue-turns ts d o in
    let written = on_release-writes action (turns ts d) in (stays, quiet, ground arith)
