-- ===== src/Alarms/Tests.antt =====
-- Runs of crates/oxinit/src/timer.rs.
use oxinit.Prelude.{◌≡◌, refl, List, [], ◌∷◌}
use oxinit.Text.{codes}
use oxinit.Alarms.{Alarm, Entry, push, expired}
use oxinit.Alarms.Firing.{pushes}

abbrev sample_entries : List Entry
sample_entries =
    record { due = 30; alarm = Alarm.restart (codes "sshd") }
    ∷ record { due = 10; alarm = Alarm.stop_timeout (codes "getty") }
    ∷ record { due = 50; alarm = Alarm.watchdog_check (codes "sshd") }
    ∷ record { due = 10; alarm = Alarm.start_timeout (codes "udevd") }
    ∷ []

fired_in_order :
    (expired 30 (pushes sample_entries [])).0
    ≡ Alarm.stop_timeout (codes "getty")
      ∷ Alarm.start_timeout (codes "udevd")
      ∷ Alarm.restart (codes "sshd")
      ∷ []
unfolding expired pushes push
fired_in_order = refl
