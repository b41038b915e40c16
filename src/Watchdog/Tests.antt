-- ===== src/Watchdog/Tests.antt =====
-- Runs of crates/oxinit-watchdog/src/lib.rs: a 60 s watchdog with a boot deadline of 120 s.
use oxinit.Prelude.{◌≡◌, refl, false, none, some, List, [], ◌∷◌, not, ok, err, arith}
use oxinit.Text.{codes}
use oxinit.Time.{from_secs}
use oxinit.Watchdog.{
  Settings, Config, Policy, resolve, resolve_boot, with_boot, new, tick, next_wake, overdue,
  unit_without_boot, opened,
}
use oxinit.Watchdog.Deadline.{Call, ticked, succeeded, denied, calls, boot_verdict}
use oxinit.Watchdog.Feeding.{is_quiet, is_over, next_wake_exact}

abbrev settings : Settings
settings = record {
  device = none;
  timeout_sec = some (from_secs 60);
  boot_unit = some (codes "login");
  boot_sec = some (from_secs 120);
}

abbrev config : Config
config = record {
  device = codes "/dev/watchdog0";
  seconds = 60;
  boot = some (record { unit = codes "login"; within = from_secs 120 });
}

resolve-settings : resolve settings ≡ ok (some config)
unfolding resolve resolve_boot with_boot
resolve-settings = refl

resolve_half : resolve (record settings { boot_sec = none }) ≡ err unit_without_boot
unfolding resolve resolve_boot with_boot
resolve_half = refl

-- The device appears at the second attempt, and the boot never comes up.
abbrev hung_boot : List Call
hung_boot =
    ticked 0 false
    ∷ denied 0
    ∷ ticked (from_secs 30) false
    ∷ succeeded (from_secs 30) (some 60)
    ∷ ticked (from_secs 60) false
    ∷ ticked (from_secs 121) false
    ∷ []

next_wake_exact_example :
    is_quiet (tick (from_secs 200) false (calls hung_boot (new config))).1
    ≡ not (
        is_over
          (next_wake (from_secs 130) (calls hung_boot (new config)))
          (from_secs 130)
          (from_secs 200))
next_wake_exact_example =
    next_wake_exact settings config hung_boot (from_secs 130) (from_secs 200) resolve-settings
      (omega arith)

boot_verdict_example : (calls hung_boot (new config)).boot ≡ overdue
boot_verdict_example =
    boot_verdict config hung_boot (refl, (refl, (refl, (refl, (refl, (refl, tt))))))

abbrev opened_policy : Policy
opened_policy = opened (from_secs 30) (some 60) (new config)
