-- ===== src/Loop.antt =====
-- crates/oxinit/src/main.rs: the event loop of a machine's PID 1, `on_signals` and `run`. One wake-up
-- handles the events that epoll reports, and then lets the start queue advance. A handler that panics
-- is not modelled, neither is the fallback shell. The log socket is in LogPipes, the control socket in
-- Clients.
mod Tests
pub mod Handlers
pub mod Reloading
pub mod Down
pub mod Ending
use oxinit.Prelude.{Bool, true, false, Option, none, some, List, [], ◌∷◌, if◌then◌else◌}
use oxinit.Text.{Text}
use oxinit.Time.{Instant, Duration}
use oxinit.Supervisor
use oxinit.Supervisor.{
  World, Supervisor, Action, power_off, reboot, halt, begin_shutdown, shutting_down, pump, reached,
}
use oxinit.Events.{Reaped, on_sigchld, on_cgroup, Message, on_notify, on_socket}
use oxinit.Deadlines.{on_timer, on_wall_timer}
use oxinit.Control.{Request, handle}
use oxinit.Cgroup.{Stats}
use oxinit.Load.{Loaded}
use oxinit.Watchdog.{Policy, awaiting}
use oxinit.Watchdog.Device.{Opening, Device, on_tick}

-- The signals that `on_signals` tells apart; SIGUSR2 only prints.
pub data Signal : Type 0 where
  sigchld : List Reaped → Signal
  sigterm sigpwr sigint sigusr1 sigusr2 other : Signal

unfoldable pub on_signal : World → Signal → Supervisor → Supervisor
on_signal w (sigchld reaped) s = on_sigchld w reaped s
on_signal w sigterm s = begin_shutdown w power_off s
on_signal w sigpwr s = begin_shutdown w power_off s
on_signal w sigint s = begin_shutdown w reboot s
on_signal w sigusr1 s = begin_shutdown w halt s
on_signal w sigusr2 s = s
on_signal w other s = s

unfoldable pub on_signals : World → List Signal → Supervisor → Supervisor
on_signals w [] s = s
on_signals w (x ∷ xs) s = on_signals w xs (on_signal w x s)

-- What epoll reports, with what the handler reads from it, from the cgroups and from the directories.
pub data Source : Type 0 where
  signals : List Signal → Source
  timer wall_timer : Source
  notify : List Message → Source
  cgroup : (unit : Text) (populated : Bool) → Source
  socket : (service : Text) → Source
  client : (stats : Text → Stats) (found : Loaded) (request : Request) → Source

unfoldable pub on_source : World → Source → Supervisor → Supervisor
on_source w (signals xs) s = on_signals w xs s
on_source w timer s = on_timer w s
on_source w wall_timer s = on_wall_timer w s
on_source w (notify msgs) s = on_notify w msgs s
on_source w (cgroup name populated) s = on_cgroup w name populated s
on_source w (socket service) s = on_socket w service s
on_source w (client stats found request) s = (handle stats found w request s).0

-- The sources of one wake-up, each with the answers that its handler gets.
unfoldable pub on_sources : List (World × Source) → Supervisor → Supervisor
on_sources [] s = s
on_sources ((w, x) ∷ xs) s = on_sources xs (on_source w x s)

pub record WakeUp : Type 0 where
  pub sources : List (World × Source)
  pub after_sources : World

unfoldable pub wake_up : WakeUp → Supervisor → Supervisor
wake_up k s = pump k.after_sources (on_sources k.sources s)

unfoldable pub run : List WakeUp → Supervisor → Supervisor
run [] s = s
run (k ∷ ks) s = run ks (wake_up k s)

-- The watchdog's turn in a wake-up: whether the unit it waits for has come up.
unfoldable pub booted : Policy → Supervisor → Bool
booted p s = elim (awaiting p) [ none ↦ false | some name ↦ reached name s ]

unfoldable pub feed : Duration → Opening → Supervisor → Device → Device
feed now opening s d = on_tick now (booted d.policy s) (shutting_down s) opening d
