-- ===== src/Lib.antt =====
-- oxinit, a Linux init: a process manager that runs as PID 1 of a machine, or as the manager of one
-- user's services.
--
-- The parts and how they interact. Unit files are read from several directories and checked
-- (crates/oxinit-unit), and resolved into a start order (crates/oxinit-graph).
-- The supervisor (crates/oxinit/src/supervisor.rs) keeps an instance of every unit, whose states and
-- restart policy are crates/oxinit-service. It starts units through a queue, stops them, and reacts to
-- what the event loop (crates/oxinit/src/main.rs) is woken by: ended processes, emptied cgroups,
-- readiness messages, connections, requests of oxctl, and the deadlines of crates/oxinit/src/timer.rs,
-- among them the schedules of crates/oxinit-timer. The loop also feeds the hardware watchdog, by the
-- policy of crates/oxinit-watchdog. A service runs as a user that crates/oxinit-user looks up. What it
-- writes goes through a pipe to oxlogd (crates/oxlogd), a process of its own, which cuts it into
-- records and keeps them in files that it rotates (crates/oxinit-log).
--
-- Files, what they model, and how:
-- - Prelude, Text, Table, Time: what the other files share. A string is the list of its code points,
--   a `BTreeMap` or `BTreeSet` of strings a list in the order of its keys, a `Duration` a number of
--   nanoseconds, an `Instant` a number of nanoseconds on the monotonic clock.
-- - Timer: crates/oxinit-timer/src/lib.rs, `Calendar` and `Schedule`. Sums on `u64` wrap.
-- - Unit: the data of crates/oxinit-unit/src/unit.rs.
-- - Value, Exec, UnitFile, Load: the rest of crates/oxinit-unit/src, from texts to units: value.rs
--   (`parse_duration`, `parse_size`), exec.rs (`parse`), unit.rs (`parse_in`) and load.rs
--   (`load_dirs_in`). The readers of TOML and of socket addresses are parameters, as are the answers of
--   the file system.
-- - Notify: crates/oxinit-service/src/notify.rs, `parse`, with the reading of UTF-8 as a parameter.
-- - Log: crates/oxinit-log/src/lib.rs, `Splitter`, `record` and `Rotation`. Shipper: the writing of
--   records in crates/oxlogd/src/main.rs, on a table from paths to bytes. Shipper/Serve: the loop over
--   the pipes in the same file, for any way to write a record, with what `poll` and the reads give as
--   values. LogPipes: crates/oxinit/src/logs.rs, the other end, and `on_shipper` and
--   `on_shipper_gone` of crates/oxinit/src/main.rs.
-- - Cgroup: crates/oxinit-cgroup/src/lib.rs, by what it attempts, in order, under a kernel whose
--   answers may depend on all that was attempted before. Cgroups: crates/oxinit/src/cgroup.rs.
-- - Paths: crates/oxinit-paths/src/lib.rs, with the environment as a parameter.
-- - Clients: crates/oxinit-ipc/src/lib.rs, `encode`, the clients of crates/oxinit/src/control.rs, and
--   `on_connect` and `on_request` of crates/oxinit/src/main.rs, for any handler and any JSON.
-- - Users: crates/oxinit-user/src/lib.rs, `resolve` and `name_of`, on the texts of the two files.
-- - Service: crates/oxinit-service/src/lib.rs, `Instance` and its methods. Service/Backoff,
--   Service/Lifecycle and Service/Stops are about restarts, sequences of calls, and stops.
-- - Graph: crates/oxinit-graph/src/lib.rs, `reachable`, `check_conflicts` and `check_sockets`. Topology:
--   the same file, `topological_order`, `find_cycle` and `resolve_from`.
-- - Alarms: the heaps of crates/oxinit/src/timer.rs.
-- - Boot: crates/oxinit/src/supervisor.rs, `Supervisor::load`, from the loaded units on.
-- - Supervisor: the same file, its state, `start`, `stop`, `pump`, `begin_shutdown` and `settled`.
--   Events: its handlers `on_sigchld`, `on_cgroup`, `on_notify` and `on_socket`. Deadlines: `on_timer`
--   and `on_wall_timer`. Control: `handle`, every request, with what the directories hold when it comes.
--   Status: `describe`, and the answers to `list` and `status`. Reload: `reload`, whose answer holds the
--   errors and the names and not their text. Oxctl: the command line of crates/oxctl/src/main.rs.
-- - Sockets: the bound descriptors of crates/oxinit/src/listen.rs, and `sync_sockets` of the supervisor.
-- - Watchdog: crates/oxinit-watchdog/src/lib.rs, `Settings`, from its texts on, and `Policy`.
--   Watchdog/Device: crates/oxinit/src/watchdog.rs, `tick`, `open`, `pet` and `release`.
-- - Loop: crates/oxinit/src/main.rs, `on_signals` and `run`, with the turn of the watchdog.
--
-- What the kernel, the cgroup hierarchy and the log pipes answer while the supervisor handles one event
-- is a `World`, which every theorem takes as any. What is done to processes is a list of effects. One event
-- is handled at one moment.
--
-- Fuel and bounds. The walk of `reachable` has as many steps as there are names that can be
-- pushed, and Kahn's loop and the search for a cycle as many as there are units. The pump has as
-- many rounds as units are queued. That they are enough for the order of units that can be ordered,
-- and for the pump, is among the results. The loop of `parse_duration`
-- and that of the splitter have as many rounds as there are characters or bytes to read, each of
-- which takes one at least.
--
-- Not modelled: what is printed, `report` and the tables of oxctl included; `spawn`, the descriptors
-- and the environment that a process is given, and the signals, which are system calls; creating and
-- binding sockets; where a process is in the cgroup hierarchy, by /proc; the boot around the loading
-- of units, the fallback shell, and the set-up of a user manager; a handler that panics; build tools
-- and probes.
pub mod Prelude
pub mod Text
pub mod Time
pub mod Timer
pub mod Unit
pub mod Value
pub mod Exec
pub mod UnitFile
pub mod Users
pub mod Service
pub mod Graph
pub mod Topology
pub mod Alarms
pub mod Supervisor
pub mod Events
pub mod Deadlines
pub mod Cgroup
pub mod Cgroups
pub mod Clients
pub mod Control
pub mod Status
pub mod Oxctl
pub mod Reload
pub mod Paths
pub mod Sockets
pub mod Boot
pub mod Watchdog
pub mod Load
pub mod Log
pub mod Shipper
pub mod LogPipes
pub mod Loop
pub mod Notify
pub mod Table
