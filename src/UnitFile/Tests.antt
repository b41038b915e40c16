-- ===== src/UnitFile/Tests.antt =====
-- Unit files as the tests of crates/oxinit-unit/src/unit.rs have them, with a reader of TOML and one of
-- addresses that know what these tests need.
use oxinit.Prelude.{◌≡◌, refl, Option, some, none, ok, err, [], ◌∷◌, true, false, Outcome}
use oxinit.Text.{Text, codes, str_eq, contains_text}
use oxinit.Text.Chars.{is_whitespace}
use oxinit.Time.{from_secs}
use oxinit.Timer.{is_empty}
use oxinit.Exec
use oxinit.Exec.{specifier, expand, read_char, finish, split_from, split, check_program}
use oxinit.Unit.{UnitDef, SocketAddr, datagram, notify, simple, Kind, never, console}
use oxinit.UnitFile.{
  RawFile, RawService, RawSocket, RawTimer, user, UnitError, no_kind, multiple_kinds,
  resources_on_non_service, user_in_user_unit, tty_in_user_unit, watchdog_without_notify,
  backlog_on_datagram, empty_schedule, empty_listen, listen_address, default_resources, no_deps,
  validate_name, name_char, check_file, service_user, parse_service, parse_calendar, parse_timer,
  parse_listen, parse_addresses, listening, parse_raw, parse_in,
}

abbrev no_address : Text → Option SocketAddr
no_address t = none

abbrev pipewire : RawService
pipewire = record {
  ty = some notify;
  exec = codes "/usr/bin/pipewire --who %u";
  restart = none;
  restart_sec = none;
  start_sec = none;
  stop_sec = some (from_secs 20);
  watchdog_sec = some (from_secs 30);
  user = none;
  tty = some false;
  output = none;
}

abbrev empty_file : RawFile
empty_file = record {
  unit = none;
  service = none;
  target = false;
  socket = none;
  timer = none;
  resources = none;
}

-- A reader that reads one service, whatever the text.
abbrev reads : RawFile → Text → Outcome Text RawFile
reads raw text = ok raw

abbrev accepted : UnitDef
accepted = record {
  name = codes "pipewire";
  description = codes "pipewire";
  deps = no_deps;
  kind = Kind.service (record {
    ty = notify;
    exec = codes "/usr/bin/pipewire" ∷ codes "--who" ∷ codes "ana" ∷ [];
    restart = never;
    restart_sec = 100_000_000;
    start_sec = from_secs 90;
    stop_sec = from_secs 20;
    watchdog_sec = some (from_secs 30);
    user = codes "ana";
    tty = false;
    output = console;
    resources = default_resources;
  });
}

program : Unit {0}
unfolding parse_in parse_raw parse_service parse_timer parse_calendar parse_listen parse_addresses
    listening check_file validate_name name_char service_user contains_text str_eq is_whitespace
    is_empty Exec.parse expand specifier split split_from read_char finish check_program
program = tt

abbrev parse_user : RawFile → Outcome UnitError UnitDef
parse_user raw =
    parse_in no_address (reads raw) (codes "pipewire") [] (codes "h") (user (codes "ana"))

pipewire_parses : parse_user (record empty_file { service = some pipewire }) ≡ ok accepted
unfolding program
pipewire_parses = refl

refusals :
    (parse_user empty_file ≡ err (no_kind (codes "pipewire")))
    × (parse_user (record empty_file { service = some pipewire; target = true })
        ≡ err (multiple_kinds (codes "pipewire")))
    × (parse_user (record empty_file { target = true; resources = some default_resources })
        ≡ err (resources_on_non_service (codes "pipewire")))
    × (parse_user
          (record empty_file { service = some (record pipewire { user = some (codes "ana") }) })
        ≡ err (user_in_user_unit (codes "pipewire")))
    × (parse_user (record empty_file { service = some (record pipewire { tty = some true }) })
        ≡ err (tty_in_user_unit (codes "pipewire")))
    × (parse_user (record empty_file { service = some (record pipewire { ty = some simple }) })
        ≡ err (watchdog_without_notify (codes "pipewire")))
unfolding program
refusals = (refl, refl, refl, refl, refl, refl)

abbrev socket_file : RawSocket
socket_file = record { listen = []; service = codes "x"; ty = some datagram; backlog = none }

socket_refusals :
    (parse_user (record empty_file { socket = some socket_file })
      ≡ err (empty_listen (codes "pipewire")))
    × (parse_user
          (record empty_file { socket = some (record socket_file { listen = codes "22" ∷ [] }) })
        ≡ err (listen_address (codes "pipewire") (codes "22")))
    × (parse_user (record empty_file {
      socket = some (record socket_file { listen = codes "/run/x" ∷ []; backlog = some 32 });
    })
        ≡ err (backlog_on_datagram (codes "pipewire")))
unfolding program
socket_refusals = (refl, refl, refl)

abbrev no_schedule : RawTimer
no_schedule = record { service = codes "b"; on_boot = none; interval = none; on_calendar = none }

timer_refusal :
    parse_user (record empty_file { timer = some no_schedule })
    ≡ err (empty_schedule (codes "pipewire"))
unfolding program
timer_refusal = refl
