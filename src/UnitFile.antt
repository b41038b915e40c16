-- ===== src/UnitFile.antt =====
-- crates/oxinit-unit/src/unit.rs, `parse_in`: from the text of a unit file to a unit. The TOML reader
-- (`basic_toml` with `serde`) and the standard library's reader of socket addresses are parameters;
-- the raw records are what the TOML reader is asked for.
pub mod Checks
pub mod WellFormed
mod Tests
use oxinit.Prelude.{
  ℕ, ◌+◌, ◌≡◌, Bool, true, false, ◌&&◌, ◌||◌, not, Option, none, some, List, [], ◌∷◌, ◌++◌, ◌==◌,
  ltb, if◌then◌else◌, Outcome, ok, err, ◌>>=◌, is_some, map_or, find, all,
}
use oxinit.Text.{Text, codes, contains_text}
use oxinit.Text.Chars.{is_alphanumeric}
use oxinit.Time.{Duration, from_secs, from_millis}
use oxinit.Timer.{Schedule, Calendar, CalendarError, is_empty, parse}
use oxinit.Exec
use oxinit.Exec.{ExecError, Specifiers}
use oxinit.Unit.{
  UnitDef, Deps, Timer, Kind, Service, Socket, SocketAddr, SocketType, stream, datagram, seqpacket,
  ServiceType, simple, notify, Listen, inet, unix, Output, console, Restart, never, Resources,
  SizeValue,
}
use oxinit.Service.{is_type}

pub data UnitError : Type 0 where
  toml : (unit message : Text) → UnitError
  exec : (unit : Text) → ExecError → UnitError
  no_kind multiple_kinds empty_listen empty_schedule : (unit : Text) → UnitError
  calendar : (unit : Text) → CalendarError → UnitError
  listen_address : (unit address : Text) → UnitError
  backlog_on_datagram watchdog_without_notify resources_on_non_service : (unit : Text) → UnitError
  requires_and_conflicts : (unit other : Text) → UnitError
  bad_name user_in_user_unit tty_in_user_unit : (unit : Text) → UnitError
  read directory : (path message : Text) → UnitError

pub record RawUnit : Type 0 where
  pub description : Option Text
  pub deps : Deps

pub record RawService : Type 0 where
  pub ty : Option ServiceType
  pub exec : Text
  pub restart : Option Restart
  pub restart_sec : Option Duration
  pub start_sec : Option Duration
  pub stop_sec : Option Duration
  pub watchdog_sec : Option Duration
  pub user : Option Text
  pub tty : Option Bool
  pub output : Option Output

pub record RawSocket : Type 0 where
  pub listen : List Text
  pub service : Text
  pub ty : Option SocketType
  pub backlog : Option ℕ

pub record RawTimer : Type 0 where
  pub service : Text
  pub on_boot : Option Duration
  pub interval : Option Duration
  pub on_calendar : Option Text

-- A target's section holds nothing: it is there or not.
pub record RawFile : Type 0 where
  pub unit : Option RawUnit
  pub service : Option RawService
  pub target : Bool
  pub socket : Option RawSocket
  pub timer : Option RawTimer
  pub resources : Option Resources

pub data Scope : Type 0 where
  system : Scope
  user : (name : Text) → Scope

abbrev pub default_restart_sec : Duration
default_restart_sec = from_millis 100

abbrev pub default_start_sec : Duration
default_start_sec = from_secs 90

abbrev pub default_stop_sec : Duration
default_stop_sec = from_secs 30

abbrev pub default_backlog : ℕ
default_backlog = 128

-- `unwrap_or`.
abbrev pub or_else {ℓ} : {A : Type ℓ} → A → Option A → A
or_else a none = a
or_else a (some b) = b

unfoldable pub name_char : ℕ → Bool
name_char c = is_alphanumeric c || c == b'_' || c == b'.' || c == b'-'

unfoldable pub validate_name : Text → Outcome UnitError (Unit {0})
validate_name [] = err (bad_name [])
validate_name (c ∷ cs) = if all name_char (c ∷ cs) then ok tt else err (bad_name (c ∷ cs))

abbrev pub no_deps : Deps
no_deps = record { requires = []; wants = []; after = []; before = []; conflicts = [] }

-- `raw.unit.unwrap_or_default()`.
abbrev pub meta_of : RawFile → RawUnit
meta_of raw = or_else (record { description = none; deps = no_deps }) raw.unit

abbrev pub required_conflict : Deps → Option Text
required_conflict deps = find (λ r. contains_text deps.conflicts r) deps.requires

abbrev one_if : Bool → ℕ
one_if true = 1
one_if false = 0

abbrev pub sections : RawFile → ℕ
sections raw =
    one_if (is_some raw.service)
    + one_if raw.target
    + one_if (is_some raw.socket)
    + one_if (is_some raw.timer)

-- The guards before the kinds are told apart.
unfoldable pub check_file : Text → RawFile → Outcome UnitError (Unit {0})
check_file name raw = elim (required_conflict (meta_of raw).deps) [
  | some other ↦ err (requires_and_conflicts name other)
  | none ↦
      if sections raw == 0
      then err (no_kind name)
      else (if ltb 1 (sections raw)
          then err (multiple_kinds name)
          else (if not (is_some raw.service) && is_some raw.resources
              then err (resources_on_non_service name)
              else ok tt))
]

-- The user that a service runs as.
unfoldable pub service_user : Scope → Text → RawService → Outcome UnitError Text
service_user system name raw = ok (or_else (codes "root") raw.user)
service_user (user owner) name raw =
    if is_some raw.user
    then err (user_in_user_unit name)
    else (if or_else false raw.tty then err (tty_in_user_unit name) else ok owner)

abbrev exec_error {ℓ} : {A : Type ℓ} → Text → Outcome ExecError A → Outcome UnitError A
exec_error name (err e) = err (UnitError.exec name e)
exec_error name (ok a) = ok a

abbrev pub check_watchdog : Text → ServiceType → Option Duration → Outcome UnitError (Unit {0})
check_watchdog name ty watchdog_sec =
    if is_some watchdog_sec && not (is_type ty notify)
    then err (watchdog_without_notify name)
    else ok tt

abbrev pub default_resources : Resources
default_resources = record { memory_max = none; tasks_max = none }

abbrev pub specifiers : (name hostname run_as : Text) → Specifiers
specifiers name hostname run_as = record {
  name = name;
  full_name = name ++ codes ".service";
  hostname = hostname;
  user = run_as;
}

unfoldable pub parse_service :
    Scope → Text → Text → Option Resources → RawService → Outcome UnitError Service
parse_service scope name hostname resources raw = do
  run_as ← service_user scope name raw
  argv ← exec_error name (Exec.parse raw.exec (specifiers name hostname run_as))
  checked ← check_watchdog name (or_else simple raw.ty) raw.watchdog_sec
  ok (record {
    ty = or_else simple raw.ty;
    exec = argv;
    restart = or_else never raw.restart;
    restart_sec = or_else default_restart_sec raw.restart_sec;
    start_sec = or_else default_start_sec raw.start_sec;
    stop_sec = or_else default_stop_sec raw.stop_sec;
    watchdog_sec = raw.watchdog_sec;
    user = run_as;
    tty = or_else false raw.tty;
    output = or_else console raw.output;
    resources = or_else default_resources resources;
  })

abbrev pub is_datagram : SocketType → Bool
is_datagram datagram = true
is_datagram _ = false

abbrev starts_slash : Text → Bool
starts_slash [] = false
starts_slash (c ∷ cs) = c == b'/'

abbrev calendar_error : Text → Outcome CalendarError Calendar → Outcome UnitError (Option Calendar)
calendar_error name (err e) = err (UnitError.calendar name e)
calendar_error name (ok c) = ok (some c)

unfoldable pub parse_calendar : Text → Option Text → Outcome UnitError (Option Calendar)
parse_calendar name none = ok none
parse_calendar name (some text) = calendar_error name (parse text)

abbrev schedule_of : RawTimer → Option Calendar → Schedule
schedule_of raw c = record { on_boot = raw.on_boot; interval = raw.interval; calendar = c }

unfoldable pub parse_timer : Text → RawTimer → Outcome UnitError Timer
parse_timer name raw = do
  c ← parse_calendar name raw.on_calendar
  (if is_empty (schedule_of raw c)
      then err (empty_schedule name)
      else ok (record { schedule = schedule_of raw c; service = raw.service }))

abbrev pub toml_error : Text → Outcome Text RawFile → Outcome UnitError RawFile
toml_error name (err message) = err (toml name message)
toml_error name (ok raw) = ok raw

module _ (socket_addr : Text → Option SocketAddr) where
  unfoldable pub parse_listen : Text → Option Listen
  parse_listen address =
      if starts_slash address
      then some (unix address)
      else elim (socket_addr address) [ none ↦ none | some a ↦ some (inet a) ]

  -- The first address that cannot be read is the error.
  unfoldable pub parse_addresses : Text → List Text → Outcome UnitError (List Listen)
  parse_addresses name [] = ok []
  parse_addresses name (address ∷ addresses) =
      let rest = parse_addresses name addresses in
      elim (parse_listen address) [
        | none ↦ err (listen_address name address)
        | some l ↦ rest >>= λ ls. ok (l ∷ ls)
      ]

  -- The socket that listens on these addresses.
  unfoldable pub listening : Text → RawSocket → List Text → Outcome UnitError Socket
  listening name raw [] = err (empty_listen name)
  listening name raw (address ∷ addresses) =
      if is_some raw.backlog && is_datagram (or_else stream raw.ty)
      then err (backlog_on_datagram name)
      else (parse_addresses name (address ∷ addresses) >>= λ listen. ok (record {
        listen = listen;
        service = raw.service;
        ty = or_else stream raw.ty;
        backlog = or_else default_backlog raw.backlog;
      }))

  abbrev pub parse_socket : Text → RawSocket → Outcome UnitError Socket
  parse_socket name raw = listening name raw raw.listen

  abbrev pub kind_of :
      Scope
      → Text
      → Text
      → Option Resources
      → Option RawService
      → Option RawSocket
      → Option RawTimer
      → Outcome UnitError Kind
  kind_of scope name hostname resources (some service) none none =
      parse_service scope name hostname resources service >>= λ s. ok (Kind.service s)
  kind_of scope name hostname resources none (some socket) none =
      parse_socket name socket >>= λ s. ok (Kind.socket s)
  kind_of scope name hostname resources none none (some timer) =
      parse_timer name timer >>= λ t. ok (Kind.timer t)
  kind_of scope name hostname resources _ _ _ = ok Kind.target

  unfoldable pub parse_raw : Scope → Text → Text → RawFile → Outcome UnitError UnitDef
  parse_raw scope name hostname raw = do
    checked ← check_file name raw
    kind ← kind_of scope name hostname raw.resources raw.service raw.socket raw.timer
    ok (record {
      name = name;
      description = or_else name (meta_of raw).description;
      deps = (meta_of raw).deps;
      kind = kind;
    })

  unfoldable pub parse_in :
      (Text → Outcome Text RawFile) → Text → Text → Text → Scope → Outcome UnitError UnitDef
  parse_in from_toml name text hostname scope = do
    checked ← validate_name name
    raw ← toml_error name (from_toml text)
    parse_raw scope name hostname raw
