-- ===== src/Unit.antt =====
-- crates/oxinit-unit/src/unit.rs, the data: what a unit file says once it is parsed.
pub mod Equality
use oxinit.Prelude.{ℕ, ◌++◌, Bool, Option, none, some, List, ◌∷◌}
use oxinit.Text.{Text, codes}
use oxinit.Time.{Duration}
use oxinit.Timer.{Schedule}

pub record Deps : Type 0 where
  pub requires : List Text
  pub wants : List Text
  pub after : List Text
  pub before : List Text
  pub conflicts : List Text

pub data SizeValue : Type 0 where
  bytes : ℕ → SizeValue
  max_size : SizeValue

-- An absent limit is the kernel's default.
pub record Resources : Type 0 where
  pub memory_max : Option SizeValue
  pub tasks_max : Option ℕ

pub data ServiceType : Type 0 where
  simple forking oneshot notify : ServiceType

pub data Output : Type 0 where
  console log null : Output

pub data Restart : Type 0 where
  never always on_failure on_abnormal : Restart

pub record Service : Type 0 where
  pub ty : ServiceType
  pub exec : List Text
  pub restart : Restart
  pub restart_sec : Duration
  pub start_sec : Duration
  pub stop_sec : Duration
  pub watchdog_sec : Option Duration
  pub user : Text
  pub tty : Bool
  pub output : Output
  pub resources : Resources

pub data SocketType : Type 0 where
  stream datagram seqpacket : SocketType

-- `std::net::SocketAddr`: the octets of the address, and the port.
pub record SocketAddr : Type 0 where
  pub octets : List ℕ
  pub port : ℕ

pub data Listen : Type 0 where
  inet : SocketAddr → Listen
  unix : Text → Listen

pub record Socket : Type 0 where
  pub listen : List Listen
  pub service : Text
  pub ty : SocketType
  pub backlog : ℕ

pub record Timer : Type 0 where
  pub schedule : Schedule
  pub service : Text

pub data Kind : Type 0 where
  service : Service → Kind
  target : Kind
  socket : Socket → Kind
  timer : Timer → Kind

pub record UnitDef : Type 0 where
  pub name : Text
  pub description : Text
  pub deps : Deps
  pub kind : Kind

-- `Unit::service`, `Unit::socket` and `Unit::timer`.
abbrev pub service_of : Kind → Option Service
service_of (service s) = some s
service_of _ = none

abbrev pub socket_of : Kind → Option Socket
socket_of (socket s) = some s
socket_of _ = none

abbrev pub timer_of : Kind → Option Timer
timer_of (timer t) = some t
timer_of _ = none

unfoldable pub suffix : Kind → Text
suffix (service _) = codes "service"
suffix target = codes "target"
suffix (socket _) = codes "socket"
suffix (timer _) = codes "timer"

-- `<name>.<kind>`.
unfoldable pub full_name : UnitDef → Text
unfolding suffix
full_name u = u.name ++ b'.' ∷ suffix u.kind
