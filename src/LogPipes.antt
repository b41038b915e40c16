-- ===== src/LogPipes.antt =====
-- crates/oxinit/src/logs.rs: the read ends of the services' pipes, and the log shipper that is given
-- them. Descriptors are numbers. What the kernel answers to an accept, a receive and the making of a
-- pipe is an argument; whether an offer is delivered is not known to the source either.
pub mod Happenings
pub mod Offered
mod Tests
use oxinit.Prelude.{
  ℕ, ◌≡◌, Bool, true, false, not, Option, none, some, List, [], ◌∷◌, ◌++◌, map, is_some, keep,
  Outcome, ok, err, if◌then◌else◌, map_or, ◌==◌,
}
use oxinit.Text.{Text, str_eq}

pub record Held : Type 0 where
  pub unit : Text
  pub read : ℕ

pub record Logs : Type 0 where
  pub listener : Option ℕ
  pub shipper : Option ℕ
  pub held : List Held

-- A message to a shipper: the name of a unit, with the read end of its pipe.
pub record Offer : Type 0 where
  pub shipper : ℕ
  pub unit : Text
  pub read : ℕ

pub data LogsError : Type 0 where
  no_log_socket no_pipe : LogsError

abbrev pub bound : ℕ → Logs
bound listener = record { listener = some listener; shipper = none; held = [] }

abbrev pub unavailable : Logs
unavailable = record { listener = none; shipper = none; held = [] }

unfoldable pub offer : Option ℕ → Text → ℕ → List Offer
offer none unit read = []
offer (some shipper) unit read = record { shipper = shipper; unit = unit; read = read } ∷ []

unfoldable pub offer_all : Option ℕ → List Held → List Offer
offer_all shipper [] = []
offer_all shipper (h ∷ hs) = offer shipper h.unit h.read ++ offer_all shipper hs

abbrev take_shipper : ℕ → Logs → (Logs × Bool) × List Offer
take_shipper fd s = ((record s { shipper = some fd }, true), offer_all (some fd) s.held)

-- The pending connection, if there is one; whether there is now a new shipper; and what it is offered.
unfoldable pub accept : Option ℕ → Logs → (Logs × Bool) × List Offer
unfolding offer_all
accept pending s =
    if is_some s.listener
    then elim pending [
      | none ↦ ((s, false), [])
      | some fd ↦ if is_some s.shipper then ((s, false), []) else take_shipper fd s
    ]
    else ((s, false), [])

unfoldable pub disconnect : Logs → Logs
disconnect s = record s { shipper = none }

-- A receive gives a number of bytes, or fails; none at all means that the shipper has closed.
abbrev hung_up : Option ℕ → Bool
hung_up received = map_or false (λ n. n == 0) received

unfoldable pub still_connected : Option ℕ → Logs → Bool
still_connected received s = if is_some s.shipper then not (hung_up received) else false

unfoldable pub hold : Text → ℕ → List Held → List Held
hold unit read hs =
    keep (λ h. not (str_eq h.unit unit)) hs ++ record { unit = unit; read = read } ∷ []

-- A fresh pipe for a unit, its read end and its write end; the write end is the caller's.
unfoldable pub pipe : Text → Option (ℕ × ℕ) → Logs → (Logs × Outcome LogsError ℕ) × List Offer
unfolding hold
pipe unit made s =
    if is_some s.listener
    then elim made [
      | none ↦ ((s, err no_pipe), [])
      | some (read, write) ↦
          ((record s { held = hold unit read s.held }, ok write), offer s.shipper unit read)
    ]
    else ((s, err no_log_socket), [])

-- crates/oxinit/src/main.rs, `on_shipper`: `registers` tells whether epoll takes the connection.
unfoldable pub on_shipper : Option ℕ → Bool → Logs → Logs × List Offer
unfolding accept disconnect
on_shipper pending registers s =
    let ((s', connected), offers) = accept pending s in
    if connected
    then (if registers then (s', offers) else (disconnect s', offers))
    else (s', offers)

-- `on_shipper_gone`, for what a receive gives.
unfoldable pub on_shipper_gone : Option ℕ → Logs → Logs
unfolding still_connected disconnect
on_shipper_gone received s = if still_connected received s then s else disconnect s
