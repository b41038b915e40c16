-- ===== src/Clients.antt =====
-- The control socket: crates/oxinit-ipc/src/lib.rs, `encode` and `decode`, crates/oxinit/src/control.rs,
-- the clients, and `on_connect` and `on_request` of crates/oxinit/src/main.rs. The JSON library, the
-- kernel's answers and the handler of requests are parameters.
pub mod Connected
pub mod Exchange
mod Tests
use oxinit.Prelude.{
  ℕ, ◌+◌, ◌*◌, ◌%◌, ◌^◌, ◌≡◌, Bool, true, false, not, Option, none, some, List, [], ◌∷◌, ◌++◌, leb,
  ltb, length, find, keep, Outcome, ok, err, if◌then◌else◌, ◌==◌,
}
use oxinit.Text.{Text}

-- The largest message either side sends or accepts.
abbrev pub max_message : ℕ
max_message = 64 * 1024

abbrev pub max_clients : ℕ
max_clients = 8

pub data WireError : Type 0 where
  encode_failed : WireError
  too_large : (size limit : ℕ) → WireError

-- A message as JSON, unless it is too large to survive the wire.
unfoldable pub encode {ℓ} : {A : Type ℓ} → (A → Option (List ℕ)) → A → Outcome WireError (List ℕ)
encode to_vec value = elim (to_vec value) [
  | none ↦ err encode_failed
  | some bytes ↦
      if ltb max_message (length bytes)
      then err (too_large (length bytes) max_message)
      else ok bytes
]

pub record Client : Type 0 where
  pub id : ℕ
  pub fd : ℕ

-- The no_clients descriptor is left out: it does not change.
pub record Control : Type 0 where
  pub clients : List Client
  pub next_id : ℕ

abbrev pub no_clients : Control
no_clients = record { clients = []; next_id = 0 }

-- The pending connection, if there is one.
unfoldable pub accept : Option ℕ → Control → Control × Option ℕ
accept none s = (s, none)
accept (some fd) s = if leb max_clients (length s.clients) then (s, none) else (
  record {
    clients = s.clients ++ record { id = s.next_id; fd = fd } ∷ [];
    next_id = (s.next_id + 1) % 2 ^ 32;
  },
  some s.next_id,
)

unfoldable pub client : ℕ → Control → Option Client
client id s = find (λ c. c.id == id) s.clients

unfoldable pub close : ℕ → Control → Control
close id s = record s { clients = keep (λ c. not (c.id == id)) s.clients }

-- A receive fails, or gives the bytes that landed in the buffer and how many were sent.
abbrev pub usable : Option (List ℕ × ℕ) → Option (List ℕ)
usable none = none
usable (some (bytes, sent)) =
    if length bytes == 0 then none else (if ltb max_message sent then none else some bytes)

unfoldable pub recv : ℕ → Option (List ℕ × ℕ) → Control → Option (List ℕ)
recv id received s = elim (client id s) [ none ↦ none | some c ↦ usable received ]

-- What is sent, and to which descriptor.
unfoldable pub reply : ℕ → List ℕ → Control → List (ℕ × List ℕ)
reply id message s = elim (client id s) [ none ↦ [] | some c ↦ (c.fd, message) ∷ [] ]

-- `registers` tells whether epoll takes the new descriptor.
abbrev pub registered : Bool → Control × Option ℕ → Control
registered registers (s, none) = s
registered registers (s, some id) = elim (client id s) [
  | none ↦ close id s
  | some c ↦ if registers then s else close id s
]

unfoldable pub on_connect : Option ℕ → Bool → Control → Control
on_connect pending registers s = registered registers (accept pending s)

-- One request: its answer is sent, if it can be encoded, and the connection is closed.
module _ {ℓ κ μ} {Request : Type ℓ} {Response : Type κ} {S : Type μ}
    (from_slice : List ℕ → Option Request) (to_vec : Response → Option (List ℕ))
    (undecoded : Response) (handle : Request → S → S × Response) where
  unfoldable pub respond : List ℕ → S → S × Response
  respond message s = elim (from_slice message) [
    | none ↦ (s, undecoded)
    | some request ↦ handle request s
  ]

  abbrev pub sent : ℕ → Control → Outcome WireError (List ℕ) → List (ℕ × List ℕ)
  sent id control (err e) = []
  sent id control (ok bytes) = reply id bytes control

  unfoldable pub answer : ℕ → Control → Option (List ℕ) → S → S × List (ℕ × List ℕ)
  unfolding respond encode reply client
  answer id control none s = (s, [])
  answer id control (some message) s =
      let (s', response) = respond message s in (s', sent id control (encode to_vec response))

  unfoldable pub on_request :
      ℕ → Option (List ℕ × ℕ) → Control → S → (Control × S) × List (ℕ × List ℕ)
  unfolding answer recv close
  on_request id received control s =
      let (s', replies) = answer id control (recv id received control) s in
      ((close id control, s'), replies)
