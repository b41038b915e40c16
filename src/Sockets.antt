-- ===== src/Sockets.antt =====
-- crates/oxinit/src/listen.rs, the descriptors that socket units have bound, and `sync_sockets` of
-- crates/oxinit/src/supervisor.rs. A descriptor is its place in the list; whether binding an address
-- works, and whether epoll takes a change, are parameters.
pub mod Synced
mod Tests
use oxinit.Prelude.{
  ℕ, zero, suc, Bool, true, false, ◌&&◌, ◌||◌, not, Option, none, some, List, [], ◌∷◌, ◌++◌, leb,
  if◌then◌else◌, map_or, keep, ◌≡◌,
}
use oxinit.Text.{Text, str_eq}
use oxinit.Time.{u32_max}
use oxinit.Table.{Table, lookup}
use oxinit.Unit.{Socket, Listen}
use oxinit.Service.{Instance}
use oxinit.Supervisor.{is_idle}

-- The descriptor itself is left out: it is never closed.
pub record Bound : Type 0 where
  pub unit : Text
  pub service : Text
  pub address : Listen
  pub armed : Bool

module _ (binds : Listen → Bool) where
  -- What cannot be bound is left out, and the rest is bound all the same.
  unfoldable pub bind_all : Text → Text → List Listen → List Bound
  bind_all unit service [] = []
  bind_all unit service (address ∷ addresses) =
      let rest = bind_all unit service addresses in
      if binds address
      then record { unit = unit; service = service; address = address; armed = false } ∷ rest
      else rest

  unfoldable pub bind : Text → Socket → List Bound → List Bound
  bind unit socket bound = bound ++ bind_all unit socket.service socket.listen

-- `ids`, from place `n` on.
unfoldable pub ids_from : ℕ → List Bound → List (ℕ × Text)
ids_from n [] = []
ids_from n (b ∷ bs) =
    let rest = ids_from (suc n) bs in if leb n u32_max then (n, b.service) ∷ rest else rest

abbrev pub ids : List Bound → List (ℕ × Text)
ids bound = ids_from 0 bound

unfoldable pub get : ℕ → List Bound → Option Bound
get n [] = none
get zero (b ∷ bs) = some b
get (suc n) (b ∷ bs) = get n bs

abbrev pub is_armed : ℕ → List Bound → Bool
is_armed id bound = map_or false (λ b. b.armed) (get id bound)

unfoldable pub set_armed : ℕ → Bool → List Bound → List Bound
set_armed n armed [] = []
set_armed zero armed (b ∷ bs) = record b { armed = armed } ∷ bs
set_armed (suc n) armed (b ∷ bs) = b ∷ set_armed n armed bs

-- The descriptors that a service is handed, with the names they are announced under.
unfoldable pub for_service : Text → List Bound → List Bound
for_service service bound = keep (λ b. str_eq b.service service) bound

abbrev pub same : Bool → Bool → Bool
same true b = b
same false b = not b

-- A descriptor is to be watched exactly while its service is down.
abbrev pub want : Table Instance → Text → Bool
want instances service = map_or false (λ i. is_idle i.state) (lookup service instances)

module _ (epoll_takes : ℕ → Bool → Bool) (instances : Table Instance) where
  unfoldable pub sync_socket : ℕ → Text → List Bound → List Bound
  sync_socket id service bound =
      if same (want instances service) (is_armed id bound)
      then bound
      else (if epoll_takes id (want instances service)
          then set_armed id (want instances service) bound
          else bound)

  unfoldable pub sync_ids : List (ℕ × Text) → List Bound → List Bound
  sync_ids [] bound = bound
  sync_ids ((id, service) ∷ rest) bound = sync_ids rest (sync_socket id service bound)

  unfoldable pub sync_sockets : List Bound → List Bound
  sync_sockets bound = sync_ids (ids bound) bound
