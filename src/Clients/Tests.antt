-- ===== src/Clients/Tests.antt =====
-- A client that asks and is answered.
use oxinit.Prelude.{
  ℕ, zero, suc, ◌+◌, ◌≡◌, ◌≤◌, refl, true, false, Option, none, some, List, [], ◌∷◌, In, here, ok,
  arith, length,
}
use oxinit.Clients.{
  Client, Control, no_clients, max_clients, accept, client, close, on_connect, encode, reply,
  on_request,
}
use oxinit.Clients.Connected.{Visit, connect, leave, take_visit, visits, visits-found}
use oxinit.Clients.Exchange.{on_request-handled, received}

abbrev some_visits : List Visit
some_visits = connect (some 5) true ∷ connect (some 6) true ∷ leave 0 ∷ connect (some 5) false ∷ []

abbrev caller : Client
caller = record { id = 1; fd = 6 }

program : Unit {0}
unfolding visits take_visit on_connect accept client close encode reply on_request
program = tt

present : In caller (visits some_visits no_clients).clients
unfolding program
present = here

visits-found_example :
    (length (visits some_visits no_clients).clients ≤ max_clients)
    × (client 1 (visits some_visits no_clients) ≡ some caller)
visits-found_example = visits-found some_visits caller (omega arith) present

-- Requests are numbers, written as that many ones behind a zero.
abbrev ones : ℕ → List ℕ
ones zero = []
ones (suc n) = 1 ∷ ones n

abbrev count : List ℕ → ℕ
count [] = 0
count (b ∷ bs) = suc (count bs)

abbrev read_count : List ℕ → Option ℕ
read_count [] = none
read_count (b ∷ bs) = some (count bs)

count-ones : (n : ℕ) → count (ones n) ≡ n
count-ones zero = refl
count-ones (suc n) = omega (arith, count-ones n)

reads : (r : ℕ) (json : List ℕ) → some (0 ∷ ones r) ≡ some json → read_count json ≡ some r
reads r [] e = ground arith
reads r (b ∷ bs) e = ground (arith, count-ones r)

abbrev connected : Control
connected = record { clients = caller ∷ []; next_id = 2 }

encoded : encode (λ (r : ℕ). some (0 ∷ ones r)) 2 ≡ ok (0 ∷ 1 ∷ 1 ∷ [])
unfolding program
encoded = refl

found : client 1 connected ≡ some caller
unfolding program
found = refl

on_request-handled_example :
    on_request read_count
      (λ (r : ℕ). some (r ∷ []))
      0
      (λ r s. (s + r, s))
      1
      (received (0 ∷ 1 ∷ 1 ∷ []))
      connected
      40
    ≡ ((record { clients = []; next_id = 2 }, 42), (6, 40 ∷ []) ∷ [])
unfolding close encode
on_request-handled_example =
    on_request-handled read_count (λ (r : ℕ). some (0 ∷ ones r)) (λ (r : ℕ). some (r ∷ [])) 0
      (λ r s. (s + r, s)) 2 (0 ∷ 1 ∷ 1 ∷ []) connected caller 1 40 reads refl encoded found
