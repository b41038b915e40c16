-- ===== src/Clients/Connected.antt =====
-- The clients of crates/oxinit/src/control.rs after any connections and requests.
use oxinit.Prelude.{
  ℕ, suc, ◌+◌, ◌%◌, ◌^◌, ◌≡◌, ◌≢◌, ◌≤◌, ◌<◌, Bool, true, false, not, Option, none, some, List, [],
  ◌∷◌, ◌++◌, arith, leb, length, length-append, find, keep, All, In, here, there, subst,
  if◌then◌else◌, ◌==◌, Bool-cases, inl, inr,
}
use oxinit.Clients.{
  Client, Control, no_clients, max_clients, accept, client, registered, close, on_connect,
}

-- A connection, or none, which epoll takes or not; or a request or hang-up, after which the client is
-- forgotten.
pub data Visit : Type 0 where
  connect : (pending : Option ℕ) (registers : Bool) → Visit
  leave : (id : ℕ) → Visit

unfoldable pub take_visit : Visit → Control → Control
take_visit (connect pending registers) s = on_connect pending registers s
take_visit (leave id) s = close id s

unfoldable pub visits : List Visit → Control → Control
unfolding take_visit
visits [] s = s
visits (v ∷ vs) s = visits vs (take_visit v s)

abbrev Below : ℕ → List Client → Type 0
Below n cs = All (λ c. c.id < n) cs

-- No id is given twice.
abbrev pub IsDistinct : List Client → Type 0
IsDistinct [] = Unit
IsDistinct (c ∷ cs) = All (λ d. d.id ≢ c.id) cs × IsDistinct cs

-- Before `n` connections in all, each of which takes the next id.
record IsSound (n : ℕ) (s : Control) : Type 0 where
  few : length s.clients ≤ max_clients
  next : s.next_id ≤ n
  below : Below s.next_id s.clients
  distinct : IsDistinct s.clients

Below-mono : (m n : ℕ) (cs : List Client) → m ≤ n → Below m cs → Below n cs
Below-mono m n [] le b = tt
Below-mono m n (c ∷ cs) le b = (omega arith, Below-mono m n cs le b.1)

keep-All {κ} :
    (P : Client → Type κ) (p : Client → Bool) (cs : List Client) → All P cs → All P (keep p cs)
keep-All P p [] a = tt
keep-All P p (c ∷ cs) a = by (p c) (keep-All P p cs a.1)
  where
    by : (b : Bool) → All P (keep p cs) → All P (if b then c ∷ keep p cs else keep p cs)
    by true r = (a.0, r)
    by false r = r

keep-IsDistinct : (p : Client → Bool) (cs : List Client) → IsDistinct cs → IsDistinct (keep p cs)
keep-IsDistinct p [] d = tt
keep-IsDistinct p (c ∷ cs) d =
    by (p c) (keep-All (λ x. x.id ≢ c.id) p cs d.0) (keep-IsDistinct p cs d.1)
  where
    by :
        (b : Bool)
        → All (λ x. x.id ≢ c.id) (keep p cs)
        → IsDistinct (keep p cs)
        → IsDistinct (if b then c ∷ keep p cs else keep p cs)
    by true a r = (a, r)
    by false a r = r

length-keep : (p : Client → Bool) (cs : List Client) → length (keep p cs) ≤ length cs
length-keep p [] = omega arith
length-keep p (c ∷ cs) = ground (arith, length-keep p cs)

All-snoc {κ} :
    (P : Client → Type κ) (cs : List Client) (c : Client) → All P cs → P c → All P (cs ++ c ∷ [])
All-snoc P [] c a p = (p, tt)
All-snoc P (x ∷ cs) c a p = (a.0, All-snoc P cs c a.1 p)

snoc-IsDistinct :
    (cs : List Client) (c : Client) → IsDistinct cs → Below c.id cs → IsDistinct (cs ++ c ∷ [])
snoc-IsDistinct [] c d b = (tt, tt)
snoc-IsDistinct (x ∷ cs) c d b =
    (All-snoc (λ y. y.id ≢ x.id) cs c d.0 (λ e. omega arith), snoc-IsDistinct cs c d.1 b.1)

close-IsSound : (n id : ℕ) (s : Control) → IsSound n s → IsSound n (close id s)
unfolding close
close-IsSound n id s k = record {
  few = omega (arith, k.few, length-keep (λ c. not (c.id == id)) s.clients);
  next = k.next;
  below = keep-All (λ c. c.id < s.next_id) (λ c. not (c.id == id)) s.clients k.below;
  distinct = keep-IsDistinct (λ c. not (c.id == id)) s.clients k.distinct;
}

accept-IsSound :
    (n : ℕ) (pending : Option ℕ) (s : Control)
    → suc n < 2 ^ 32
    → IsSound n s
    → IsSound (suc n) (accept pending s).0
unfolding accept
accept-IsSound n none s lt k = record {
  few = k.few;
  next = omega (arith, k.next);
  below = k.below;
  distinct = k.distinct;
}
accept-IsSound n (some fd) s lt k = elim (Bool-cases (leb max_clients (length s.clients))) [
  | inl full ↦
      rw full (record {
        few = k.few;
        next = omega (arith, k.next);
        below = k.below;
        distinct = k.distinct;
      })
  | inr room ↦
      let same : (s.next_id + 1) % 2 ^ 32 ≡ suc s.next_id = omega (arith, k.next) in
      let new : Client = record { id = s.next_id; fd = fd } in
      rw (room, same)
        (record {
          few = ground (arith, length-append s.clients (new ∷ []));
          next = omega (arith, k.next);
          below =
              All-snoc (λ c. c.id < suc s.next_id) s.clients new
                (Below-mono s.next_id (suc s.next_id) s.clients (omega arith) k.below)
                (omega arith);
          distinct = snoc-IsDistinct s.clients new k.distinct k.below;
        })
]

IsSound-suc : (n : ℕ) (s : Control) → IsSound n s → IsSound (suc n) s
IsSound-suc n s k = record {
  few = k.few;
  next = omega (arith, k.next);
  below = k.below;
  distinct = k.distinct;
}

take_visit-IsSound :
    (n : ℕ) (v : Visit) (s : Control)
    → suc n < 2 ^ 32
    → IsSound n s
    → IsSound (suc n) (take_visit v s)
unfolding take_visit on_connect
take_visit-IsSound n (leave id) s lt k = IsSound-suc n (close id s) (close-IsSound n id s k)
take_visit-IsSound n (connect pending registers) s lt k =
    taken (accept pending s) (accept-IsSound n pending s lt k)
  where
    forgotten :
        (id : ℕ) (t : Control) (o : Option Client)
        → IsSound (suc n) t
        → IsSound
            (suc n)
            (elim o [ none ↦ close id t | some c ↦ if registers then t else close id t ])
    forgotten id t none k' = close-IsSound (suc n) id t k'
    forgotten id t (some c) k' = elim (Bool-cases registers) [
      | inl r ↦ rw r k'
      | inr r ↦ rw r (close-IsSound (suc n) id t k')
    ]

    taken :
        (r : Control × Option ℕ) → IsSound (suc n) r.0 → IsSound (suc n) (registered registers r)
    taken (t, none) k' = k'
    taken (t, some id) k' = forgotten id t (client id t) k'

visits-IsSound :
    (vs : List Visit) (n : ℕ) (s : Control)
    → n + length vs < 2 ^ 32
    → IsSound n s
    → IsSound (n + length vs) (visits vs s)
unfolding visits
visits-IsSound [] n s lt k = subst (λ m. IsSound m s) (omega arith) k
visits-IsSound (v ∷ vs) n s lt k =
    subst (λ m. IsSound m (visits vs (take_visit v s))) (omega arith)
      (visits-IsSound vs (suc n) (take_visit v s) (omega arith)
        (take_visit-IsSound n v s (omega arith) k))

All-In {κ} : (P : Client → Type κ) (cs : List Client) {c : Client} → All P cs → In c cs → P c
All-In P [] a i = elim i [ ]
All-In P (x ∷ cs) a here = a.0
All-In P (x ∷ cs) a (there i) = All-In P cs a.1 i

find-own :
    (cs : List Client) (c : Client) → IsDistinct cs → In c cs → find (λ d. d.id == c.id) cs ≡ some c
find-own [] c d i = elim i [ ]
find-own (x ∷ cs) c d here = ground arith
find-own (x ∷ cs) c d (there i) =
    let apart = All-In (λ y. y.id ≢ x.id) cs d.0 i in ground (arith, find-own cs c d.1 i)

-- Whoever connects, asks and leaves, there are at most eight clients, and, in less than 2 to the 32
-- of these events, each client is found under its own id: no two of them share one.
pub visits-found :
    (vs : List Visit) (c : Client)
    → length vs < 2 ^ 32
    → In c (visits vs no_clients).clients
    → (length (visits vs no_clients).clients ≤ max_clients)
      × (client c.id (visits vs no_clients) ≡ some c)
unfolding client
visits-found vs c lt i =
    let k =
      visits-IsSound vs 0 no_clients (omega arith)
        (record { few = omega arith; next = omega arith; below = tt; distinct = tt }) in
    (k.few, find-own (visits vs no_clients).clients c k.distinct i)
