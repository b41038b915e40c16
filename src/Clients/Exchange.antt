-- ===== src/Clients/Exchange.antt =====
-- One request of oxctl and its answer, through both sides of the control socket.
use oxinit.Prelude.{
  ℕ, zero, suc, ◌≡◌, ◌≢◌, ◌≤◌, refl, ap, sym, Option, none, some, List, [], ◌∷◌, arith, ltb, length,
  take, Outcome, ok, err, Bool-cases, inl, inr, Option-cases,
}
use oxinit.Clients.{
  Client, Control, WireError, max_message, encode, client, close, recv, reply, on_request, respond,
  usable, sent,
}

-- What `encode` lets through is not empty, and is not too large to be received whole.
encode-eq-ok {ℓ} :
    {A : Type ℓ} (to_vec : A → Option (List ℕ)) (value : A) (bytes : List ℕ)
    → encode to_vec value ≡ ok bytes
    → (to_vec value ≡ some bytes) × (length bytes ≤ max_message)
unfolding encode
encode-eq-ok to_vec value bytes h = elim (Option-cases (to_vec value)) [
  | inl e ↦ ground arith
  | inr (b, e) ↦ elim (Bool-cases (ltb max_message (length b))) [
    | inl f ↦ ground arith
    | inr f ↦ (ground arith, ground arith)
  ]
]

-- The kernel hands over a message as far as it fits, with its whole length.
abbrev pub received : List ℕ → Option (List ℕ × ℕ)
received bytes = some (take max_message bytes, length bytes)

take-all : (n : ℕ) (bytes : List ℕ) → length bytes ≤ n → take n bytes ≡ bytes
take-all zero [] h = refl
take-all zero (b ∷ bytes) h = ground arith
take-all (suc n) [] h = refl
take-all (suc n) (b ∷ bytes) h = ap (λ l. b ∷ l) (take-all n bytes (omega arith))

usable-whole :
    (landed bytes : List ℕ)
    → landed ≡ bytes
    → length bytes ≤ max_message
    → bytes ≢ []
    → usable (some (landed, length bytes)) ≡ some bytes
usable-whole [] bytes e le n = absurd (n (sym e))
usable-whole (b ∷ landed) [] e le n = absurd (n refl)
usable-whole (b ∷ landed) (d ∷ bytes) e le n = ground arith

recv-received :
    (id : ℕ) (bytes : List ℕ) (control : Control) (c : Client)
    → client id control ≡ some c
    → length bytes ≤ max_message
    → bytes ≢ []
    → recv id (received bytes) control ≡ some bytes
unfolding recv
recv-received id bytes control c e le n =
    rw (e, recv) (usable-whole (take max_message bytes) bytes (take-all max_message bytes le) le n)

module _ {ℓ κ μ} {Request : Type ℓ} {Response : Type κ} {S : Type μ}
    (from_slice : List ℕ → Option Request) (to_vec : Request → Option (List ℕ))
    (answer_to_vec : Response → Option (List ℕ)) (undecoded : Response)
    (handle : Request → S → S × Response) where
  sent-found :
      (id : ℕ) (control : Control) (c : Client) (o : Outcome WireError (List ℕ))
      → client id control ≡ some c
      → sent from_slice answer_to_vec undecoded handle id control o
        ≡ elim o [ err e ↦ [] | ok message ↦ (c.fd, message) ∷ [] ]
  unfolding reply
  sent-found id control c (err e) here = refl
  sent-found id control c (ok message) here = rw (here, reply)

  -- A request that oxctl can send, from a connected client, is handled, exactly once and as it was
  -- meant: the state is the handler's, its answer goes to this client, if it can be encoded, and
  -- nothing else is sent, and the connection is closed. The JSON of a request is read back as the
  -- request, and an empty text is no JSON.
  pub on_request-handled :
      (request : Request) (bytes : List ℕ) (control : Control) (c : Client) (id : ℕ) (s : S)
      → ((r : Request) (json : List ℕ) → to_vec r ≡ some json → from_slice json ≡ some r)
      → from_slice [] ≡ none
      → encode to_vec request ≡ ok bytes
      → client id control ≡ some c
      → on_request from_slice answer_to_vec undecoded handle id (received bytes) control s ≡ (
          let (s', response) = handle request s in
          (
            (close id control, s'),
            elim (encode answer_to_vec response) [ err e ↦ [] | ok message ↦ (c.fd, message) ∷ [] ],
          ))
  unfolding on_request
  on_request-handled request bytes control c id s reads no_empty e here =
      let (json, small) = encode-eq-ok to_vec request bytes e in
      let back = reads request bytes json in
      let full : bytes ≢ [] = λ empty. cc in
      let got = recv-received id bytes control c here small full in
      rw (on_request, got, respond, back)
        (ap (λ replies. ((close id control, (handle request s).0), replies))
          (sent-found id control c (encode answer_to_vec (handle request s).1) here))
