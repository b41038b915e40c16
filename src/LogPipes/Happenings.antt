-- ===== src/LogPipes/Happenings.antt =====
-- What happens to the pipes of crates/oxinit/src/logs.rs, and which of them are held and offered.
use oxinit.Prelude.{
  ℕ, ◌≡◌, refl, subst, Bool, true, false, not, Option, none, some, List, [], ◌∷◌, ◌++◌, keep, All,
  append_assoc, In, here, there, arith, if◌then◌else◌, or_option,
}
use oxinit.Text.{Text, str_eq, str_eq_iff}
use oxinit.LogPipes.{Held, Logs, Offer, offer, offer_all, on_shipper, on_shipper_gone, hold, pipe}

-- What happens to the pipes: the log socket is readable, with a connection or none, which epoll takes or
-- not; the shipper is readable; a service starts, which gets a pipe or none.
pub data Happening : Type 0 where
  arrive : (pending : Option ℕ) (registers : Bool) → Happening
  readable : (received : Option ℕ) → Happening
  start : (unit : Text) (made : Option (ℕ × ℕ)) → Happening

-- A shipper that is not there any more has been offered nothing.
abbrev pub since_came : Option ℕ → List Offer → List Offer
since_came none offers = []
since_came (some fd) offers = offers

-- The logs, and what the present shipper has been offered since it came.
unfoldable pub happen : Happening → Logs × List Offer → Logs × List Offer
happen (arrive pending registers) (s, before) =
    let (s', offers) = on_shipper pending registers s in
    (s', since_came s'.shipper (before ++ offers))
happen (readable received) (s, before) =
    let s' = on_shipper_gone received s in (s', since_came s'.shipper before)
happen (start unit made) (s, before) =
    let ((s', _), offers) = pipe unit made s in (s', before ++ offers)

unfoldable pub happen_all : List Happening → Logs × List Offer → Logs × List Offer
unfolding happen
happen_all [] state = state
happen_all (h ∷ hs) state = happen_all hs (happen h state)

-- The read end of the last pipe that was made for a unit.
abbrev pub started : Text → Happening → Option ℕ
started unit (arrive pending registers) = none
started unit (readable received) = none
started unit (start name none) = none
started unit (start name (some (read, write))) = if str_eq name unit then some read else none

abbrev pub last_started : Text → List Happening → Option ℕ
last_started unit [] = none
last_started unit (h ∷ hs) = or_option (last_started unit hs) (started unit h)

abbrev pub held_for : Text → List Held → Option ℕ
held_for unit [] = none
held_for unit (h ∷ hs) = if str_eq h.unit unit then some h.read else held_for unit hs

pub held_for-keep :
    (name unit : Text) (hs : List Held)
    → held_for unit (keep (λ h. not (str_eq h.unit name)) hs)
      ≡ (if str_eq name unit then none else held_for unit hs)
held_for-keep name unit [] = ground arith
held_for-keep name unit (h ∷ hs) = ground (
  arith,
  str_eq_iff name unit,
  str_eq_iff h.unit name,
  str_eq_iff h.unit unit,
  held_for-keep name unit hs,
)

pub held_for-append :
    (unit : Text) (hs : List Held) (h : Held)
    → held_for unit (hs ++ h ∷ [])
      ≡ or_option (held_for unit hs) (if str_eq h.unit unit then some h.read else none)
held_for-append unit [] h = ground arith
held_for-append unit (x ∷ hs) h = ground (arith, held_for-append unit hs h)

pub held_for-hold :
    (name unit : Text) (read : ℕ) (hs : List Held)
    → held_for unit (hold name read hs) ≡ (if str_eq name unit then some read else held_for unit hs)
unfolding hold
held_for-hold name unit read hs = ground (
  arith,
  held_for-keep name unit hs,
  held_for-append unit (keep (λ h. not (str_eq h.unit name)) hs)
      (record { unit = name; read = read }),
)

-- No unit is held twice.
abbrev pub IsUnique : List Held → Type 0
IsUnique [] = Unit
IsUnique (h ∷ hs) = (held_for h.unit hs ≡ none) × IsUnique hs

-- A shipper that is connected has been offered the pipe.
abbrev pub IsOffered : Option ℕ → List Offer → Held → Type 0
IsOffered none offers h = Unit
IsOffered (some fd) offers h = In (record { shipper = fd; unit = h.unit; read = h.read }) offers

pub keep-IsUnique :
    (name : Text) (hs : List Held)
    → IsUnique hs
    → IsUnique (keep (λ h. not (str_eq h.unit name)) hs)
keep-IsUnique name [] u = tt
keep-IsUnique name (h ∷ hs) u =
    ground (arith, keep-IsUnique name hs u.1, held_for-keep name h.unit hs)

pub append-IsUnique :
    (hs : List Held) (h : Held) → IsUnique hs → held_for h.unit hs ≡ none → IsUnique (hs ++ h ∷ [])
append-IsUnique [] h u e = (refl, tt)
append-IsUnique (x ∷ hs) h u e = ground (
  arith,
  append-IsUnique hs h u.1,
  held_for-append x.unit hs h,
  str_eq_iff x.unit h.unit,
  str_eq_iff h.unit x.unit,
)

pub hold-IsUnique :
    (name : Text) (read : ℕ) (hs : List Held) → IsUnique hs → IsUnique (hold name read hs)
unfolding hold
hold-IsUnique name read hs u =
    append-IsUnique (keep (λ h. not (str_eq h.unit name)) hs) (record { unit = name; read = read })
      (keep-IsUnique name hs u) (ground (arith, held_for-keep name name hs, str_eq_iff name name))

pub In-append {ℓ} : {A : Type ℓ} {a : A} {xs : List A} (ys : List A) → In a xs → In a (xs ++ ys)
In-append ys here = here
In-append ys (there i) = there (In-append ys i)

pub In-append_last {ℓ} : {A : Type ℓ} (a : A) (xs : List A) → In a (xs ++ a ∷ [])
In-append_last a [] = here
In-append_last a (x ∷ xs) = there (In-append_last a xs)

pub IsOffered-append :
    (shipper : Option ℕ) (xs ys : List Offer) (h : Held)
    → IsOffered shipper xs h
    → IsOffered shipper (xs ++ ys) h
IsOffered-append none xs ys h o = tt
IsOffered-append (some fd) xs ys h o = In-append ys o

pub IsOffered-keep :
    (shipper : Option ℕ) (xs ys : List Offer) (p : Held → Bool) (hs : List Held)
    → All (IsOffered shipper xs) hs
    → All (IsOffered shipper (xs ++ ys)) (keep p hs)
IsOffered-keep shipper xs ys p [] a = tt
IsOffered-keep shipper xs ys p (h ∷ hs) a =
    kept (p h) (IsOffered-append shipper xs ys h a.0) (IsOffered-keep shipper xs ys p hs a.1)
  where
    kept :
        (b : Bool)
        → IsOffered shipper (xs ++ ys) h
        → All (IsOffered shipper (xs ++ ys)) (keep p hs)
        → All (IsOffered shipper (xs ++ ys)) (if b then h ∷ keep p hs else keep p hs)
    kept true o a' = (o, a')
    kept false o a' = a'

pub IsOffered-last :
    (shipper : Option ℕ) (xs : List Offer) (h : Held)
    → IsOffered shipper (xs ++ offer shipper h.unit h.read) h
unfolding offer
IsOffered-last none xs h = tt
IsOffered-last (some fd) xs h =
    In-append_last (record { shipper = fd; unit = h.unit; read = h.read }) xs

pub In-middle {ℓ} : {A : Type ℓ} (a : A) (xs ys : List A) → In a (xs ++ a ∷ ys)
In-middle a [] ys = here
In-middle a (x ∷ xs) ys = there (In-middle a xs ys)

pub All-append {ℓ κ} :
    {A : Type ℓ} (P : A → Type κ) (xs ys : List A) → All P xs → All P ys → All P (xs ++ ys)
All-append P [] ys a b = b
All-append P (x ∷ xs) ys a b = (a.0, All-append P xs ys a.1 b)

pub offer_all-IsOffered :
    (fd : ℕ) (front : List Offer) (hs : List Held)
    → All (IsOffered (some fd) (front ++ offer_all (some fd) hs)) hs
unfolding offer_all offer
offer_all-IsOffered fd front [] = tt
offer_all-IsOffered fd front (h ∷ hs) =
    let now : Offer = record { shipper = fd; unit = h.unit; read = h.read } in
    (
      In-middle now front (offer_all (some fd) hs),
      subst (λ l. All (IsOffered (some fd) l) hs)
          (append_assoc front (now ∷ []) (offer_all (some fd) hs))
          (offer_all-IsOffered fd (front ++ now ∷ []) hs),
    )

pub All-none : (offers : List Offer) (hs : List Held) → All (IsOffered none offers) hs
All-none offers [] = tt
All-none offers (h ∷ hs) = (tt, All-none offers hs)
