-- ===== src/Topology/Kahn.antt =====
-- The loop of `topological_order` in crates/oxinit-graph/src/lib.rs: its invariant, and what it ends in.
use mathlib.Core.List.{append_assoc}
use oxinit.Prelude.{
  ℕ, ◌-◌, ◌≡◌, refl, ◌∙◌, Bool, true, false, ◌&&◌, ◌||◌, List, [], ◌∷◌, ◌++◌, arith, if◌then◌else◌,
  ◌==◌,
}
use oxinit.Text.{Text, str_eq, str_eq_iff, str_eq_refl, contains_text}
use oxinit.Table.{Table, modify, contains_key, lookup-modify}
use oxinit.Table.Sets.{Distinct, contains-snoc, Distinct-snoc}
use oxinit.Topology.{degree_of, release}

-- `u` stands before the first `v` of the list.
abbrev pub before : Text → Text → List Text → Bool
before u v [] = false
before u v (x ∷ xs) = let rest = str_eq x u || before u v xs in if str_eq x v then false else rest

pub before-append :
    (u v : Text) (xs ys : List Text) → before u v xs ≡ true → before u v (xs ++ ys) ≡ true
before-append u v [] ys h = cc
before-append u v (x ∷ xs) ys h = ground (arith, before-append u v xs ys)

pub before_new :
    (u v : Text) (xs ys : List Text)
    → contains_text xs u ≡ true
    → contains_text xs v ≡ false
    → before u v (xs ++ ys) ≡ true
unfolding contains_text
before_new u v [] ys h k = cc
before_new u v (x ∷ xs) ys h k = ground (arith, before_new u v xs ys)

degree_of-modify :
    (k v : Text) (m : Table ℕ)
    → degree_of (modify k (λ d. d - 1) m) v
      ≡ (if str_eq k v then degree_of m v - 1 else degree_of m v)
degree_of-modify k v m = ground (arith, lookup-modify k v (λ d. d - 1) m)

contains_key-modify :
    (k v : Text) (m : Table ℕ) → contains_key v (modify k (λ d. d - 1) m) ≡ contains_key v m
contains_key-modify k v m = ground (arith, lookup-modify k v (λ d. d - 1) m)

pub degree_of-release :
    (nexts : List Text) (m : Table ℕ) (ready : List Text) (v : Text)
    → Distinct nexts
    → degree_of (release nexts m ready).0 v
      ≡ (if contains_text nexts v then degree_of m v - 1 else degree_of m v)
unfolding release contains_text
degree_of-release [] m ready v d = refl
degree_of-release (n ∷ ns) m ready v d =
    let gone = degree_of m n - 1 in
    let m' = modify n (λ k. k - 1) m in
    ground (
      arith,
      degree_of-release ns m' (if contains_key n m && gone == 0 then ready ++ n ∷ [] else ready) v
          d.1,
      degree_of-modify n v m,
      str_eq_iff n v,
      d.0,
    )

pub contains_key-release :
    (nexts : List Text) (m : Table ℕ) (ready : List Text) (v : Text)
    → contains_key v (release nexts m ready).0 ≡ contains_key v m
unfolding release
contains_key-release [] m ready v = refl
contains_key-release (n ∷ ns) m ready v =
    let gone = degree_of m n - 1 in
    contains_key-release ns (modify n (λ k. k - 1) m)
      (if contains_key n m && gone == 0 then ready ++ n ∷ [] else ready) v
    ∙ contains_key-modify n v m

-- What becomes ready: the released units with no predecessor left.
pub contains-release :
    (nexts : List Text) (m : Table ℕ) (ready : List Text) (v : Text)
    → Distinct nexts
    → contains_text (release nexts m ready).1 v ≡ (
        contains_text ready v
        || (contains_text nexts v && (contains_key v m && (degree_of m v - 1 == 0))))
unfolding release contains_text
contains-release [] m ready v d = ground arith
contains-release (n ∷ ns) m ready v d =
    let gone = degree_of m n - 1 in
    let m' = modify n (λ k. k - 1) m in
    ground (
      arith,
      contains-release ns m' (if contains_key n m && gone == 0 then ready ++ n ∷ [] else ready) v
          d.1,
      contains-snoc ready n v,
      degree_of-modify n v m,
      contains_key-modify n v m,
      str_eq_iff n v,
      d.0,
    )

pushed-Distinct :
    (b : Bool) (order ready : List Text) (n : Text)
    → Distinct (order ++ ready)
    → contains_text (order ++ ready) n ≡ false
    → Distinct (order ++ (if b then ready ++ n ∷ [] else ready))
pushed-Distinct true order ready n d h = rw (← append_assoc) (Distinct-snoc (order ++ ready) n d h)
pushed-Distinct false order ready n d h = d

contains_pushed :
    (b : Bool) (order ready : List Text) (n v : Text)
    → contains_text (order ++ ready) v ≡ false
    → str_eq n v ≡ false
    → contains_text (order ++ (if b then ready ++ n ∷ [] else ready)) v ≡ false
contains_pushed true order ready n v h e =
    rw (← append_assoc) (ground (arith, contains-snoc (order ++ ready) n v))
contains_pushed false order ready n v h e = h

pub Distinct-release :
    (nexts : List Text) (m : Table ℕ) (order ready : List Text)
    → Distinct nexts
    → Distinct (order ++ ready)
    → ((v : Text) → contains_text nexts v ≡ true → contains_text (order ++ ready) v ≡ false)
    → Distinct (order ++ (release nexts m ready).1)
unfolding release contains_text
Distinct-release [] m order ready d e new = e
Distinct-release (n ∷ ns) m order ready d e new =
    let b = contains_key n m && (degree_of m n - 1 == 0) in
    Distinct-release ns (modify n (λ k. k - 1) m) order (if b then ready ++ n ∷ [] else ready) d.1
      (pushed-Distinct b order ready n e (new n (rw str_eq_refl)))
      (λ v k.
        contains_pushed b order ready n v (new v (ground arith))
          (ground (arith, str_eq_iff n v, d.0)))
