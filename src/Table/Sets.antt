-- ===== src/Table/Sets.antt =====
-- Lists of texts as sets: membership, distinct elements, sorted lists, and how many elements fit.
use oxinit.Prelude.{
  suc, ◌≤◌, ◌≡◌, inl, inr, refl, sym, ap, subst, true, false, ◌&&◌, ◌||◌, not, List, [], ◌∷◌, ◌++◌,
  arith, length, keep, Bool-cases,
}
use oxinit.Text.{
  Text, str_eq, str_lt, str_eq_iff, str_eq_refl, str_lt_irrefl, str_lt_trans, str_lt_total,
  contains_text,
}
use oxinit.Table.{Table, lookup, insert, keys, contains_key, set_insert}

-- No text stands in the list twice.
abbrev pub Distinct : List Text → Type 0
Distinct [] = Unit
Distinct (x ∷ xs) = (contains_text xs x ≡ false) × Distinct xs

pub contains-append :
    (xs ys : List Text) (v : Text)
    → contains_text (xs ++ ys) v ≡ (contains_text xs v || contains_text ys v)
unfolding contains_text
contains-append [] ys v = refl
contains-append (x ∷ xs) ys v = ground (arith, contains-append xs ys v)

pub contains-singleton : (x v : Text) → contains_text (x ∷ []) v ≡ str_eq x v
unfolding contains_text
contains-singleton x v = ground arith

pub contains-snoc :
    (xs : List Text) (x v : Text)
    → contains_text (xs ++ x ∷ []) v ≡ (contains_text xs v || str_eq x v)
unfolding contains_text
contains-snoc xs x v = ground (arith, contains-append xs (x ∷ []) v)

pub Distinct-snoc :
    (xs : List Text) (x : Text) → Distinct xs → contains_text xs x ≡ false → Distinct (xs ++ x ∷ [])
unfolding contains_text
Distinct-snoc [] x d h = (refl, tt)
Distinct-snoc (y ∷ xs) x d h = (
  ground (arith, contains-snoc xs x y, str_eq_iff y x, str_eq_iff x y, d.0),
  Distinct-snoc xs x d.1 (ground arith),
)

without : Text → List Text → List Text
without k ys = keep (λ y. not (str_eq k y)) ys

contains-without :
    (k v : Text) (ys : List Text)
    → contains_text (without k ys) v ≡ (not (str_eq k v) && contains_text ys v)
unfolding contains_text without
contains-without k v [] = ground arith
contains-without k v (y ∷ ys) =
    ground (arith, contains-without k v ys, str_eq_iff k y, str_eq_iff y v, str_eq_iff k v)

Distinct-without : (k : Text) (ys : List Text) → Distinct ys → Distinct (without k ys)
unfolding without
Distinct-without k [] d = tt
Distinct-without k (y ∷ ys) d = elim (Bool-cases (str_eq k y)) [
  | inl e ↦ rw e (Distinct-without k ys d.1)
  | inr e ↦ rw e (ground (arith, contains-without k y ys, d.0), Distinct-without k ys d.1)
]

without_absent : (k : Text) (ys : List Text) → contains_text ys k ≡ false → without k ys ≡ ys
unfolding contains_text without
without_absent k [] h = refl
without_absent k (y ∷ ys) h = ground (arith, without_absent k ys, str_eq_iff k y, str_eq_iff y k)

length-without :
    (k : Text) (ys : List Text)
    → Distinct ys
    → contains_text ys k ≡ true
    → suc (length (without k ys)) ≡ length ys
unfolding contains_text without
length-without k [] d h = cc
length-without k (y ∷ ys) d h = elim (Bool-cases (str_eq k y)) [
  | inl e ↦
      let same : k ≡ y = (str_eq_iff k y).0 e in
      rw e (ap (λ l. suc (length l)) (without_absent k ys (rw (← same) at d.0)))
  | inr e ↦ rw e (ap suc (length-without k ys d.1 (ground (arith, str_eq_iff k y, str_eq_iff y k))))
]

-- The length of a distinct list is at most that of a list that contains it.
pub length-le_of_subset :
    (xs ys : List Text)
    → Distinct xs
    → Distinct ys
    → ((v : Text) → contains_text xs v ≡ true → contains_text ys v ≡ true)
    → length xs ≤ length ys
unfolding contains_text
length-le_of_subset [] ys d e sub = omega arith
length-le_of_subset (x ∷ xs) ys d e sub =
    let inside : contains_text ys x ≡ true = sub x (rw str_eq_refl) in
    let rest =
      length-le_of_subset xs (without x ys) d.1 (Distinct-without x ys e)
        (λ v h. ground (arith, contains-without x v ys, sub v, str_eq_iff x v, d.0)) in
    omega (arith, rest, length-without x ys e inside)

-- Where the lengths agree, the lists have the same elements.
pub subset_full :
    (xs ys : List Text) (v : Text)
    → Distinct xs
    → Distinct ys
    → ((v : Text) → contains_text xs v ≡ true → contains_text ys v ≡ true)
    → length xs ≡ length ys
    → contains_text ys v ≡ true
    → contains_text xs v ≡ true
subset_full xs ys v d e sub same h = elim (Bool-cases (contains_text xs v)) [
  | inl inside ↦ inside
  | inr outside ↦
      let shorter =
        length-le_of_subset xs (without v ys) d (Distinct-without v ys e)
          (λ w k. ground (arith, contains-without v w ys, sub w, str_eq_iff v w)) in
      absurd (omega (arith, shorter, length-without v ys e h))
]

-- Every text of the list comes after `k`.
abbrev pub Above : Text → List Text → Type 0
Above k [] = Unit
Above k (j ∷ js) = (str_lt k j ≡ true) × Above k js

abbrev pub IsSorted : List Text → Type 0
IsSorted [] = Unit
IsSorted (k ∷ ks) = Above k ks × IsSorted ks

Above-trans : (j k : Text) (ks : List Text) → str_lt j k ≡ true → Above k ks → Above j ks
Above-trans j k [] h a = tt
Above-trans j k (i ∷ is) h a = (str_lt_trans j k i h a.0, Above-trans j k is h a.1)

Above-absent : (k : Text) (ks : List Text) → Above k ks → contains_text ks k ≡ false
unfolding contains_text
Above-absent k [] a = refl
Above-absent k (j ∷ js) a = ground (arith, Above-absent k js a.1, str_eq_iff j k, str_lt_irrefl k)

pub IsSorted-Distinct : (ks : List Text) → IsSorted ks → Distinct ks
IsSorted-Distinct [] s = tt
IsSorted-Distinct (k ∷ ks) s = (Above-absent k ks s.0, IsSorted-Distinct ks s.1)

set_insert-Above :
    (j k : Text) (ks : List Text) → str_lt j k ≡ true → Above j ks → Above j (set_insert k ks)
unfolding set_insert
set_insert-Above j k [] h a = (h, tt)
set_insert-Above j k (i ∷ is) h a = ground (arith, set_insert-Above j k is h a.1)

pub set_insert-IsSorted : (k : Text) (ks : List Text) → IsSorted ks → IsSorted (set_insert k ks)
unfolding set_insert
set_insert-IsSorted k [] s = (tt, tt)
set_insert-IsSorted k (j ∷ js) s = elim (Bool-cases (str_eq j k)) [
  | inl e ↦ rw e s
  | inr e ↦ elim (Bool-cases (str_lt k j)) [
    | inl l ↦ rw (e, l) ((l, Above-trans k j js l s.0), s)
    | inr l ↦
        let jk : str_lt j k ≡ true =
          ground (arith, str_lt_total k j, str_eq_iff k j, str_eq_iff j k) in
        rw (e, l) (set_insert-Above j k js jk s.0, set_insert-IsSorted k js s.1)
  ]
]

module _ {ℓ} {V : Type ℓ} where
  pub contains-keys : (k : Text) (m : Table V) → contains_text (keys m) k ≡ contains_key k m
  unfolding contains_text lookup
  contains-keys k [] = refl
  contains-keys k ((j, v) ∷ m) = ground (arith, contains-keys k m)

  Above-contains :
      (j k : Text) (m : Table V) → Above j (keys m) → contains_key k m ≡ true → str_lt j k ≡ true
  unfolding lookup
  Above-contains j k [] a h = cc
  Above-contains j k ((i, v) ∷ m) a h = ground (arith, Above-contains j k m a.1, str_eq_iff i k)

  -- A write at a key that is there leaves the keys as they are.
  pub keys-insert_present :
      (k : Text) (v : V) (m : Table V)
      → IsSorted (keys m)
      → contains_key k m ≡ true
      → keys (insert k v m) ≡ keys m
  unfolding lookup insert
  keys-insert_present k v [] s h = cc
  keys-insert_present k v ((j, w) ∷ m) s h = elim (Bool-cases (str_eq j k)) [
    | inl e ↦ rw e (ap (λ x. x ∷ keys m) (sym ((str_eq_iff j k).0 e)))
    | inr e ↦
        let there : contains_key k m ≡ true = rw e at h in
        let jk : str_lt j k ≡ true = Above-contains j k m s.0 there in
        let no_swap : str_lt k j ≡ false = ground (arith, str_lt_trans k j k, str_lt_irrefl k) in
        rw (e, no_swap) (ap (λ l. j ∷ l) (keys-insert_present k v m s.1 there))
  ]

  -- `insert` keeps the keys in their order.
  pub keys-insert : (k : Text) (v : V) (m : Table V) → keys (insert k v m) ≡ set_insert k (keys m)
  unfolding insert set_insert
  keys-insert k v [] = refl
  keys-insert k v ((j, w) ∷ m) = ground (arith, keys-insert k v m, str_eq_iff j k)

  pub insert-IsSorted :
      (k : Text) (v : V) (m : Table V) → IsSorted (keys m) → IsSorted (keys (insert k v m))
  insert-IsSorted k v m h =
      subst IsSorted (sym (keys-insert k v m)) (set_insert-IsSorted k (keys m) h)
