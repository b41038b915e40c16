-- ===== src/Table.antt =====
-- `BTreeMap<String, V>` and `BTreeSet<String>`: lists kept in the order of their keys, which is the
-- order in which the source iterates over them.
pub mod Sets
use oxinit.Prelude.{
  ◌≡◌, refl, Bool, true, Option, none, some, List, [], ◌∷◌, arith, if◌then◌else◌, map, is_some, not,
  keep,
}
use oxinit.Text.{Text, str_eq, str_lt, str_eq_iff, contains_text}

abbrev pub Table {ℓ} : Type ℓ → Type ℓ
Table V = List (Text × V)

module _ {ℓ} {V : Type ℓ} where
  unfoldable pub lookup : Text → Table V → Option V
  lookup k [] = none
  lookup k ((j, v) ∷ m) = if str_eq j k then some v else lookup k m

  unfoldable pub insert : Text → V → Table V → Table V
  insert k v [] = (k, v) ∷ []
  insert k v ((j, w) ∷ m) =
      let rest = insert k v m in
      if str_eq j k then (k, v) ∷ m else (if str_lt k j then (k, v) ∷ (j, w) ∷ m else (j, w) ∷ rest)

  -- `get_mut(k)` and an assignment through it.
  unfoldable pub modify : Text → (V → V) → Table V → Table V
  modify k f [] = []
  modify k f ((j, v) ∷ m) =
      let rest = modify k f m in if str_eq j k then (j, f v) ∷ m else (j, v) ∷ rest

  abbrev pub contains_key : Text → Table V → Bool
  contains_key k m = is_some (lookup k m)

  abbrev pub keys : Table V → List Text
  keys m = map (λ e. e.0) m

  unfoldable pub remove : Text → Table V → Table V
  remove k m = keep (λ e. not (str_eq e.0 k)) m

  pub lookup-insert :
      (k i : Text) (v : V) (m : Table V)
      → lookup i (insert k v m) ≡ (if str_eq k i then some v else lookup i m)
  unfolding lookup insert
  lookup-insert k i v [] = refl
  lookup-insert k i v ((j, w) ∷ m) =
      ground (arith, str_eq_iff k i, str_eq_iff j k, str_eq_iff j i, lookup-insert k i v m)

  pub lookup-modify :
      (k i : Text) (f : V → V) (m : Table V)
      → lookup i (modify k f m) ≡ (
          if str_eq k i
          then elim (lookup i m) [ none ↦ none | some v ↦ some (f v) ]
          else lookup i m)
  unfolding lookup modify
  lookup-modify k i f [] = ground arith
  lookup-modify k i f ((j, w) ∷ m) =
      ground (arith, str_eq_iff k i, str_eq_iff j k, str_eq_iff j i, lookup-modify k i f m)

  pub keys-modify : (k : Text) (f : V → V) (m : Table V) → keys (modify k f m) ≡ keys m
  unfolding modify
  keys-modify k f [] = refl
  keys-modify k f ((j, w) ∷ m) = ground (arith, keys-modify k f m)

  pub lookup-remove :
      (k i : Text) (m : Table V) → lookup i (remove k m) ≡ (if str_eq k i then none else lookup i m)
  unfolding lookup remove
  lookup-remove k i [] = ground arith
  lookup-remove k i ((j, w) ∷ m) =
      ground (arith, str_eq_iff k i, str_eq_iff j k, str_eq_iff j i, lookup-remove k i m)

-- `BTreeSet<String>::insert`.
unfoldable pub set_insert : Text → List Text → List Text
set_insert k [] = k ∷ []
set_insert k (j ∷ s) =
    let rest = set_insert k s in
    if str_eq j k then j ∷ s else (if str_lt k j then k ∷ j ∷ s else j ∷ rest)

pub contains-set_insert :
    (k i : Text) (s : List Text)
    → contains_text (set_insert k s) i ≡ (if str_eq k i then true else contains_text s i)
unfolding contains_text set_insert
contains-set_insert k i [] = ground arith
contains-set_insert k i (j ∷ s) =
    ground (arith, str_eq_iff k i, str_eq_iff j k, str_eq_iff j i, contains-set_insert k i s)
