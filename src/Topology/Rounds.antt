-- ===== src/Topology/Rounds.antt =====
-- The invariant of the loop of `topological_order` in crates/oxinit-graph/src/lib.rs, over a fixed set
-- of edges between wanted units, and how the loop ends.
use mathlib.Core.List.{append_assoc}
use oxinit.Prelude.{
  ℕ, suc, ◌≡◌, inl, inr, refl, sym, ap, subst, ◌∙◌, true, false, ◌&&◌, ◌||◌, not, List, [], ◌∷◌,
  ◌++◌, arith, if◌then◌else◌, Bool-cases, ◌==◌,
}
use oxinit.Text.{Text, str_eq, str_eq_iff, str_eq_refl, contains_text}
use oxinit.Table.{Table, contains_key}
use oxinit.Table.Sets.{Distinct, contains-append, contains-snoc}
use oxinit.Topology.{degree_of, successors_of, release, Progress, pop_ready}
use oxinit.Topology.Kahn.{
  before, before-append, before_new, degree_of-release, contains_key-release, contains-release,
  Distinct-release,
}

-- How many of the units `us` are still to start before `v` may, once the units `done` have started.
abbrev pub preds_left : Table (List Text) → List Text → List Text → Text → ℕ
preds_left m [] done v = 0
preds_left m (u ∷ us) done v =
    let rest = preds_left m us done v in
    if contains_text (successors_of m u) v && not (contains_text done u) then suc rest else rest

preds_left-snoc_absent :
    (m : Table (List Text)) (us done : List Text) (name v : Text)
    → contains_text us name ≡ false
    → preds_left m us (done ++ name ∷ []) v ≡ preds_left m us done v
unfolding contains_text
preds_left-snoc_absent m [] done name v h = refl
preds_left-snoc_absent m (u ∷ us) done name v h = ground (
  arith,
  preds_left-snoc_absent m us done name v,
  contains-snoc done name u,
  str_eq_iff u name,
  str_eq_iff name u,
)

preds_left-snoc :
    (m : Table (List Text)) (us done : List Text) (name v : Text)
    → Distinct us
    → contains_text us name ≡ true
    → contains_text done name ≡ false
    → preds_left m us done v ≡ (
        if contains_text (successors_of m name) v
        then suc (preds_left m us (done ++ name ∷ []) v)
        else preds_left m us (done ++ name ∷ []) v)
unfolding contains_text
preds_left-snoc m [] done name v d h k = cc
preds_left-snoc m (u ∷ us) done name v d h k = elim (Bool-cases (str_eq u name)) [
  | inl e ↦
      let same : u ≡ name = (str_eq_iff u name).0 e in
      let tail = preds_left-snoc_absent m us done name v (rw same at d.0) in
      rw same (ground (arith, tail, contains-snoc done name name, str_eq_refl name))
  | inr e ↦ ground (
    arith,
    preds_left-snoc m us done name v d.1,
    contains-snoc done name u,
    str_eq_iff u name,
    str_eq_iff name u,
  )
]

pub preds_left-zero :
    (m : Table (List Text)) (us done : List Text) (u v : Text)
    → preds_left m us done v ≡ 0
    → contains_text us u ≡ true
    → contains_text (successors_of m u) v ≡ true
    → contains_text done u ≡ true
unfolding contains_text
preds_left-zero m [] done u v z h k = cc
preds_left-zero m (w ∷ us) done u v z h k = elim (Bool-cases (str_eq w u)) [
  | inl e ↦
      let same : w ≡ u = (str_eq_iff w u).0 e in
      let z' = subst (λ x. preds_left m (x ∷ us) done v ≡ 0) same z in ground arith
  | inr e ↦ preds_left-zero m us done u v (ground arith) (ground arith) k
]

pub preds_left_done :
    (m : Table (List Text)) (us done : List Text) (v : Text)
    → ((u : Text)
        → contains_text us u ≡ true
        → contains_text (successors_of m u) v ≡ true
        → contains_text done u ≡ true)
    → preds_left m us done v ≡ 0
unfolding contains_text
preds_left_done m [] done v h = refl
preds_left_done m (u ∷ us) done v h =
    ground (arith, preds_left_done m us done v (λ w k l. h w (ground arith) l), h u, str_eq_refl u)

Distinct-head :
    (order ready : List Text) (name : Text)
    → Distinct (order ++ name ∷ ready)
    → contains_text order name ≡ false
unfolding contains_text
Distinct-head [] ready name d = refl
Distinct-head (x ∷ order) ready name d = ground (
  arith,
  Distinct-head order ready name d.1,
  contains-append order (name ∷ ready) x,
  str_eq_iff x name,
  str_eq_iff name x,
)

-- Edges between wanted units only, each set of successors distinct.
pub record AreEdges (m : Table (List Text)) (wanted : List Text) : Type 0 where
  pub wanted_distinct : Distinct wanted
  pub sources :
      (u v : Text) → contains_text (successors_of m u) v ≡ true → contains_text wanted u ≡ true
  pub targets :
      (u v : Text) → contains_text (successors_of m u) v ≡ true → contains_text wanted v ≡ true
  pub sets_distinct : (u : Text) → Distinct (successors_of m u)

-- What holds between two rounds.
pub record Inv (m : Table (List Text)) (wanted : List Text) (p : Progress) : Type 0 where
  pub counted : (v : Text) → degree_of p.remaining v ≡ preds_left m wanted p.order v
  pub known : (v : Text) → contains_key v p.remaining ≡ contains_text wanted v
  pub placed :
      (v : Text)
      → contains_text (p.order ++ p.ready) v
        ≡ (contains_text wanted v && (degree_of p.remaining v == 0))
  pub placed_once : Distinct (p.order ++ p.ready)
  pub ordered :
      (u v : Text)
      → contains_text (successors_of m u) v ≡ true
      → contains_text p.order v ≡ true
      → before u v p.order ≡ true

module _ (m : Table (List Text)) (wanted : List Text) (edges : AreEdges m wanted) where
  open edges use {wanted_distinct, sources, targets, sets_distinct}

  -- One round, on a queue whose first unit is `name`.
  module _ (order ready : List Text) (name : Text) (remaining : Table ℕ)
      (i : Inv m wanted
        (record { order = order; ready = name ∷ ready; remaining = remaining })) where
    open i use {counted, known, placed, placed_once, ordered}

    abbrev nexts : List Text
    nexts = successors_of m name

    moved : (order ++ name ∷ []) ++ ready ≡ order ++ name ∷ ready
    moved = append_assoc order (name ∷ []) ready

    name_placed : contains_text (order ++ name ∷ ready) name ≡ true
    unfolding contains_text
    name_placed = ground (arith, contains-append order (name ∷ ready) name, str_eq_refl name)

    name_wanted : contains_text wanted name ≡ true
    name_wanted = ground (arith, placed name, name_placed)

    name_free : degree_of remaining name ≡ 0
    name_free = ground (arith, placed name, name_placed)

    name_new : contains_text order name ≡ false
    name_new = Distinct-head order ready name placed_once

    released :
        (v : Text)
        → contains_text nexts v ≡ true
        → degree_of remaining v ≡ suc (preds_left m wanted (order ++ name ∷ []) v)
    released v h = ground (
      arith,
      counted v,
      preds_left-snoc m wanted order name v wanted_distinct name_wanted name_new,
    )

    counted' :
        (v : Text)
        → degree_of (release nexts remaining ready).0 v ≡ preds_left m wanted (order ++ name ∷ []) v
    counted' v = ground (
      arith,
      degree_of-release nexts remaining ready v (sets_distinct name),
      counted v,
      preds_left-snoc m wanted order name v wanted_distinct name_wanted name_new,
    )

    old_placed :
        (v : Text)
        → (contains_text (order ++ name ∷ []) v || contains_text ready v)
          ≡ (contains_text wanted v && (degree_of remaining v == 0))
    old_placed v =
        sym (contains-append (order ++ name ∷ []) ready v)
        ∙ ap (λ l. contains_text l v) moved
        ∙ placed v

    placed' :
        (v : Text)
        → contains_text ((order ++ name ∷ []) ++ (release nexts remaining ready).1) v
          ≡ (contains_text wanted v && (degree_of (release nexts remaining ready).0 v == 0))
    placed' v = ground (
      arith,
      contains-append (order ++ name ∷ []) (release nexts remaining ready).1 v,
      contains-release nexts remaining ready v (sets_distinct name),
      degree_of-release nexts remaining ready v (sets_distinct name),
      old_placed v,
      known v,
      released v,
      targets name v,
    )

    placed_once' : Distinct ((order ++ name ∷ []) ++ (release nexts remaining ready).1)
    placed_once' =
        Distinct-release nexts remaining (order ++ name ∷ []) ready (sets_distinct name)
          (subst Distinct (sym moved) placed_once)
          (λ v h.
            contains-append (order ++ name ∷ []) ready v
            ∙ ground (arith, old_placed v, released v h))

    ordered' :
        (u v : Text)
        → contains_text (successors_of m u) v ≡ true
        → contains_text (order ++ name ∷ []) v ≡ true
        → before u v (order ++ name ∷ []) ≡ true
    ordered' u v e h = elim (Bool-cases (contains_text order v)) [
      | inl old ↦ before-append u v order (name ∷ []) (ordered u v e old)
      | inr new ↦
          let same : name ≡ v = ground (arith, contains-snoc order name v, str_eq_iff name v) in
          let none_left : preds_left m wanted order v ≡ 0 =
            sym (counted v) ∙ ap (degree_of remaining) (sym same) ∙ name_free in
          before_new u v order (name ∷ [])
            (preds_left-zero m wanted order u v none_left (sources u v e) e) new
    ]

  pub pop_ready-Inv : (p : Progress) → Inv m wanted p → Inv m wanted (pop_ready m p)
  unfolding pop_ready
  pop_ready-Inv p i = go p.order p.ready p.remaining i
    where
      go :
          (order ready : List Text) (remaining : Table ℕ)
          → Inv m wanted (record { order = order; ready = ready; remaining = remaining })
          → Inv m wanted
              (pop_ready m (record { order = order; ready = ready; remaining = remaining }))
      go order [] remaining i = i
      go order (name ∷ ready) remaining i = record {
        counted = counted' order ready name remaining i;
        known = λ v. contains_key-release (successors_of m name) remaining ready v ∙ i.known v;
        placed = placed' order ready name remaining i;
        placed_once = placed_once' order ready name remaining i;
        ordered = ordered' order ready name remaining i;
      }
