-- ===== src/Topology/Build.antt =====
-- Which edges `topological_order` of crates/oxinit-graph/src/lib.rs draws.
use oxinit.Prelude.{
  ◌≡◌, ◌⊎◌, inl, inr, refl, sym, subst, ◌∙◌, Bool, true, false, ◌&&◌, ◌||◌, none, some, List, [],
  ◌∷◌, ◌++◌, arith, Bool-cases, Option-cases, any,
}
use mathlib.Core.Bool.{false≢true}
use oxinit.Text.{Text, str_eq, str_eq_iff, str_eq_refl, contains_text}
use oxinit.Table.{lookup, contains_key, lookup-insert, set_insert, contains-set_insert}
use oxinit.Unit.{UnitDef, socket_of}
use oxinit.Graph.{Units, Warning, socket_named}
use oxinit.Topology.{
  Edges, successors_of, no_edges, edges_of, add_edge, add_after, add_before, add_socket, add_unit,
  add_known, add_units,
}

abbrev pub edge : Edges → Text → Text → Bool
edge es u v = contains_text (successors_of es.successors u) v

pub edge-add_edge :
    (wanted : List Text) (a b : Text) (es : Edges) (u v : Text)
    → edge (add_edge wanted a b es) u v ≡ (
        edge es u v
        || (contains_text wanted u && contains_text wanted v && (str_eq a u && str_eq b v)))
unfolding add_edge
edge-add_edge wanted a b es u v =
    let s = successors_of es.successors a in
    ground (
      arith,
      lookup-insert a u (set_insert b s) es.successors,
      contains-set_insert b v s,
      str_eq_iff a u,
      str_eq_iff b v,
    )

-- The unit is a socket that activates `v`.
abbrev activates : UnitDef → Text → Bool
activates x v = elim (socket_of x.kind) [ none ↦ false | some s ↦ str_eq s.service v ]

-- What the file of `name` says about `u` starting before `v`.
abbrev says : Units → UnitDef → Text → Text → Text → Bool
says units x name u v =
    (str_eq name v && (contains_text x.deps.after u && contains_key u units))
    || (str_eq name u && (contains_text x.deps.before v && contains_key v units))
    || (str_eq name u && activates x v)

abbrev file_says : Units → Text → Text → Text → Bool
file_says units name u v = elim (lookup name units) [
  | none ↦ false
  | some x ↦ says units x name u v
]

module _ (units : Units) (wanted : List Text) where
  edge-add_after :
      (name : Text) (deps : List Text) (es : Edges) (ws : List Warning) (u v : Text)
      → edge (add_after units wanted name deps es ws).0 u v ≡ (
          edge es u v
          || (contains_text wanted u
              && contains_text wanted v
              && (str_eq name v && (contains_text deps u && contains_key u units))))
  unfolding add_after contains_text
  edge-add_after name [] es ws u v = ground arith
  edge-add_after name (dep ∷ deps) es ws u v = elim (Bool-cases (contains_key dep units)) [
    | inl k ↦ ground (
      arith,
      k,
      edge-add_after name deps (add_edge wanted dep name es) ws u v,
      edge-add_edge wanted dep name es u v,
      str_eq_iff dep u,
    )
    | inr k ↦ ground (
      arith,
      k,
      edge-add_after name deps es (ws ++ Warning.missing_ordering name dep ∷ []) u v,
      str_eq_iff dep u,
    )
  ]

  edge-add_before :
      (name : Text) (deps : List Text) (es : Edges) (ws : List Warning) (u v : Text)
      → edge (add_before units wanted name deps es ws).0 u v ≡ (
          edge es u v
          || (contains_text wanted u
              && contains_text wanted v
              && (str_eq name u && (contains_text deps v && contains_key v units))))
  unfolding add_before contains_text
  edge-add_before name [] es ws u v = ground arith
  edge-add_before name (dep ∷ deps) es ws u v = elim (Bool-cases (contains_key dep units)) [
    | inl k ↦ ground (
      arith,
      k,
      edge-add_before name deps (add_edge wanted name dep es) ws u v,
      edge-add_edge wanted name dep es u v,
      str_eq_iff dep v,
    )
    | inr k ↦ ground (
      arith,
      k,
      edge-add_before name deps es (ws ++ Warning.missing_ordering name dep ∷ []) u v,
      str_eq_iff dep v,
    )
  ]

  edge-add_socket :
      (name : Text) (x : UnitDef) (es : Edges) (u v : Text)
      → edge (add_socket units wanted name x es) u v ≡ (
          edge es u v
          || (contains_text wanted u && contains_text wanted v && (str_eq name u && activates x v)))
  unfolding add_socket
  edge-add_socket name x es u v = elim (Option-cases (socket_of x.kind)) [
    | inl e ↦ ground (arith, e)
    | inr (s, e) ↦ ground (arith, e, edge-add_edge wanted name s.service es u v)
  ]

  edge-add_unit :
      (name : Text) (x : UnitDef) (es : Edges) (ws : List Warning) (u v : Text)
      → edge (add_unit units wanted name x es ws).0 u v ≡ (
          edge es u v
          || (contains_text wanted u && contains_text wanted v && says units x name u v))
  unfolding add_unit
  edge-add_unit name x es ws u v =
      let (es', ws') = add_after units wanted name x.deps.after es ws in
      let (es'', ws'') = add_before units wanted name x.deps.before es' ws' in
      ground (
        arith,
        edge-add_after name x.deps.after es ws u v,
        edge-add_before name x.deps.before es' ws' u v,
        edge-add_socket name x es'' u v,
      )

  edge-add_units :
      (names : List Text) (es : Edges) (ws : List Warning) (u v : Text)
      → edge (add_units units wanted names es ws).0 u v ≡ (
          edge es u v
          || (contains_text wanted u
              && contains_text wanted v
              && any (λ name. file_says units name u v) names))
  unfolding add_units add_known
  edge-add_units [] es ws u v = ground arith
  edge-add_units (name ∷ names) es ws u v = elim (Option-cases (lookup name units)) [
    | inl e ↦ ground (arith, e, edge-add_units names es ws u v)
    | inr (x, e) ↦
        let (es', ws') = add_unit units wanted name x es ws in
        ground (arith, e, edge-add_unit name x es ws u v, edge-add_units names es' ws' u v)
  ]

-- The unit files say that `u` starts before `v`: `v` is `after` it, it is `before` `v` (and the unit
-- that is named exists), or it is a socket that activates `v`.
abbrev pub must_precede : Units → Text → Text → Bool
must_precede units u v =
    (contains_text (elim (lookup v units) [ none ↦ [] | some x ↦ x.deps.after ]) u
      && contains_key u units)
    || (contains_text (elim (lookup u units) [ none ↦ [] | some x ↦ x.deps.before ]) v
        && contains_key v units)
    || elim (socket_named units u) [ none ↦ false | some s ↦ str_eq s.service v ]

file_says-must_precede :
    (units : Units) (name u v : Text)
    → file_says units name u v ≡ true
    → must_precede units u v ≡ true
file_says-must_precede units name u v h = ground (arith, str_eq_iff name u, str_eq_iff name v)

file_says_some :
    (units : Units) (u v : Text)
    → must_precede units u v ≡ true
    → (file_says units v u v ≡ true) ⊎ (file_says units u u v ≡ true)
unfolding contains_text
file_says_some units u v h = ground (arith, str_eq_refl u, str_eq_refl v)

any_says-must_precede :
    (units : Units) (names : List Text) (u v : Text)
    → any (λ name. file_says units name u v) names ≡ true
    → must_precede units u v ≡ true
any_says-must_precede units [] u v h = cc
any_says-must_precede units (name ∷ names) u v h = elim (Bool-cases (file_says units name u v)) [
  | inl e ↦ file_says-must_precede units name u v e
  | inr e ↦ any_says-must_precede units names u v (rw e at h)
]

any_says :
    (units : Units) (names : List Text) (name u v : Text)
    → contains_text names name ≡ true
    → file_says units name u v ≡ true
    → any (λ n. file_says units n u v) names ≡ true
unfolding contains_text
any_says units [] name u v h k = cc
any_says units (n ∷ names) name u v h k = elim (Bool-cases (str_eq n name)) [
  | inl e ↦
      let same : n ≡ name = (str_eq_iff n name).0 e in
      let first : file_says units n u v ≡ true =
        subst (λ x. file_says units x u v ≡ true) (sym same) k in
      rw first
  | inr e ↦ let later = any_says units names name u v (rw e at h) k in ground (arith, later)
]

any_says-eq :
    (units : Units) (names : List Text) (u v : Text)
    → (contains_text names u && contains_text names v) ≡ true
    → any (λ n. file_says units n u v) names ≡ must_precede units u v
any_says-eq units names u v w = elim (Bool-cases (must_precede units u v)) [
  | inl h ↦ elim (file_says_some units u v h) [
    | inl k ↦ any_says units names v u v (ground arith) k ∙ sym h
    | inr k ↦ any_says units names u u v (ground arith) k ∙ sym h
  ]
  | inr h ↦ elim (Bool-cases (any (λ n. file_says units n u v) names)) [
    | inl a ↦ absurd (false≢true (sym h ∙ any_says-must_precede units names u v a))
    | inr a ↦ a ∙ sym h
  ]
]

guarded_eq : (e w a m : Bool) → e ≡ (w && a) → (w ≡ true → a ≡ m) → e ≡ (w && m)
guarded_eq e true a m h k = h ∙ k refl
guarded_eq e false a m h k = h

-- The edges drawn are what the files of the wanted units say about wanted units.
pub edge-edges_of :
    (units : Units) (wanted : List Text) (ws : List Warning) (u v : Text)
    → edge (edges_of units wanted ws).0 u v
      ≡ ((contains_text wanted u && contains_text wanted v) && must_precede units u v)
unfolding edges_of lookup contains_text
edge-edges_of units wanted ws u v =
    guarded_eq (edge (edges_of units wanted ws).0 u v)
      (contains_text wanted u && contains_text wanted v) (any (λ n. file_says units n u v) wanted)
      (must_precede units u v) (edge-add_units units wanted wanted (no_edges wanted) ws u v)
      (any_says-eq units wanted u v)
