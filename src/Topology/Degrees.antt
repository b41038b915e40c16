-- ===== src/Topology/Degrees.antt =====
-- The in-degrees that `topological_order` of crates/oxinit-graph/src/lib.rs keeps beside its edges,
-- and that the loop starts in its invariant.
use oxinit.Prelude.{
  ℕ, suc, ◌+◌, ◌≡◌, inl, inr, refl, sym, ap, subst, ◌∙◌, Bool, true, false, ◌&&◌, Option, none,
  some, List, [], ◌∷◌, arith, if◌then◌else◌, Bool-cases, ◌==◌,
}
use mathlib.Core.Bool.{false≢true}
use oxinit.Text.{Text, str_eq, str_eq_iff, str_eq_refl, contains_text}
use oxinit.Table.{
  Table, lookup, insert, contains_key, keys, lookup-insert, set_insert, contains-set_insert,
}
use oxinit.Table.Sets.{
  Distinct, IsSorted, IsSorted-Distinct, set_insert-IsSorted, keys-insert_present, contains-keys,
}
use oxinit.Unit.{UnitDef, Socket, socket_of}
use oxinit.Graph.{Units, Warning}
use oxinit.Topology.{
  Edges, successors_of, degree_of, no_edges, edges_of, add_edge, add_after, add_before, add_socket,
  add_unit, add_known, add_units, free, start_progress,
}
use oxinit.Topology.Build.{edge, edge-edges_of, must_precede}
use oxinit.Topology.Rounds.{AreEdges, Inv, preds_left}

preds_left-insert_absent :
    (m : Table (List Text)) (s us : List Text) (a v : Text)
    → contains_text us a ≡ false
    → preds_left (insert a s m) us [] v ≡ preds_left m us [] v
unfolding contains_text
preds_left-insert_absent m s [] a v h = refl
preds_left-insert_absent m s (u ∷ us) a v h = ground (
  arith,
  preds_left-insert_absent m s us a v,
  lookup-insert a u s m,
  str_eq_iff u a,
  str_eq_iff a u,
)

-- One new edge is one more predecessor for its target, and for no other unit.
preds_left-insert :
    (m : Table (List Text)) (us : List Text) (a b v : Text)
    → Distinct us
    → contains_text us a ≡ true
    → contains_text (successors_of m a) b ≡ false
    → preds_left (insert a (set_insert b (successors_of m a)) m) us [] v
      ≡ (if str_eq b v then suc (preds_left m us [] v) else preds_left m us [] v)
unfolding contains_text
preds_left-insert m [] a b v d h k = cc
preds_left-insert m (u ∷ us) a b v d h k =
    let s = set_insert b (successors_of m a) in
    elim (Bool-cases (str_eq u a)) [
      | inl e ↦
          let same : u ≡ a = (str_eq_iff u a).0 e in
          let tail = preds_left-insert_absent m s us a v (rw same at d.0) in
          rw same (
            ground (
              arith,
              tail,
              lookup-insert a a s m,
              str_eq_refl a,
              contains-set_insert b v (successors_of m a),
              str_eq_iff b v,
            ))
      | inr e ↦ ground (
        arith,
        preds_left-insert m us a b v d.1,
        lookup-insert a u s m,
        str_eq_iff u a,
        str_eq_iff a u,
      )
    ]

-- What holds of the edges while they are drawn.
record Kept (wanted : List Text) (es : Edges) : Type 0 where
  pub sorted_sets : (u : Text) → IsSorted (successors_of es.successors u)
  pub same_keys : keys es.in_degree ≡ wanted
  pub counted : (v : Text) → degree_of es.in_degree v ≡ preds_left es.successors wanted [] v

new_edge-Kept :
    (wanted : List Text) (a b : Text) (es : Edges)
    → IsSorted wanted
    → contains_text wanted a ≡ true
    → contains_text wanted b ≡ true
    → contains_text (successors_of es.successors a) b ≡ false
    → Kept wanted es
    → Kept wanted (record {
      successors = insert a (set_insert b (successors_of es.successors a)) es.successors;
      in_degree = insert b (degree_of es.in_degree b + 1) es.in_degree;
    })
new_edge-Kept wanted a b es sorted wa wb new k =
    let s = set_insert b (successors_of es.successors a) in
    record {
      sorted_sets = λ u. elim (Bool-cases (str_eq a u)) [
        | inl e ↦
            let at_u : successors_of (insert a s es.successors) u ≡ s =
              ground (arith, lookup-insert a u s es.successors) in
            rw at_u (set_insert-IsSorted b (successors_of es.successors a) (k.sorted_sets a))
        | inr e ↦
            let at_u : successors_of (insert a s es.successors) u ≡ successors_of es.successors u =
              ground (arith, lookup-insert a u s es.successors) in
            rw at_u (k.sorted_sets u)
      ];
      same_keys =
          let sorted_keys = subst IsSorted (sym k.same_keys) sorted in
          let there =
            sym (contains-keys b es.in_degree) ∙ ap (λ l. contains_text l b) k.same_keys ∙ wb in
          keys-insert_present b (degree_of es.in_degree b + 1) es.in_degree sorted_keys there
          ∙ k.same_keys;
      counted = λ v. ground (
        arith,
        lookup-insert b v (degree_of es.in_degree b + 1) es.in_degree,
        str_eq_iff b v,
        k.counted v,
        preds_left-insert es.successors wanted a b v (IsSorted-Distinct wanted sorted) wa new,
      );
    }

add_edge-Kept :
    (wanted : List Text) (a b : Text) (es : Edges)
    → IsSorted wanted
    → Kept wanted es
    → Kept wanted (add_edge wanted a b es)
unfolding add_edge
add_edge-Kept wanted a b es sorted k =
    elim (Bool-cases (contains_text wanted a && contains_text wanted b)) [
      | inl w ↦ elim (Bool-cases (contains_text (successors_of es.successors a) b)) [
        | inl old ↦ rw (w, old) k
        | inr new ↦
            rw (w, new) (new_edge-Kept wanted a b es sorted (ground arith) (ground arith) new k)
      ]
      | inr w ↦ rw w k
    ]

if-Kept :
    (b : Bool) (wanted : List Text) (es es' : Edges)
    → Kept wanted es
    → Kept wanted es'
    → Kept wanted (if b then es' else es)
if-Kept true wanted es es' k k' = k'
if-Kept false wanted es es' k k' = k

both : (a b m : Bool) → ((a && b) && m) ≡ true → (a ≡ true) × (b ≡ true)
both a b m h = ground arith

module _ (units : Units) (wanted : List Text) (sorted : IsSorted wanted) where
  add_after-Kept :
      (name : Text) (deps : List Text) (es : Edges) (ws : List Warning)
      → Kept wanted es
      → Kept wanted (add_after units wanted name deps es ws).0
  unfolding add_after
  add_after-Kept name [] es ws k = k
  add_after-Kept name (dep ∷ deps) es ws k =
      add_after-Kept name deps _ _
        (if-Kept (contains_key dep units) wanted es _ k (add_edge-Kept wanted dep name es sorted k))

  add_before-Kept :
      (name : Text) (deps : List Text) (es : Edges) (ws : List Warning)
      → Kept wanted es
      → Kept wanted (add_before units wanted name deps es ws).0
  unfolding add_before
  add_before-Kept name [] es ws k = k
  add_before-Kept name (dep ∷ deps) es ws k =
      add_before-Kept name deps _ _
        (if-Kept (contains_key dep units) wanted es _ k (add_edge-Kept wanted name dep es sorted k))

  add_socket-Kept :
      (name : Text) (x : UnitDef) (es : Edges)
      → Kept wanted es
      → Kept wanted (add_socket units wanted name x es)
  unfolding add_socket
  add_socket-Kept name x es k = go (socket_of x.kind)
    where
      go :
          (o : Option Socket)
          → Kept wanted (elim o [ none ↦ es | some s ↦ add_edge wanted name s.service es ])
      go none = k
      go (some s) = add_edge-Kept wanted name s.service es sorted k

  add_known-Kept :
      (name : Text) (o : Option UnitDef) (es : Edges) (ws : List Warning)
      → Kept wanted es
      → Kept wanted (add_known units wanted name o es ws).0
  unfolding add_known add_unit
  add_known-Kept name none es ws k = k
  add_known-Kept name (some x) es ws k =
      let (es', ws') = add_after units wanted name x.deps.after es ws in
      add_socket-Kept name x _
        (add_before-Kept name x.deps.before es' ws' (add_after-Kept name x.deps.after es ws k))

  add_units-Kept :
      (names : List Text) (es : Edges) (ws : List Warning)
      → Kept wanted es
      → Kept wanted (add_units units wanted names es ws).0
  unfolding add_units
  add_units-Kept [] es ws k = k
  add_units-Kept (name ∷ names) es ws k =
      add_units-Kept names _ _ (add_known-Kept name (lookup name units) es ws k)

keys-zeros : (wanted : List Text) → keys (no_edges wanted).in_degree ≡ wanted
keys-zeros [] = refl
keys-zeros (n ∷ ns) = ap (λ l. n ∷ l) (keys-zeros ns)

degree_of-zeros : (wanted : List Text) (v : Text) → degree_of (no_edges wanted).in_degree v ≡ 0
unfolding lookup
degree_of-zeros [] v = refl
degree_of-zeros (n ∷ ns) v = ground (arith, degree_of-zeros ns v)

preds_left-none : (us : List Text) (v : Text) → preds_left [] us [] v ≡ 0
unfolding lookup contains_text
preds_left-none [] v = refl
preds_left-none (u ∷ us) v = preds_left-none us v

edges_of-Kept :
    (units : Units) (wanted : List Text) (ws : List Warning)
    → IsSorted wanted
    → Kept wanted (edges_of units wanted ws).0
unfolding edges_of
edges_of-Kept units wanted ws sorted =
    add_units-Kept units wanted sorted wanted (no_edges wanted) ws (record {
      sorted_sets = λ u. unfold lookup in tt;
      same_keys = keys-zeros wanted;
      counted = λ v. degree_of-zeros wanted v ∙ sym (preds_left-none wanted v);
    })

edge-wanted :
    (units : Units) (wanted : List Text) (ws : List Warning) (u v : Text)
    → edge (edges_of units wanted ws).0 u v ≡ true
    → (contains_text wanted u ≡ true) × (contains_text wanted v ≡ true)
edge-wanted units wanted ws u v h =
    both (contains_text wanted u) (contains_text wanted v) (must_precede units u v)
      (sym (edge-edges_of units wanted ws u v) ∙ h)

pub edges_of-AreEdges :
    (units : Units) (wanted : List Text) (ws : List Warning)
    → IsSorted wanted
    → AreEdges (edges_of units wanted ws).0.successors wanted
edges_of-AreEdges units wanted ws sorted = record {
  wanted_distinct = IsSorted-Distinct wanted sorted;
  sources = λ u v h. (edge-wanted units wanted ws u v h).0;
  targets = λ u v h. (edge-wanted units wanted ws u v h).1;
  sets_distinct = λ u.
      IsSorted-Distinct (successors_of (edges_of units wanted ws).0.successors u)
        ((edges_of-Kept units wanted ws sorted).sorted_sets u);
}

contains-free :
    (m : Table ℕ) (v : Text)
    → Distinct (keys m)
    → contains_text (free m) v ≡ (contains_text (keys m) v && (degree_of m v == 0))
unfolding free contains_text lookup
contains-free [] v d = refl
contains-free ((n, k) ∷ m) v d = ground (arith, contains-free m v d.1, d.0, str_eq_iff n v)

if-Distinct :
    (b : Bool) (n : Text) (ns : List Text)
    → contains_text ns n ≡ false
    → Distinct ns
    → Distinct (if b then n ∷ ns else ns)
if-Distinct true n ns h d = (h, d)
if-Distinct false n ns h d = d

Distinct-free : (m : Table ℕ) → Distinct (keys m) → Distinct (free m)
unfolding free contains_text
Distinct-free [] d = tt
Distinct-free ((n, k) ∷ m) d =
    if-Distinct (k == 0) n (free m) (ground (arith, contains-free m n d.1, d.0))
      (Distinct-free m d.1)

-- The loop starts in its invariant.
pub start-Inv :
    (units : Units) (wanted : List Text) (ws : List Warning)
    → IsSorted wanted
    → let es = (edges_of units wanted ws).0 in Inv es.successors wanted (start_progress es)
unfolding start_progress contains_text
start-Inv units wanted ws sorted =
    let es = (edges_of units wanted ws).0 in
    let k = edges_of-Kept units wanted ws sorted in
    let distinct : Distinct (keys es.in_degree) =
      subst Distinct (sym k.same_keys) (IsSorted-Distinct wanted sorted) in
    record {
      counted = k.counted;
      known = λ v. sym (contains-keys v es.in_degree) ∙ ap (λ l. contains_text l v) k.same_keys;
      placed = λ v.
          contains-free es.in_degree v distinct
          ∙ ap (λ l. contains_text l v && (degree_of es.in_degree v == 0)) k.same_keys;
      placed_once = Distinct-free es.in_degree distinct;
      ordered = λ u v e h. absurd (false≢true h);
    }
