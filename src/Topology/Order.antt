-- ===== src/Topology/Order.antt =====
-- What the order of `topological_order` in crates/oxinit-graph/src/lib.rs promises.
use oxinit.Prelude.{
  ℕ, ◌<◌, ◌≡◌, refl, sym, ◌∙◌, Bool, true, false, ◌&&◌, List, [], arith, length, ==_iff, ok,
}
use oxinit.Text.{Text, contains_text}
use oxinit.Table.Sets.{Distinct, IsSorted}
use oxinit.Graph.{Units, Warning, Plan}
use oxinit.Topology.{Progress, edges_of, kahn, start_progress, topological_order}
use oxinit.Topology.Kahn.{before}
use oxinit.Topology.Build.{edge, edge-edges_of, must_precede}
use oxinit.Topology.Rounds.{Inv}
use oxinit.Topology.Degrees.{edges_of-AreEdges, start-Inv}
use oxinit.Topology.Ends.{
  kahn-Inv, kahn_ends, full_order, ranked_full, order-Distinct, order_wanted,
}

iff_eq : (a b : Bool) → (a ≡ true → b ≡ true) → (b ≡ true → a ≡ true) → a ≡ b
iff_eq true b h k = sym (h refl)
iff_eq false b h k = ground arith

all_true : {a b m : Bool} → a ≡ true → b ≡ true → m ≡ true → ((a && b) && m) ≡ true
all_true h k l = ground arith

three : (a b m : Bool) → ((a && b) && m) ≡ true → (a ≡ true) × (b ≡ true) × (m ≡ true)
three a b m h = ground arith

module _ (units : Units) (wanted : List Text) (ws : List Warning) (sorted : IsSorted wanted) where
  abbrev last_progress : Progress
  last_progress =
      let es = (edges_of units wanted ws).0 in
      kahn (length wanted) es.successors (start_progress es)

  last-Inv : Inv (edges_of units wanted ws).0.successors wanted last_progress
  last-Inv =
      kahn-Inv (edges_of units wanted ws).0.successors wanted
        (edges_of-AreEdges units wanted ws sorted) (length wanted)
        (start_progress (edges_of units wanted ws).0) (start-Inv units wanted ws sorted)

  last_idle : last_progress.ready ≡ []
  last_idle =
      kahn_ends (edges_of units wanted ws).0.successors wanted
        (edges_of-AreEdges units wanted ws sorted) (length wanted)
        (start_progress (edges_of units wanted ws).0) (start-Inv units wanted ws sorted)
        (omega arith)

  -- The order found, when one is.
  found :
      (plan : Plan)
      → topological_order units wanted ws ≡ ok plan
      → (plan.order ≡ last_progress.order) × (length last_progress.order ≡ length wanted)
  unfolding topological_order
  found plan h = ground arith

-- An order holds exactly the wanted units, each once, and a unit stands in it before another wherever
-- the files of the wanted units say so: for `after`, for `before`, and for a socket and its service.
-- The wanted units come as a sorted set.
pub topological_order_sound :
    (units : Units) (wanted : List Text) (ws : List Warning) (plan : Plan)
    → IsSorted wanted
    → topological_order units wanted ws ≡ ok plan
    → ((v : Text) → contains_text plan.order v ≡ contains_text wanted v)
      × Distinct plan.order
      × ((u v : Text)
          → contains_text wanted u ≡ true
          → contains_text wanted v ≡ true
          → must_precede units u v ≡ true
          → before u v plan.order ≡ true)
topological_order_sound units wanted ws plan sorted h =
    let m = (edges_of units wanted ws).0.successors in
    let edges = edges_of-AreEdges units wanted ws sorted in
    let p = last_progress units wanted ws sorted in
    let i = last-Inv units wanted ws sorted in
    let idle = last_idle units wanted ws sorted in
    let (same, full) = found units wanted ws sorted plan h in
    let all = full_order m wanted edges p i idle full in
    let only = order_wanted m wanted edges p i idle in
    (
      λ v. rw same (iff_eq (contains_text p.order v) (contains_text wanted v) (only v) (all v)),
      rw same (order-Distinct m wanted edges p i idle),
      λ u v wu wv e.
          let drawn : edge (edges_of units wanted ws).0 u v ≡ true =
            edge-edges_of units wanted ws u v ∙ all_true wu wv e in
          rw same (i.ordered u v drawn (all v wv)),
    )

-- Where the units can be ranked so that every unit ranks above those that must precede it, as they
-- can when nothing waits on itself, an order is found.
pub topological_order_complete :
    (units : Units) (wanted : List Text) (ws : List Warning) (rank : Text → ℕ)
    → IsSorted wanted
    → ((u v : Text)
        → contains_text wanted u ≡ true
        → contains_text wanted v ≡ true
        → must_precede units u v ≡ true
        → rank u < rank v)
    → (plan : Plan) × (topological_order units wanted ws ≡ ok plan)
unfolding topological_order
topological_order_complete units wanted ws rank sorted up =
    let (es, warnings) = edges_of units wanted ws in
    let p = last_progress units wanted ws sorted in
    let up' : (u v : Text) → edge es u v ≡ true → rank u < rank v = λ u v e.
      let (wu, wv, must) =
        three (contains_text wanted u) (contains_text wanted v) (must_precede units u v)
          (sym (edge-edges_of units wanted ws u v) ∙ e) in
      up u v wu wv must in
    let full : length p.order ≡ length wanted =
      ranked_full es.successors wanted (edges_of-AreEdges units wanted ws sorted) p
        (last-Inv units wanted ws sorted) (last_idle units wanted ws sorted) rank up' in
    (record { order = p.order; warnings = warnings }, rw ((==_iff _ _).1 full))
