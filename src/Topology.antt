-- ===== src/Topology.antt =====
-- crates/oxinit-graph/src/lib.rs, `topological_order`: Kahn's algorithm over the `after` and `before`
-- edges, and `resolve`. Its loop runs on as many rounds as there are wanted units; `find_cycle` runs
-- on one round more. A search that uses them up would stop there.
pub mod Kahn
mod Tests
pub mod Rounds
pub mod Resolve
pub mod Order
pub mod Degrees
pub mod Build
pub mod Ends
use oxinit.Prelude.{
  ℕ, zero, suc, ◌+◌, ◌-◌, ◌≡◌, Bool, true, false, ◌&&◌, ◌||◌, not, Option, none, some, List, [],
  ◌∷◌, ◌++◌, map, ltb, leb, ◌==◌, if◌then◌else◌, length, is_some, map_or, Outcome, ok, err, ◌>>=◌,
  keep, find,
}
use oxinit.Text.{Text, codes, str_eq, contains_text}
use oxinit.Table.{Table, lookup, insert, modify, contains_key, keys, set_insert}
use oxinit.Unit.{UnitDef, Deps, Kind, Socket, socket_of, service_of}
use oxinit.Graph.{
  Warning, missing_ordering, GraphError, cycle, no_default, Plan, Units, socket_named, reachable,
  Reached, check_conflicts, check_sockets, default_unit,
}

-- An edge from a to b, b in the set of a, means that a starts before b.
pub record Edges : Type 0 where
  pub successors : Table (List Text)
  pub in_degree : Table ℕ

abbrev pub successors_of : Table (List Text) → Text → List Text
successors_of m name = elim (lookup name m) [ none ↦ [] | some s ↦ s ]

abbrev pub degree_of : Table ℕ → Text → ℕ
degree_of m name = elim (lookup name m) [ none ↦ 0 | some d ↦ d ]

-- Record that `from` starts before `to`; an edge of a unit that is not wanted is dropped.
unfoldable pub add_edge : List Text → Text → Text → Edges → Edges
add_edge wanted from to es =
    let s = successors_of es.successors from in
    if contains_text wanted from && contains_text wanted to
    then (if contains_text s to then es else record {
      successors = insert from (set_insert to s) es.successors;
      in_degree = insert to (degree_of es.in_degree to + 1) es.in_degree;
    })
    else es

module _ (units : Units) (wanted : List Text) where
  -- The loops over `unit.deps.after` and `unit.deps.before`.
  pub add_after : Text → List Text → Edges → List Warning → Edges × List Warning
  add_after name [] es warnings = (es, warnings)
  add_after name (dep ∷ deps) es warnings =
      let known = contains_key dep units in
      add_after name deps (if known then add_edge wanted dep name es else es)
        (if known then warnings else warnings ++ missing_ordering name dep ∷ [])

  pub add_before : Text → List Text → Edges → List Warning → Edges × List Warning
  add_before name [] es warnings = (es, warnings)
  add_before name (dep ∷ deps) es warnings =
      let known = contains_key dep units in
      add_before name deps (if known then add_edge wanted name dep es else es)
        (if known then warnings else warnings ++ missing_ordering name dep ∷ [])

  -- A socket is ordered before the service that it activates.
  pub add_socket : Text → UnitDef → Edges → Edges
  add_socket name u es = elim (socket_of u.kind) [
    | none ↦ es
    | some s ↦ add_edge wanted name s.service es
  ]

  pub add_unit : Text → UnitDef → Edges → List Warning → Edges × List Warning
  add_unit name u es warnings =
      let (es', warnings') = add_after name u.deps.after es warnings in
      let (es'', warnings'') = add_before name u.deps.before es' warnings' in
      (add_socket name u es'', warnings'')

  -- `let Some(unit) = units.get(name) else { continue }`.
  pub add_known : Text → Option UnitDef → Edges → List Warning → Edges × List Warning
  add_known name none es warnings = (es, warnings)
  add_known name (some u) es warnings = add_unit name u es warnings

  pub add_units : List Text → Edges → List Warning → Edges × List Warning
  unfolding add_known
  add_units [] es warnings = (es, warnings)
  add_units (name ∷ names) es warnings =
      let (es', warnings') = add_known name (lookup name units) es warnings in
      add_units names es' warnings'

abbrev pub no_edges : List Text → Edges
no_edges wanted = record { successors = []; in_degree = map (λ n. (n, 0)) wanted }

unfoldable pub free : Table ℕ → List Text
free [] = []
free ((name, d) ∷ m) = if d == 0 then name ∷ free m else free m

-- One unit's successors each lose a predecessor; one that loses its last becomes ready.
unfoldable pub release : List Text → Table ℕ → List Text → Table ℕ × List Text
release [] remaining ready = (remaining, ready)
release (next ∷ nexts) remaining ready =
    let gone = degree_of remaining next - 1 in
    let known = contains_key next remaining in
    release nexts (modify next (λ d. d - 1) remaining)
      (if known && gone == 0 then ready ++ next ∷ [] else ready)

pub record Progress : Type 0 where
  pub order : List Text
  pub ready : List Text
  pub remaining : Table ℕ

unfoldable pub pop_ready : Table (List Text) → Progress → Progress
pop_ready successors p = elim p.ready [
  | [] ↦ p
  | name ∷ ready ↦
      let (remaining, ready') = release (successors_of successors name) p.remaining ready in
      record { order = p.order ++ name ∷ []; ready = ready'; remaining = remaining }
]

-- `while let Some(name) = ready.pop_front()`: a round on an empty queue changes nothing.
unfoldable pub kahn : ℕ → Table (List Text) → Progress → Progress
kahn zero successors p = p
kahn (suc rounds) successors p = kahn rounds successors (pop_ready successors p)

-- `path.iter().position(…)`, and the path from there on.
unfoldable pub from_seen : Text → List Text → Option (List Text)
from_seen current [] = none
from_seen current (name ∷ path) =
    if str_eq name current then some (name ∷ path) else from_seen current path

abbrev pub is_blocked : Table ℕ → Text → Bool
is_blocked remaining name = ltb 0 (degree_of remaining name)

-- Walk along blocked successors until a unit comes round again.
unfoldable pub walk : ℕ → Table (List Text) → Table ℕ → List Text → Text → List Text
walk zero successors remaining path current = path
walk (suc rounds) successors remaining path current = elim (from_seen current path) [
  | some loop ↦ loop ++ current ∷ []
  | none ↦ elim (find (is_blocked remaining) (successors_of successors current)) [
    | some next ↦ walk rounds successors remaining (path ++ current ∷ []) next
    | none ↦ path ++ current ∷ []
  ]
]

unfoldable pub first_blocked : Table ℕ → Option Text
first_blocked [] = none
first_blocked ((name, d) ∷ m) = if ltb 0 d then some name else first_blocked m

unfoldable pub find_cycle : Table (List Text) → Table ℕ → List Text
find_cycle successors remaining = elim (first_blocked remaining) [
  | none ↦ []
  | some start ↦ walk (suc (length remaining)) successors remaining [] start
]

pub edges_of : Units → List Text → List Warning → Edges × List Warning
edges_of units wanted warnings = add_units units wanted wanted (no_edges wanted) warnings

pub start_progress : Edges → Progress
start_progress es = record { order = []; ready = free es.in_degree; remaining = es.in_degree }

unfoldable pub topological_order : Units → List Text → List Warning → Outcome GraphError Plan
topological_order units wanted warnings =
    let (es, warnings') = edges_of units wanted warnings in
    let p = kahn (length wanted) es.successors (start_progress es) in
    if length p.order == length wanted
    then ok (record { order = p.order; warnings = warnings' })
    else err (cycle (find_cycle es.successors p.remaining))

-- The steps after `reachable`.
unfoldable pub plan_for : Units → Reached → Outcome GraphError Plan
plan_for units r = do
  _ ← check_conflicts units r.seen r.seen
  _ ← check_sockets units r.seen
  topological_order units r.seen r.warnings

unfoldable pub resolve_from : Units → Text → Option (Outcome GraphError Plan)
resolve_from units root =
    if contains_key root units
    then elim (reachable units root) [ none ↦ none | some r ↦ some (r >>= plan_for units) ]
    else some (err no_default)

unfoldable pub resolve : Units → Option (Outcome GraphError Plan)
resolve units = resolve_from units default_unit
