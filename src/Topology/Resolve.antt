-- ===== src/Topology/Resolve.antt =====
-- What `resolve_from` of crates/oxinit-graph/src/lib.rs promises of a plan.
use oxinit.Prelude.{
  ◌≡◌, ◌↔◌, inl, inr, sym, ap, subst, ◌∙◌, true, false, none, some, List, [], ◌∷◌, arith,
  Bool-cases, Outcome, ok, err, Outcome-cases, ◌>>=◌, >>=-eq-ok,
}
use oxinit.Text.{Text, str_eq, str_eq_iff, contains_text}
use oxinit.Table.{lookup, contains_key}
use oxinit.Table.Sets.{Distinct}
use oxinit.Unit.{UnitDef, Service, Socket, service_of}
use oxinit.Graph.{
  Units, GraphError, Plan, Reached, first_conflict, check_conflicts, check_socket, check_sockets,
  socket_named, reachable,
}
use oxinit.Graph.Reach.{Pulled, reachable_ends}
use oxinit.Graph.Pulls.{reachable-Pulled}
use oxinit.Topology.{plan_for, resolve_from}
use oxinit.Topology.Kahn.{before}
use oxinit.Topology.Build.{must_precede}
use oxinit.Topology.Order.{topological_order_sound}

first_conflict-none :
    (conflicts wanted : List Text) (v : Text)
    → first_conflict conflicts wanted ≡ none
    → contains_text conflicts v ≡ true
    → contains_text wanted v ≡ false
unfolding first_conflict contains_text
first_conflict-none [] wanted v h k = cc
first_conflict-none (c ∷ cs) wanted v h k = elim (Bool-cases (contains_text wanted c)) [
  | inl e ↦ absurd (ground arith)
  | inr e ↦ elim (Bool-cases (str_eq c v)) [
    | inl same ↦ subst (λ t. contains_text wanted t ≡ false) ((str_eq_iff c v).0 same) e
    | inr other ↦ first_conflict-none cs wanted v (ground arith) (ground arith)
  ]
]

check_conflicts_sound :
    (units : Units) (wanted names : List Text) (u v : Text) (x : UnitDef)
    → check_conflicts units wanted names ≡ ok tt
    → contains_text names u ≡ true
    → lookup u units ≡ some x
    → contains_text x.deps.conflicts v ≡ true
    → contains_text wanted v ≡ false
unfolding check_conflicts contains_text
check_conflicts_sound units wanted [] u v x h k l c = cc
check_conflicts_sound units wanted (n ∷ names) u v x h k l c = elim (Bool-cases (str_eq n u)) [
  | inl same ↦
      let l' : lookup n units ≡ some x = ap (λ t. lookup t units) ((str_eq_iff n u).0 same) ∙ l in
      first_conflict-none x.deps.conflicts wanted v (ground arith) c
  | inr other ↦ check_conflicts_sound units wanted names u v x (ground arith) (ground arith) l c
]

check_sockets_sound :
    (units : Units) (names : List Text) (u : Text) (s : Socket)
    → check_sockets units names ≡ ok tt
    → contains_text names u ≡ true
    → socket_named units u ≡ some s
    → (y : UnitDef) × (service : Service) × (lookup s.service units ≡ some y)
      × (service_of y.kind ≡ some service)
unfolding check_sockets contains_text check_socket
check_sockets_sound units [] u s h k l = absurd (cc)
check_sockets_sound units (n ∷ names) u s h k l = elim (Bool-cases (str_eq n u)) [
  | inl same ↦
      let l' : socket_named units n ≡ some s =
        ap (λ t. socket_named units t) ((str_eq_iff n u).0 same) ∙ l in
      ground arith
  | inr other ↦ check_sockets_sound units names u s (ground arith) (ground arith) l
]

-- A plan that keeps every promise of the unit format.
pub record IsPlan (units : Units) (root : Text) (plan : Plan) : Type 0 where
  -- The order holds what the root pulls in, and nothing else, each unit once.
  pub holds : (v : Text) → (contains_text plan.order v ≡ true) ↔ Pulled units root v
  pub once : Distinct plan.order
  -- A unit stands before another where the files say so.
  pub ordered :
      (u v : Text)
      → contains_text plan.order u ≡ true
      → contains_text plan.order v ≡ true
      → must_precede units u v ≡ true
      → before u v plan.order ≡ true
  -- No two units of the order exclude one another.
  pub compatible :
      (u v : Text) (x : UnitDef)
      → contains_text plan.order u ≡ true
      → lookup u units ≡ some x
      → contains_text x.deps.conflicts v ≡ true
      → contains_text plan.order v ≡ false
  -- The service of every socket in the order exists and is a service.
  pub answered :
      (u : Text) (s : Socket)
      → contains_text plan.order u ≡ true
      → socket_named units u ≡ some s
      → (y : UnitDef) × (service : Service) × (lookup s.service units ≡ some y)
        × (service_of y.kind ≡ some service)

plan_for-IsPlan :
    (units : Units) (root : Text) (r : Reached) (plan : Plan)
    → reachable units root ≡ some (ok r)
    → plan_for units r ≡ ok plan
    → IsPlan units root plan
unfolding plan_for
plan_for-IsPlan units root r plan e h =
    let (sorted, pulled) = reachable-Pulled units root r e in
    let (c, conflicts, h') = >>=-eq-ok (check_conflicts units r.seen r.seen) _ h in
    let (s, sockets, h'') = >>=-eq-ok (check_sockets units r.seen) _ h' in
    let (same, once, ordered) = topological_order_sound units r.seen r.warnings plan sorted h'' in
    record {
      holds = λ v. rw (same v) (pulled v);
      once = once;
      ordered = λ u v hu hv m. ordered u v (sym (same u) ∙ hu) (sym (same v) ∙ hv) m;
      compatible = λ u v x hu l k.
          same v
          ∙ check_conflicts_sound units r.seen r.seen u v x conflicts (sym (same u) ∙ hu) l k;
      answered = λ u k hu l. check_sockets_sound units r.seen u k sockets (sym (same u) ∙ hu) l;
    }

-- Every plan that is resolved from a root holds exactly what the root pulls in, each unit once, in an
-- order that respects every `after`, `before` and socket of the files, with no two units that exclude
-- one another, and with a service behind every socket.
pub resolve_from-IsPlan :
    (units : Units) (root : Text) (plan : Plan)
    → resolve_from units root ≡ some (ok plan)
    → IsPlan units root plan
unfolding resolve_from
resolve_from-IsPlan units root plan h =
    let (o, e) = reachable_ends units root in
    elim (Outcome-cases o) [
      | inl (r, k) ↦ plan_for-IsPlan units root r plan (e ∙ ap some k) (ground arith)
      | inr (b, k) ↦ absurd (ground arith)
    ]

-- The resolution of every set of units from every root ends, in a plan or in an error.
resolve_from_ends :
    (units : Units) (root : Text)
    → (o : Outcome GraphError Plan) × (resolve_from units root ≡ some o)
unfolding resolve_from
resolve_from_ends units root = elim (Bool-cases (contains_key root units)) [
  | inl k ↦ let (r, e) = reachable_ends units root in (r >>= plan_for units, ground arith)
  | inr k ↦ (err GraphError.no_default, ground arith)
]
