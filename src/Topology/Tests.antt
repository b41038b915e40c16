-- ===== src/Topology/Tests.antt =====
-- A small boot: runs of the resolution, and the theorems at it.
use oxinit.Prelude.{
  ℕ, ◌≡◌, ◌<◌, refl, some, ok, err, List, [], ◌∷◌, true, arith, ◌↔◌, if◌then◌else◌, Bool, ◌||◌, not,
  ltb, ltb→lt, all, Bool-cases, inl, inr, subst,
}
use oxinit.Text.{Text, codes, contains_text, str_eq, str_lt, str_eq_iff}
use oxinit.Table.{lookup, insert, modify, set_insert}
use oxinit.Table.Sets.{Distinct, IsSorted}
use oxinit.Unit.{UnitDef, target}
use oxinit.Graph.{
  Units, Plan, cycle, missing_wants, push_requires, push_wants, visit, reach_from, reach_fuel,
  reachable, check_conflicts, first_conflict, check_sockets, check_socket,
}
use oxinit.Graph.Reach.{Pulled}
use oxinit.Graph.Pulls.{reachable-Pulled}
use oxinit.Topology.{
  add_edge, add_after, add_before, add_socket, add_unit, add_known, add_units, edges_of, free,
  release, pop_ready, kahn, from_seen, walk, first_blocked, find_cycle, start_progress,
  topological_order, plan_for, resolve_from,
}
use oxinit.Topology.Kahn.{before}
use oxinit.Topology.Build.{must_precede}
use oxinit.Topology.Order.{topological_order_sound, topological_order_complete}
use oxinit.Topology.Resolve.{IsPlan, resolve_from-IsPlan}

abbrev group : Text → List Text → List Text → List Text → UnitDef
group name requires wants after = record {
  name = name;
  description = name;
  deps = record { requires = requires; wants = wants; after = after; before = []; conflicts = [] };
  kind = target;
}

abbrev boot : Units
boot =
    (codes "db", group (codes "db") [] [] [])
    ∷ (
      codes "default",
      group (codes "default") (codes "web" ∷ []) (codes "gone" ∷ []) (codes "web" ∷ []),
    )
    ∷ (codes "web", group (codes "web") (codes "db" ∷ []) [] (codes "db" ∷ []))
    ∷ []

abbrev knot : Units
knot =
    (codes "a", group (codes "a") (codes "b" ∷ []) [] (codes "b" ∷ []))
    ∷ (codes "b", group (codes "b") [] [] (codes "a" ∷ []))
    ∷ []

abbrev boot_plan : Plan
boot_plan = record {
  order = codes "db" ∷ codes "web" ∷ codes "default" ∷ [];
  warnings = missing_wants (codes "default") (codes "gone") ∷ [];
}

program : Unit {0}
unfolding resolve_from reachable reach_from reach_fuel visit push_requires push_wants plan_for
    check_conflicts first_conflict check_sockets check_socket topological_order edges_of add_units
    add_known add_unit add_after add_before add_socket add_edge start_progress free kahn pop_ready
    release find_cycle first_blocked walk from_seen contains_text str_eq str_lt lookup insert modify
    set_insert
program = tt

resolve-boot : resolve_from boot (codes "default") ≡ some (ok boot_plan)
unfolding program
resolve-boot = refl

resolve-knot :
    resolve_from knot (codes "a") ≡ some (err (cycle (codes "a" ∷ codes "b" ∷ codes "a" ∷ [])))
unfolding program
resolve-knot = refl

resolve_from-IsPlan_example : IsPlan boot (codes "default") boot_plan
resolve_from-IsPlan_example = resolve_from-IsPlan boot (codes "default") boot_plan resolve-boot

abbrev all_three : List Text
all_three = codes "db" ∷ codes "default" ∷ codes "web" ∷ []

all_three-IsSorted : IsSorted all_three
unfolding str_lt
all_three-IsSorted = ((refl, (refl, tt)), ((refl, tt), (tt, tt)))

order-boot :
    topological_order boot all_three [] ≡ ok (record { order = boot_plan.order; warnings = [] })
unfolding program
order-boot = refl

topological_order_sound_example :
    ((v : Text) → contains_text boot_plan.order v ≡ contains_text all_three v)
    × Distinct boot_plan.order
    × ((u v : Text)
        → contains_text all_three u ≡ true
        → contains_text all_three v ≡ true
        → must_precede boot u v ≡ true
        → before u v boot_plan.order ≡ true)
topological_order_sound_example =
    topological_order_sound boot all_three [] (record { order = boot_plan.order; warnings = [] })
      all_three-IsSorted order-boot

all-contains :
    (p : Text → Bool) (xs : List Text) (v : Text)
    → all p xs ≡ true
    → contains_text xs v ≡ true
    → p v ≡ true
unfolding contains_text
all-contains p [] v h k = cc
all-contains p (x ∷ xs) v h k = elim (Bool-cases (str_eq x v)) [
  | inl e ↦ subst (λ t. p t ≡ true) ((str_eq_iff x v).0 e) (ground arith)
  | inr e ↦ all-contains p xs v (ground arith) (ground arith)
]

rank : Text → ℕ
unfolding str_eq
rank v = if str_eq v (codes "db") then 0 else (if str_eq v (codes "web") then 1 else 2)

abbrev respects : Text → Text → Bool
respects u v = not (must_precede boot u v) || ltb (rank u) (rank v)

all_respect : all (λ u. all (respects u) all_three) all_three ≡ true
unfolding rank contains_text lookup
all_respect = refl

rank_up :
    (u v : Text)
    → contains_text all_three u ≡ true
    → contains_text all_three v ≡ true
    → must_precede boot u v ≡ true
    → rank u < rank v
rank_up u v hu hv m =
    let at_u = all-contains (λ w. all (respects w) all_three) all_three u all_respect hu in
    let at_v = all-contains (respects u) all_three v at_u hv in
    ltb→lt (rank u) (rank v) (implied (must_precede boot u v) (ltb (rank u) (rank v)) at_v m)
  where
    implied : (a b : Bool) → (not a || b) ≡ true → a ≡ true → b ≡ true
    implied a b h k = ground arith

topological_order_complete_example : (plan : Plan) × (topological_order boot all_three [] ≡ ok plan)
topological_order_complete_example =
    topological_order_complete boot all_three [] rank all_three-IsSorted rank_up

reachable-boot :
    reachable boot (codes "web")
    ≡ some (ok (record { seen = codes "db" ∷ codes "web" ∷ []; warnings = [] }))
unfolding program
reachable-boot = refl

reachable-Pulled_example :
    IsSorted (codes "db" ∷ codes "web" ∷ [])
    × ((v : Text)
        → (contains_text (codes "db" ∷ codes "web" ∷ []) v ≡ true) ↔ Pulled boot (codes "web") v)
reachable-Pulled_example =
    reachable-Pulled boot (codes "web")
      (record { seen = codes "db" ∷ codes "web" ∷ []; warnings = [] }) reachable-boot
