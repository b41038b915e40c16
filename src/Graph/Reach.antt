-- ===== src/Graph/Reach.antt =====
-- `reachable` of crates/oxinit-graph/src/lib.rs: its fuel is enough, and the set that it returns is what
-- the root pulls in.
use oxinit.Prelude.{
  ℕ, zero, suc, ◌+◌, ◌≤◌, ◌<◌, ◌≡◌, inl, inr, refl, ◌∙◌, true, false, ◌&&◌, ◌||◌, some, List, [],
  ◌∷◌, ◌++◌, arith, if◌then◌else◌, Bool-cases, Option-cases, length, length-append, Outcome, ok,
  err, Outcome-cases,
}
use oxinit.Text.{Text, str_eq_iff, contains_text}
use oxinit.Table.{lookup, contains_key, set_insert, contains-set_insert}
use oxinit.Table.Sets.{contains-snoc}
use oxinit.Unit.{UnitDef}
use oxinit.Graph.{
  Units, Warning, missing_wants, GraphError, push_requires, push_wants, visit, reach_from,
  reach_fuel, reachable, Reached,
}

-- What the root pulls in: itself, and what a unit pulled in requires, or wants where it is there.
pub data Pulled (units : Units) (root : Text) : Text → Type 0 where
  start : Pulled units root root
  required :
      {u v : Text} (x : UnitDef)
      → Pulled units root u
      → lookup u units ≡ some x
      → contains_text x.deps.requires v ≡ true
      → Pulled units root v
  wanted :
      {u v : Text} (x : UnitDef)
      → Pulled units root u
      → lookup u units ≡ some x
      → contains_text x.deps.wants v ≡ true
      → contains_key v units ≡ true
      → Pulled units root v

pub length-push_requires :
    (units : Units) (name : Text) (deps queue queue' : List Text)
    → push_requires units name deps queue ≡ ok queue'
    → length queue' ≡ length queue + length deps
unfolding push_requires
length-push_requires units name [] queue queue' h = ground arith
length-push_requires units name (dep ∷ deps) queue queue' h = ground (
  arith,
  length-push_requires units name deps (queue ++ dep ∷ []) queue',
  length-append queue (dep ∷ []),
)

pub contains-push_requires :
    (units : Units) (name : Text) (deps queue queue' : List Text) (v : Text)
    → push_requires units name deps queue ≡ ok queue'
    → contains_text queue' v ≡ (contains_text queue v || contains_text deps v)
unfolding push_requires contains_text
contains-push_requires units name [] queue queue' v h = ground arith
contains-push_requires units name (dep ∷ deps) queue queue' v h = ground (
  arith,
  contains-push_requires units name deps (queue ++ dep ∷ []) queue' v,
  contains-snoc queue dep v,
)

length-push_wants :
    (units : Units) (name : Text) (deps queue : List Text) (ws : List Warning)
    → length (push_wants units name deps queue ws).0 ≤ length queue + length deps
unfolding push_wants
length-push_wants units name [] queue ws = omega arith
length-push_wants units name (dep ∷ deps) queue ws = ground (
  arith,
  length-push_wants units name deps (queue ++ dep ∷ []) ws,
  length-push_wants units name deps queue (ws ++ missing_wants name dep ∷ []),
  length-append queue (dep ∷ []),
)

pub contains-push_wants :
    (units : Units) (name : Text) (deps queue : List Text) (ws : List Warning) (v : Text)
    → contains_text (push_wants units name deps queue ws).0 v
      ≡ (contains_text queue v || (contains_text deps v && contains_key v units))
unfolding push_wants contains_text
contains-push_wants units name [] queue ws v = ground arith
contains-push_wants units name (dep ∷ deps) queue ws v = ground (
  arith,
  contains-push_wants units name deps (queue ++ dep ∷ []) ws v,
  contains-push_wants units name deps queue (ws ++ missing_wants name dep ∷ []) v,
  contains-snoc queue dep v,
  str_eq_iff dep v,
)

-- What the units not seen yet can still push.
weight : Units → List Text → ℕ
weight [] seen = 0
weight ((name, u) ∷ units) seen =
    (if contains_text seen name then 0 else length u.deps.requires + length u.deps.wants)
    + weight units seen

weight-set_insert-le :
    (units : Units) (seen : List Text) (name : Text)
    → weight units (set_insert name seen) ≤ weight units seen
unfolding weight
weight-set_insert-le [] seen name = omega arith
weight-set_insert-le ((n, u) ∷ units) seen name =
    ground (arith, weight-set_insert-le units seen name, contains-set_insert name n seen)

weight-set_insert :
    (units : Units) (seen : List Text) (name : Text) (x : UnitDef)
    → lookup name units ≡ some x
    → contains_text seen name ≡ false
    → weight units (set_insert name seen) + (length x.deps.requires + length x.deps.wants)
      ≤ weight units seen
unfolding weight lookup
weight-set_insert [] seen name x h k = cc
weight-set_insert ((n, u) ∷ units) seen name x h k = ground (
  arith,
  weight-set_insert units seen name x,
  weight-set_insert-le units seen name,
  contains-set_insert name n seen,
  str_eq_iff n name,
  str_eq_iff name n,
)

visit_queue :
    (units : Units) (seen : List Text) (name : Text) (queue : List Text) (ws : List Warning)
    (queue' : List Text) (ws' : List Warning)
    → contains_text seen name ≡ false
    → visit units name (lookup name units) queue ws ≡ ok (queue', ws')
    → weight units (set_insert name seen) + length queue' ≤ weight units seen + length queue
unfolding visit
visit_queue units seen name queue ws queue' ws' n h = elim (Option-cases (lookup name units)) [
  | inl l ↦ ground (arith, weight-set_insert-le units seen name)
  | inr (x, l) ↦ elim (Outcome-cases (push_requires units name x.deps.requires queue)) [
    | inl (q, e) ↦ ground (
      arith,
      weight-set_insert units seen name x l n,
      length-push_requires units name x.deps.requires queue q e,
      length-push_wants units name x.deps.wants q ws,
    )
    | inr (b, e) ↦ ground arith
  ]
]

module _ (fuel : ℕ) (units : Units) (seen : List Text) (name : Text) (queue : List Text)
    (ws : List Warning) where
  pub reach_seen :
      contains_text seen name ≡ true
      → reach_from (suc fuel) units seen (name ∷ queue) ws ≡ reach_from fuel units seen queue ws
  unfolding reach_from
  reach_seen h = rw (h, reach_from)

  pub reach_new :
      {queue' : List Text} {ws' : List Warning}
      → contains_text seen name ≡ false
      → visit units name (lookup name units) queue ws ≡ ok (queue', ws')
      → reach_from (suc fuel) units seen (name ∷ queue) ws
        ≡ reach_from fuel units (set_insert name seen) queue' ws'
  unfolding reach_from
  reach_new h k = rw (h, reach_from) (rw (k, reach_from))

  pub reach_fails :
      {e : GraphError}
      → contains_text seen name ≡ false
      → visit units name (lookup name units) queue ws ≡ err e
      → reach_from (suc fuel) units seen (name ∷ queue) ws ≡ some (err e)
  unfolding reach_from
  reach_fails h k = rw (h, reach_from) (rw (k, reach_from))

reach_ends :
    (fuel : ℕ) (units : Units) (seen queue : List Text) (ws : List Warning)
    → weight units seen + length queue < fuel
    → (r : Outcome GraphError Reached) × (reach_from fuel units seen queue ws ≡ some r)
reach_ends zero units seen queue ws h = absurd (omega arith)
reach_ends (suc fuel) units seen [] ws h =
    (ok (record { seen = seen; warnings = ws }), unfold reach_from in refl)
reach_ends (suc fuel) units seen (name ∷ queue) ws h = elim (Bool-cases (contains_text seen name)) [
  | inl old ↦
      let (r, e) = reach_ends fuel units seen queue ws (omega arith) in
      (r, reach_seen fuel units seen name queue ws old ∙ e)
  | inr new ↦ elim (Outcome-cases (visit units name (lookup name units) queue ws)) [
    | inl ((queue', ws'), v) ↦
        let (r, e) =
          reach_ends fuel units (set_insert name seen) queue' ws'
            (omega (arith, visit_queue units seen name queue ws queue' ws' new v)) in
        (r, reach_new fuel units seen name queue ws new v ∙ e)
    | inr (e, v) ↦ (err e, reach_fails fuel units seen name queue ws new v)
  ]
]

weight-reach_fuel : (units : Units) → weight units [] + 1 < reach_fuel units
unfolding weight reach_fuel contains_text
weight-reach_fuel [] = omega arith
weight-reach_fuel ((n, u) ∷ units) = omega (arith, weight-reach_fuel units)

-- The fuel is enough for every set of units and every root: the walk ends.
pub reachable_ends :
    (units : Units) (root : Text)
    → (r : Outcome GraphError Reached) × (reachable units root ≡ some r)
unfolding reachable
reachable_ends units root =
    reach_ends (reach_fuel units) units [] (root ∷ []) [] (omega (arith, weight-reach_fuel units))
