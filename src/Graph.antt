-- ===== src/Graph.antt =====
-- crates/oxinit-graph/src/lib.rs, the checks and the walk: which units to start, and in which order. `requires` and `wants`
-- decide what is started, `after` and `before` in what order. The two `while` loops of the source run
-- on fuel; `none` is fuel that ran out, and does not happen.
pub mod Reach
pub mod Pulls
use oxinit.Prelude.{
  ℕ, zero, suc, ◌+◌, ◌-◌, ◌≡◌, Bool, true, false, ◌&&◌, ◌||◌, not, Option, none, some, List, [],
  ◌∷◌, ◌++◌, map, ltb, leb, ◌==◌, if◌then◌else◌, length, is_some, map_or, Outcome, ok, err, ◌>>=◌,
  keep, find,
}
use oxinit.Text.{Text, codes, str_eq, contains_text}
use oxinit.Table.{Table, lookup, insert, modify, contains_key, keys, set_insert}
use oxinit.Unit.{UnitDef, Deps, Kind, Socket, socket_of, service_of}

abbrev pub default_unit : Text
default_unit = codes "default"

pub data Warning : Type 0 where
  missing_wants : (unit missing : Text) → Warning
  missing_ordering : (unit missing : Text) → Warning

pub data GraphError : Type 0 where
  missing_requires : (unit missing : Text) → GraphError
  no_default : GraphError
  cycle : (path : List Text) → GraphError
  conflicting_required : (a b : Text) → GraphError
  missing_socket_service : (unit missing : Text) → GraphError
  socket_service_not_a_service : (unit other : Text) → GraphError

pub record Plan : Type 0 where
  pub order : List Text
  pub warnings : List Warning

abbrev pub Units : Type 0
Units = Table UnitDef

-- The loop over `unit.deps.requires`: the first that is missing is fatal.
unfoldable pub push_requires : Units → Text → List Text → List Text → Outcome GraphError (List Text)
push_requires units name [] queue = ok queue
push_requires units name (dep ∷ deps) queue =
    let rest = push_requires units name deps (queue ++ dep ∷ []) in
    if contains_key dep units then rest else err (missing_requires name dep)

-- The loop over `unit.deps.wants`: one that is missing is a warning.
unfoldable pub push_wants :
    Units → Text → List Text → List Text → List Warning → List Text × List Warning
push_wants units name [] queue warnings = (queue, warnings)
push_wants units name (dep ∷ deps) queue warnings =
    let present = push_wants units name deps (queue ++ dep ∷ []) warnings in
    let absent = push_wants units name deps queue (warnings ++ missing_wants name dep ∷ []) in
    if contains_key dep units then present else absent

pub record Reached : Type 0 where
  pub seen : List Text
  pub warnings : List Warning

-- The rest of a round, for a unit that is not seen yet: what it requires and wants joins the queue.
unfoldable pub visit :
    Units
    → Text
    → Option UnitDef
    → List Text
    → List Warning
    → Outcome GraphError (List Text × List Warning)
visit units name none queue warnings = ok (queue, warnings)
visit units name (some u) queue warnings = elim (push_requires units name u.deps.requires queue) [
  | err e ↦ err e
  | ok queue' ↦ ok (push_wants units name u.deps.wants queue' warnings)
]

-- The `while let Some(name) = queue.pop_front()` of `reachable`.
unfoldable pub reach_from :
    ℕ → Units → List Text → List Text → List Warning → Option (Outcome GraphError Reached)
reach_from zero units seen queue warnings = none
reach_from (suc fuel) units seen [] warnings =
    some (ok (record { seen = seen; warnings = warnings }))
reach_from (suc fuel) units seen (name ∷ queue) warnings = elim (contains_text seen name) [
  | true ↦ reach_from fuel units seen queue warnings
  | false ↦ elim (visit units name (lookup name units) queue warnings) [
    | err e ↦ some (err e)
    | ok (queue', warnings') ↦ reach_from fuel units (set_insert name seen) queue' warnings'
  ]
]

-- One round for the root and one for every name that a unit can push, and one to see the queue empty.
unfoldable pub reach_fuel : Units → ℕ
reach_fuel [] = 2
reach_fuel ((name, u) ∷ units) = length u.deps.requires + length u.deps.wants + reach_fuel units

unfoldable pub reachable : Units → Text → Option (Outcome GraphError Reached)
reachable units root = reach_from (reach_fuel units) units [] (root ∷ []) []

-- The first conflict of one unit with a wanted one.
unfoldable pub first_conflict : List Text → List Text → Option Text
first_conflict conflicts wanted = find (contains_text wanted) conflicts

unfoldable pub check_conflicts : Units → List Text → List Text → Outcome GraphError (Unit {0})
check_conflicts units wanted [] = ok tt
check_conflicts units wanted (name ∷ names) =
    let rest = check_conflicts units wanted names in
    elim (lookup name units) [
      | none ↦ rest
      | some u ↦ elim (first_conflict u.deps.conflicts wanted) [
        | none ↦ rest
        | some other ↦ err (conflicting_required name other)
      ]
    ]

unfoldable pub check_socket : Units → Text → Socket → Outcome GraphError (Unit {0})
check_socket units name s = elim (lookup s.service units) [
  | none ↦ err (missing_socket_service name s.service)
  | some u ↦
      if is_some (service_of u.kind)
      then ok tt
      else err (socket_service_not_a_service name s.service)
]

abbrev pub socket_named : Units → Text → Option Socket
socket_named units name = elim (lookup name units) [ none ↦ none | some u ↦ socket_of u.kind ]

unfoldable pub check_sockets : Units → List Text → Outcome GraphError (Unit {0})
check_sockets units [] = ok tt
check_sockets units (name ∷ names) =
    let rest = check_sockets units names in
    elim (socket_named units name) [
      | none ↦ rest
      | some s ↦ elim (check_socket units name s) [ err e ↦ err e | ok _ ↦ rest ]
    ]
