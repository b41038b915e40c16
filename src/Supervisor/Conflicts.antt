-- ===== src/Supervisor/Conflicts.antt =====
-- Exclusion: crates/oxinit/src/supervisor.rs starts a unit only once what conflicts with it is being
-- stopped.
use oxinit.Prelude.{
  ◌≡◌, inl, inr, refl, Bool, true, false, Option, none, some, arith, List, [], ◌∷◌, ◌++◌,
  if◌then◌else◌, ◌||◌, Option-cases, Bool-cases,
}
use oxinit.Text.{Text, str_eq, str_eq_iff, contains_text}
use oxinit.Table.{Table, lookup, lookup-modify}
use oxinit.Table.Sets.{contains-snoc}
use oxinit.Timer.{Next, first}
use oxinit.Unit.{Kind, Service}
use oxinit.Service.{Instance, requested, failed_to_start, entered_active, entered_activating}
use oxinit.Supervisor.{
  World, Supervisor, stop, stop_busy, conflicting_with, conflicts_of, add_excluding, arm,
  start_service, service_started, start_instance, start_now, start, shutting_down, put, is_busy,
}
use oxinit.Supervisor.Winding.{wind_at, stop-winds}

contains-add_excluding :
    (name : Text) (m : Table Instance) (names : List Text) (k : Text)
    → contains_text names k ≡ true
    → contains_text (add_excluding name m names) k ≡ true
unfolding add_excluding contains_text
contains-add_excluding name [] names k c = c
contains-add_excluding name ((j, i) ∷ m) names k c = ground (
  arith,
  contains-add_excluding name m names k,
  contains-add_excluding name m (names ++ j ∷ []) k,
  contains-snoc names j k,
)

add_excluding-lookup :
    (name : Text) (m : Table Instance) (names : List Text) (k : Text) {i : Instance}
    → lookup k m ≡ some i
    → contains_text i.unit.deps.conflicts name ≡ true
    → contains_text (add_excluding name m names) k ≡ true
unfolding add_excluding lookup
add_excluding-lookup name [] names k e c = ground arith
add_excluding-lookup name ((j, i') ∷ m) names k {i = i} e c = ground (
  arith,
  str_eq_iff j k,
  contains-add_excluding name m names k,
  contains-add_excluding name m (names ++ j ∷ []) k,
  contains-snoc names j k,
  add_excluding-lookup name m names k {i = i},
  add_excluding-lookup name m (names ++ j ∷ []) k {i = i},
)

-- Whether the declarations of the one or of the other exclude each other.
abbrev pub exclude : Table Instance → Text → Text → Bool
exclude m a b = contains_text (conflicts_of m a) b || contains_text (conflicts_of m b) a

conflicting-exclude :
    (name k : Text) (s : Supervisor)
    → exclude s.instances name k ≡ true
    → wind_at s.instances k || contains_text (conflicting_with name s) k ≡ true
unfolding conflicting_with contains_text
conflicting-exclude name k s x = elim (Option-cases (lookup k s.instances)) [
  | inl e ↦ ground arith
  | inr (i, e) ↦ ground (
    arith,
    contains-add_excluding name s.instances (conflicts_of s.instances name) k,
    add_excluding-lookup name s.instances (conflicts_of s.instances name) k {i = i},
  )
]

abbrev stop_if_busy : World → Text → Supervisor → Supervisor
stop_if_busy w name s = if is_busy s.instances name then stop w name requested s else s

stop_if_busy-winds :
    (w : World) (name : Text) (s : Supervisor) (k : Text)
    → wind_at s.instances k || str_eq name k ≡ true
    → wind_at (stop_if_busy w name s).instances k ≡ true
stop_if_busy-winds w name s k o = elim (Bool-cases (is_busy s.instances name)) [
  | inl e ↦ let done = stop-winds w name s k o in ground arith
  | inr e ↦ ground (arith, str_eq_iff name k)
]

stop_busy-winds :
    (w : World) (names : List Text) (s : Supervisor) (k : Text)
    → wind_at s.instances k || contains_text names k ≡ true
    → wind_at (stop_busy w names s).instances k ≡ true
unfolding stop_busy contains_text
stop_busy-winds w [] s k o = ground arith
stop_busy-winds w (name ∷ names) s k o = elim (Bool-cases (contains_text names k)) [
  | inl e ↦ stop_busy-winds w names (stop_if_busy w name s) k (ground arith)
  | inr e ↦
      let done = stop_if_busy-winds w name s k (ground arith) in
      stop_busy-winds w names (stop_if_busy w name s) k (ground arith)
]

-- A unit other than the one that starts is left as it is by the start itself.
start_service-lookup :
    (w : World) (name : Text) (svc : Service) (i : Instance) (s : Supervisor) (k : Text)
    → str_eq name k ≡ false
    → lookup k (start_service w name svc i s).instances ≡ lookup k s.instances
unfolding start_service service_started
start_service-lookup w name svc i s k o = elim (Option-cases (w.spawn name)) [
  | inl e ↦ ground (arith, lookup-modify name k (λ _. failed_to_start i) s.instances)
  | inr (pid, e) ↦ ground (
    arith,
    lookup-modify name k (λ _. failed_to_start i) s.instances,
    lookup-modify name k (λ _. entered_activating pid i) s.instances,
    lookup-modify name k (λ _. entered_active w.now (entered_activating pid i)) s.instances,
  )
]

pub arm-instances :
    (w : World) (name : Text) (n : Option Next) (s : Supervisor)
    → (arm w name n s).instances ≡ s.instances
unfolding arm
arm-instances w name none s = refl
arm-instances w name (some (Next.after delay)) s = ground arith
arm-instances w name (some (Next.moment t)) s = ground arith

pub start_instance-lookup :
    (w : World) (name : Text) (i : Instance) (s : Supervisor) (k : Text)
    → str_eq name k ≡ false
    → lookup k (start_instance w name i s).instances ≡ lookup k s.instances
unfolding start_instance
start_instance-lookup w name i s k o = of_kind i.unit.kind
  where
    of_kind :
        (kind : Kind)
        → lookup k
            (elim kind as (λ _. Supervisor) [
              | Kind.target ↦ put name (entered_active w.now i) s
              | Kind.timer t ↦
                  arm w name (first t.schedule w.unix_now) (put name (entered_active w.now i) s)
              | Kind.socket _ ↦ put name (entered_active w.now i) s
              | Kind.service svc ↦ start_service w name svc i s
            ]).instances
          ≡ lookup k s.instances
    of_kind Kind.target =
        ground (arith, lookup-modify name k (λ _. entered_active w.now i) s.instances)
    of_kind (Kind.timer t) = ground (
      arith,
      arm-instances w name (first t.schedule w.unix_now) (put name (entered_active w.now i) s),
      lookup-modify name k (λ _. entered_active w.now i) s.instances,
    )
    of_kind (Kind.socket _) =
        ground (arith, lookup-modify name k (λ _. entered_active w.now i) s.instances)
    of_kind (Kind.service svc) = start_service-lookup w name svc i s k o

-- A start that is not refused leaves every other unit that excludes the started one, on whichever
-- side the conflict is declared, idle or stopping.
pub start-exclude :
    (w : World) (name k : Text) (s : Supervisor)
    → s.shutdown ≡ none
    → str_eq name k ≡ false
    → exclude s.instances name k ≡ true
    → wind_at (start w name s).instances k ≡ true
unfolding start start_now shutting_down
start-exclude w name k s n o x =
    let t = stop_busy w (conflicting_with name s) s in
    let stopped =
      stop_busy-winds w (conflicting_with name s) s k (conflicting-exclude name k s x) in
    elim (Option-cases (lookup name t.instances)) [
      | inl e ↦ ground arith
      | inr (i, e) ↦ ground (arith, start_instance-lookup w name i t k o)
    ]
