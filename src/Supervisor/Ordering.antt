-- ===== src/Supervisor/Ordering.antt =====
-- The order in which a pump of crates/oxinit/src/supervisor.rs takes units from the start queue.
use oxinit.Prelude.{
  ℕ, zero, suc, ◌≡◌, inl, inr, refl, ap, ◌∙◌, Bool, true, none, some, arith, List, [], ◌∷◌, not,
  all, ◌&&◌, keep, find, Option-cases, Bool-cases,
}
use oxinit.Text.{Text, str_eq, str_eq_iff, contains_text}
use oxinit.Table.{Table, lookup, modify, lookup-modify}
use oxinit.Unit.{Kind, Service}
use oxinit.Service.{
  Instance, requested, failed_to_start, entered_active, entered_activating, cancel_restart,
  entered_deactivating, deactivated,
}
use oxinit.Supervisor.{
  World, Supervisor, stop, stop_instance, stop_busy, conflicting_with, start_service,
  service_started, start_instance, arm, start_now, start, shutting_down, next_startable,
  ordering_satisfied, holds_back, pump_one, failed_requirement, put, is_busy,
}
use oxinit.Supervisor.Winding.{stop-lookup, stopped}
use oxinit.Supervisor.Queue.{start_instance-pending}
use oxinit.Timer.{first}
use oxinit.Supervisor.Conflicts.{arm-instances}

abbrev pub after_of : Table Instance → Text → List Text
after_of m name = elim (lookup name m) [ none ↦ [] | some i ↦ i.unit.deps.after ]

-- The units that the rounds of a pump take, one after the other.
unfoldable pub taken : ℕ → World → Supervisor → List Text
taken zero w s = []
taken (suc n) w s = elim (next_startable s) [
  | none ↦ []
  | some name ↦ name ∷ taken n w (pump_one w name s)
]

-- No unit stands before one that it is `after`.
abbrev pub in_order : Table Instance → List Text → Bool
in_order m [] = true
in_order m (b ∷ later) = all (λ d. not (contains_text later d)) (after_of m b) && in_order m later

-- What is in the queue later was in it before.
contains-keep :
    (name k : Text) (xs : List Text)
    → contains_text (keep (λ q. not (str_eq q name)) xs) k ≡ true
    → contains_text xs k ≡ true
unfolding contains_text
contains-keep name k [] c = c
contains-keep name k (x ∷ xs) c = ground (arith, contains-keep name k xs)

stop-queue :
    (w : World) (name k : Text) (s : Supervisor)
    → contains_text (stop w name requested s).pending k ≡ true
    → contains_text s.pending k ≡ true
unfolding stop stop_instance
stop-queue w name k s c = ground (arith, contains-keep name k s.pending)

stop_busy-queue :
    (w : World) (names : List Text) (k : Text) (s : Supervisor)
    → contains_text (stop_busy w names s).pending k ≡ true
    → contains_text s.pending k ≡ true
unfolding stop_busy
stop_busy-queue w [] k s c = c
stop_busy-queue w (name ∷ names) k s c = ground (
  arith,
  stop_busy-queue w names k s,
  stop_busy-queue w names k (stop w name requested s),
  stop-queue w name k s,
)

pub start-queue :
    (w : World) (name k : Text) (s : Supervisor)
    → contains_text (start w name s).pending k ≡ true
    → contains_text s.pending k ≡ true
unfolding start start_now
start-queue w name k s c =
    let t = stop_busy w (conflicting_with name s) s in
    elim (Option-cases (lookup name t.instances)) [
      | inl e ↦ ground (arith, stop_busy-queue w (conflicting_with name s) k s)
      | inr (i, e) ↦
          let same = start_instance-pending w name i t in
          ground (arith, stop_busy-queue w (conflicting_with name s) k s)
    ]

pub pump_one-queue :
    (w : World) (name k : Text) (s : Supervisor)
    → contains_text (pump_one w name s).pending k ≡ true
    → contains_text s.pending k ≡ true
unfolding pump_one
pump_one-queue w name k s c =
    let queue = keep (λ q. not (str_eq q name)) s.pending in
    ground
      (arith, contains-keep name k s.pending, start-queue w name k (record s { pending = queue }))

find-contains :
    (p : Text → Bool) (xs : List Text) {x : Text}
    → find p xs ≡ some x
    → (contains_text xs x ≡ true) × (p x ≡ true)
unfolding contains_text
find-contains p [] e = ground arith
find-contains p (y ∷ xs) {x = x} e = ground (arith, str_eq_iff y x, find-contains p xs {x = x})

pub taken-queue :
    (n : ℕ) (w : World) (k : Text) (s : Supervisor)
    → contains_text (taken n w s) k ≡ true
    → contains_text s.pending k ≡ true
unfolding taken contains_text next_startable
taken-queue zero w k s c = ground arith
taken-queue (suc n) w k s c = elim (Option-cases (next_startable s)) [
  | inl e ↦ ground arith
  | inr (name, e) ↦
      let (here, _) = find-contains (ordering_satisfied s) s.pending e in
      ground
        (arith, str_eq_iff name k, taken-queue n w k (pump_one w name s), pump_one-queue w name k s)
]

-- What a unit is `after` is the same whatever is done to it.
stopped-unit : (w : World) (i : Instance) → (stopped w i).unit ≡ i.unit
unfolding cancel_restart entered_deactivating deactivated
stopped-unit w i = ground arith

stop-after :
    (w : World) (name k : Text) (s : Supervisor)
    → after_of (stop w name requested s).instances k ≡ after_of s.instances k
stop-after w name k s = elim (Option-cases (lookup k s.instances)) [
  | inl e ↦ ground (arith, stop-lookup w name s k)
  | inr (i, e) ↦ ground (arith, stop-lookup w name s k, stopped-unit w i)
]

stop_busy-after :
    (w : World) (names : List Text) (k : Text) (s : Supervisor)
    → after_of (stop_busy w names s).instances k ≡ after_of s.instances k
unfolding stop_busy
stop_busy-after w [] k s = refl
stop_busy-after w (name ∷ names) k s = elim (Bool-cases (is_busy s.instances name)) [
  | inl e ↦
      let one = stop-after w name k s in
      let rest = stop_busy-after w names k (stop w name requested s) in ground arith
  | inr e ↦ let rest = stop_busy-after w names k s in ground arith
]

-- Putting an instance of the same unit.
put-after :
    (name k : Text) (i j : Instance) (s : Supervisor)
    → lookup name s.instances ≡ some i
    → j.unit ≡ i.unit
    → after_of (put name j s).instances k ≡ after_of s.instances k
put-after name k i j s e u =
    ground (arith, str_eq_iff name k, lookup-modify name k (λ _. j) s.instances)

start_service-after :
    (w : World) (name k : Text) (svc : Service) (i : Instance) (s : Supervisor)
    → lookup name s.instances ≡ some i
    → after_of (start_service w name svc i s).instances k ≡ after_of s.instances k
unfolding start_service service_started failed_to_start entered_activating entered_active
start_service-after w name k svc i s e = elim (Option-cases (w.spawn name)) [
  | inl n ↦ ground (arith, put-after name k i (failed_to_start i) s e refl)
  | inr (pid, n) ↦ ground (
    arith,
    put-after name k i (failed_to_start i) s e refl,
    put-after name k i (entered_activating pid i) s e refl,
    put-after name k i (entered_active w.now (entered_activating pid i)) s e refl,
  )
]

start_instance-after :
    (w : World) (name k : Text) (i : Instance) (s : Supervisor)
    → lookup name s.instances ≡ some i
    → after_of (start_instance w name i s).instances k ≡ after_of s.instances k
unfolding start_instance entered_active
start_instance-after w name k i s e = of_kind i.unit.kind
  where
    of_kind :
        (kind : Kind)
        → after_of
            (elim kind as (λ _. Supervisor) [
              | Kind.target ↦ put name (entered_active w.now i) s
              | Kind.timer t ↦
                  arm w name (first t.schedule w.unix_now) (put name (entered_active w.now i) s)
              | Kind.socket _ ↦ put name (entered_active w.now i) s
              | Kind.service svc ↦ start_service w name svc i s
            ]).instances
            k
          ≡ after_of s.instances k
    of_kind Kind.target = put-after name k i (entered_active w.now i) s e refl
    of_kind (Kind.timer t) =
        ap (λ m. after_of m k)
          (arm-instances w name (first t.schedule w.unix_now) (put name (entered_active w.now i) s))
        ∙ put-after name k i (entered_active w.now i) s e refl
    of_kind (Kind.socket _) = put-after name k i (entered_active w.now i) s e refl
    of_kind (Kind.service svc) = start_service-after w name k svc i s e

start-after :
    (w : World) (name k : Text) (s : Supervisor)
    → after_of (start w name s).instances k ≡ after_of s.instances k
unfolding start start_now
start-after w name k s =
    let t = stop_busy w (conflicting_with name s) s in
    let stops = stop_busy-after w (conflicting_with name s) k s in
    elim (Bool-cases (shutting_down s)) [
      | inl d ↦ ground arith
      | inr d ↦ elim (Option-cases (lookup name t.instances)) [
        | inl e ↦ ground arith
        | inr (i, e) ↦ let starts = start_instance-after w name k i t e in ground arith
      ]
    ]

fail-after :
    (name k : Text) (s : Supervisor)
    → after_of (modify name failed_to_start s.instances) k ≡ after_of s.instances k
unfolding failed_to_start
fail-after name k s = ground (arith, lookup-modify name k failed_to_start s.instances)

pump_one-after :
    (w : World) (name k : Text) (s : Supervisor)
    → after_of (pump_one w name s).instances k ≡ after_of s.instances k
unfolding pump_one
pump_one-after w name k s =
    let t = record s { pending = keep (λ q. not (str_eq q name)) s.pending } in
    elim (Option-cases (failed_requirement t name)) [
      | inl e ↦ let starts = start-after w name k t in ground arith
      | inr (d, e) ↦ let fails = fail-after name k t in ground arith
    ]

in_order-same :
    (m n : Table Instance) (xs : List Text)
    → ((k : Text) → after_of m k ≡ after_of n k)
    → in_order m xs ≡ true
    → in_order n xs ≡ true
in_order-same m n [] same o = refl
in_order-same m n (x ∷ xs) same o = let here = same x in ground (arith, in_order-same m n xs same)

-- What a startable unit is `after` is taken by no later round.
none_later :
    (n : ℕ) (w : World) (name : Text) (s : Supervisor) (deps : List Text)
    → all (λ d. not (holds_back s d)) deps ≡ true
    → all (λ d. not (contains_text (taken n w (pump_one w name s)) d)) deps ≡ true
none_later n w name s [] a = refl
none_later n w name s (d ∷ deps) a = ground (
  arith,
  none_later n w name s deps,
  taken-queue n w d (pump_one w name s),
  pump_one-queue w name d s,
)

satisfied-after :
    (s : Supervisor) (name : Text)
    → ordering_satisfied s name ≡ true
    → all (λ d. not (holds_back s d)) (after_of s.instances name) ≡ true
unfolding ordering_satisfied
satisfied-after s name o = elim (Option-cases (lookup name s.instances)) [
  | inl e ↦ ground arith
  | inr (i, e) ↦ ground arith
]

-- However many rounds a pump runs and whatever the kernel answers meanwhile, it takes no unit from the queue
-- before one that this unit is `after`.
pub taken-in_order :
    (n : ℕ) (w : World) (s : Supervisor) → in_order s.instances (taken n w s) ≡ true
unfolding taken next_startable
taken-in_order zero w s = refl
taken-in_order (suc n) w s = elim (Option-cases (next_startable s)) [
  | inl e ↦ ground arith
  | inr (name, e) ↦
      let (_, ready) = find-contains (ordering_satisfied s) s.pending e in
      let here = none_later n w name s (after_of s.instances name) (satisfied-after s name ready) in
      let rest =
        in_order-same (pump_one w name s).instances s.instances (taken n w (pump_one w name s))
          (λ k. pump_one-after w name k s) (taken-in_order n w (pump_one w name s)) in
      ground arith
]
