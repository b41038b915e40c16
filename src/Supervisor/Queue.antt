-- ===== src/Supervisor/Queue.antt =====
-- The start queue of crates/oxinit/src/supervisor.rs: a pump goes as far as the ordering lets it.
use oxinit.Prelude.{
  ℕ, zero, suc, ◌≡◌, ◌≤◌, ◌<◌, inl, inr, refl, Bool, Option, none, some, arith, List, [], ◌∷◌, not,
  keep, find, length, Option-cases,
}
use oxinit.Text.{Text, str_eq, str_eq_iff}
use oxinit.Table.{lookup}
use oxinit.Timer.{Next, first}
use oxinit.Unit.{Kind, Service}
use oxinit.Service.{Instance, requested, StopCause, entered_active}
use oxinit.Supervisor.{
  World, Supervisor, stop, stop_instance, stop_busy, conflicting_with, arm, start_service,
  service_started, start_instance, start_now, start, next_startable, ordering_satisfied, pump_one,
  pump_rounds, pump, put,
}

length-keep : (p : Text → Bool) (xs : List Text) → length (keep p xs) ≤ length xs
length-keep p [] = omega arith
length-keep p (x ∷ xs) = ground (arith, length-keep p xs)

-- Without its first element of a kind, a list is shorter.
length-without :
    (p : Text → Bool) (name : Text) (xs : List Text)
    → find p xs ≡ some name
    → length (keep (λ q. not (str_eq q name)) xs) < length xs
length-without p name [] e = ground arith
length-without p name (x ∷ xs) e =
    ground (
      arith,
      length-keep (λ q. not (str_eq q name)) xs,
      length-without p name xs,
      str_eq_iff x name,
    )

stop-pending :
    (w : World) (name : Text) (cause : StopCause) (s : Supervisor)
    → length (stop w name cause s).pending ≤ length s.pending
unfolding stop stop_instance
stop-pending w name cause s = ground (arith, length-keep (λ q. not (str_eq q name)) s.pending)

stop_busy-pending :
    (w : World) (names : List Text) (s : Supervisor)
    → length (stop_busy w names s).pending ≤ length s.pending
unfolding stop_busy
stop_busy-pending w [] s = omega arith
stop_busy-pending w (name ∷ names) s = ground (
  arith,
  stop_busy-pending w names s,
  stop_busy-pending w names (stop w name requested s),
  stop-pending w name requested s,
)

arm-pending :
    (w : World) (name : Text) (n : Option Next) (s : Supervisor)
    → (arm w name n s).pending ≡ s.pending
unfolding arm
arm-pending w name none s = refl
arm-pending w name (some (Next.after delay)) s = ground arith
arm-pending w name (some (Next.moment t)) s = ground arith

start_service-pending :
    (w : World) (name : Text) (svc : Service) (i : Instance) (s : Supervisor)
    → (start_service w name svc i s).pending ≡ s.pending
unfolding start_service service_started
start_service-pending w name svc i s = ground arith

pub start_instance-pending :
    (w : World) (name : Text) (i : Instance) (s : Supervisor)
    → (start_instance w name i s).pending ≡ s.pending
unfolding start_instance
start_instance-pending w name i s = of_kind i.unit.kind
  where
    of_kind :
        (k : Kind)
        → (elim k as (λ _. Supervisor) [
          | Kind.target ↦ put name (entered_active w.now i) s
          | Kind.timer t ↦
              arm w name (first t.schedule w.unix_now) (put name (entered_active w.now i) s)
          | Kind.socket _ ↦ put name (entered_active w.now i) s
          | Kind.service svc ↦ start_service w name svc i s
        ]).pending
          ≡ s.pending
    of_kind Kind.target = refl
    of_kind (Kind.timer t) =
        arm-pending w name (first t.schedule w.unix_now) (put name (entered_active w.now i) s)
    of_kind (Kind.socket _) = refl
    of_kind (Kind.service svc) = start_service-pending w name svc i s

start-pending :
    (w : World) (name : Text) (s : Supervisor) → length (start w name s).pending ≤ length s.pending
unfolding start start_now
start-pending w name s =
    let t = stop_busy w (conflicting_with name s) s in
    elim (Option-cases (lookup name t.instances)) [
      | inl e ↦ ground (arith, stop_busy-pending w (conflicting_with name s) s)
      | inr (i, e) ↦ ground (
        arith,
        stop_busy-pending w (conflicting_with name s) s,
        start_instance-pending w name i t,
      )
    ]

pump_one-pending :
    (w : World) (name : Text) (s : Supervisor)
    → next_startable s ≡ some name
    → length (pump_one w name s).pending < length s.pending
unfolding pump_one next_startable
pump_one-pending w name s e =
    let queue = keep (λ q. not (str_eq q name)) s.pending in
    let shorter = length-without (ordering_satisfied s) name s.pending e in
    ground (arith, start-pending w name (record s { pending = queue }))

find-empty : (p : Text → Bool) (xs : List Text) → length xs ≤ 0 → find p xs ≡ none
find-empty p [] l = refl
find-empty p (x ∷ xs) l = ground arith

next_startable-empty : (s : Supervisor) → length s.pending ≤ 0 → next_startable s ≡ none
unfolding next_startable
next_startable-empty s l = find-empty (ordering_satisfied s) s.pending l

pump_rounds-ends :
    (n : ℕ) (w : World) (s : Supervisor)
    → length s.pending ≤ n
    → next_startable (pump_rounds n w s) ≡ none
unfolding pump_rounds
pump_rounds-ends zero w s l = next_startable-empty s l
pump_rounds-ends (suc n) w s l = elim (Option-cases (next_startable s)) [
  | inl e ↦ ground arith
  | inr (name, e) ↦
      let shorter = pump_one-pending w name s e in
      ground (arith, pump_rounds-ends n w (pump_one w name s))
]

-- A pump leaves nothing in the queue that could start: as many rounds as units are queued are enough.
pub pump-next_startable : (w : World) (s : Supervisor) → next_startable (pump w s) ≡ none
unfolding pump
pump-next_startable w s = ground (
  arith,
  next_startable-empty (record s { pending = [] }) (omega arith),
  pump_rounds-ends (length s.pending) w s (omega arith),
)
