-- ===== src/Supervisor/Spawning.antt =====
-- The processes that a pump of crates/oxinit/src/supervisor.rs starts.
use oxinit.Prelude.{
  append_nil, append_assoc, ℕ, zero, suc, ◌≡◌, inl, inr, refl, sym, ap, subst, ◌∙◌, true, false,
  ◌&&◌, Option, none, some, arith, List, [], ◌∷◌, ◌++◌, not, keep, length, Option-cases, Bool-cases,
}
use oxinit.Text.{Text, str_eq, str_eq_iff, contains_text}
use oxinit.Table.{lookup}
use oxinit.Timer.{Next, first}
use oxinit.Unit.{Kind, Service}
use oxinit.Service.{Instance, requested, entered_active}
use oxinit.Supervisor.{
  World, Supervisor, Effect, spawned, stop, stop_busy, conflicting_with, start_service,
  service_started, start_instance, arm, start_now, start, shutting_down, next_startable, pump_one,
  pump_rounds, pump, failed_requirement, put, is_busy, apply_resources, output_for,
}
use oxinit.Supervisor.Winding.{starts, is_spawned, stop-shutdown}
use oxinit.Supervisor.Ordering.{
  taken, in_order, taken-in_order, taken-queue, start-queue, pump_one-queue,
}
use oxinit.Table.Sets.{Distinct}

-- The start of a unit, which may come to nothing.
abbrev pub attempt : Text → Option ℕ → List Effect
attempt name none = []
attempt name (some pid) = spawned name pid ∷ []

-- The starts of some units, each with the pid that it got, if it was started.
abbrev pub attempts : List (Text × Option ℕ) → List Effect
attempts [] = []
attempts ((name, pid) ∷ xs) = attempt name pid ++ attempts xs

abbrev pub names_of : List (Text × Option ℕ) → List Text
names_of [] = []
names_of ((name, pid) ∷ xs) = name ∷ names_of xs

keep-spawned :
    (name : Text) (pid : ℕ) (es : List Effect)
    → keep is_spawned (es ++ spawned name pid ∷ []) ≡ keep is_spawned es ++ spawned name pid ∷ []
keep-spawned name pid [] = refl
keep-spawned name pid (e ∷ es) = ground (arith, keep-spawned name pid es)

stop_busy-starts :
    (w : World) (names : List Text) (s : Supervisor) → starts (stop_busy w names s) ≡ starts s
unfolding stop_busy
stop_busy-starts w [] s = refl
stop_busy-starts w (name ∷ names) s = elim (Bool-cases (is_busy s.instances name)) [
  | inl e ↦
      let (_, one) = stop-shutdown w name requested s in
      let rest = stop_busy-starts w names (stop w name requested s) in ground arith
  | inr e ↦ let rest = stop_busy-starts w names s in ground arith
]

start_service-starts :
    (w : World) (name : Text) (svc : Service) (i : Instance) (s : Supervisor)
    → (pid : Option ℕ) × (starts (start_service w name svc i s) ≡ starts s ++ attempt name pid)
unfolding start_service service_started
start_service-starts w name svc i s = elim (Option-cases (w.spawn name)) [
  | inl n ↦ (none, ground (arith, append_nil (starts s)))
  | inr (pid, n) ↦
      elim (Bool-cases (apply_resources w name svc.resources && output_for w name svc.output)) [
        | inl ok ↦ (some pid, ground (arith, keep-spawned name pid s.effects))
        | inr no_go ↦ (none, ground (arith, append_nil (starts s)))
      ]
]

arm-starts :
    (w : World) (name : Text) (n : Option Next) (s : Supervisor)
    → (arm w name n s).effects ≡ s.effects
unfolding arm
arm-starts w name none s = refl
arm-starts w name (some (Next.after delay)) s = ground arith
arm-starts w name (some (Next.moment t)) s = ground arith

start_instance-starts :
    (w : World) (name : Text) (i : Instance) (s : Supervisor)
    → (pid : Option ℕ) × (starts (start_instance w name i s) ≡ starts s ++ attempt name pid)
unfolding start_instance
start_instance-starts w name i s = of_kind i.unit.kind
  where
    of_kind :
        (kind : Kind)
        → (pid : Option ℕ) × (starts (elim kind as (λ _. Supervisor) [
          | Kind.target ↦ put name (entered_active w.now i) s
          | Kind.timer t ↦
              arm w name (first t.schedule w.unix_now) (put name (entered_active w.now i) s)
          | Kind.socket _ ↦ put name (entered_active w.now i) s
          | Kind.service svc ↦ start_service w name svc i s
        ])
            ≡ starts s ++ attempt name pid)
    of_kind Kind.target = (none, append_nil (starts s))
    of_kind (Kind.timer t) = (
      none,
      ap (λ es. keep is_spawned es)
            (arm-starts w name (first t.schedule w.unix_now) (put name (entered_active w.now i) s))
          ∙ append_nil (starts s),
    )
    of_kind (Kind.socket _) = (none, append_nil (starts s))
    of_kind (Kind.service svc) = start_service-starts w name svc i s

start-starts :
    (w : World) (name : Text) (s : Supervisor)
    → (pid : Option ℕ) × (starts (start w name s) ≡ starts s ++ attempt name pid)
unfolding start start_now
start-starts w name s =
    let t = stop_busy w (conflicting_with name s) s in
    let stops = stop_busy-starts w (conflicting_with name s) s in
    elim (Bool-cases (shutting_down s)) [
      | inl d ↦ (none, ground (arith, append_nil (starts s)))
      | inr d ↦ elim (Option-cases (lookup name t.instances)) [
        | inl e ↦ (none, ground (arith, append_nil (starts s)))
        | inr (i, e) ↦ let (pid, one) = start_instance-starts w name i t in (pid, ground arith)
      ]
    ]

pump_one-starts :
    (w : World) (name : Text) (s : Supervisor)
    → (pid : Option ℕ) × (starts (pump_one w name s) ≡ starts s ++ attempt name pid)
unfolding pump_one
pump_one-starts w name s =
    let t = record s { pending = keep (λ q. not (str_eq q name)) s.pending } in
    elim (Option-cases (failed_requirement t name)) [
      | inl e ↦ let (pid, one) = start-starts w name t in (pid, ground arith)
      | inr (d, e) ↦ (none, ground (arith, append_nil (starts s)))
    ]

pump_rounds-starts :
    (n : ℕ) (w : World) (s : Supervisor)
    → (xs : List (Text × Option ℕ)) × (names_of xs ≡ taken n w s)
      × (starts (pump_rounds n w s) ≡ starts s ++ attempts xs)
unfolding pump_rounds taken
pump_rounds-starts zero w s = ([], refl, append_nil (starts s))
pump_rounds-starts (suc n) w s = elim (Option-cases (next_startable s)) [
  | inl e ↦ ([], ground arith, ground (arith, append_nil (starts s)))
  | inr (name, e) ↦
      let (pid, one) = pump_one-starts w name s in
      let (xs, same, rest) = pump_rounds-starts n w (pump_one w name s) in
      let joined = append_assoc (starts s) (attempt name pid) (attempts xs) in
      ((name, pid) ∷ xs, ground arith, ground arith)
]

without-absent :
    (name : Text) (xs : List Text) → contains_text (keep (λ q. not (str_eq q name)) xs) name ≡ false
unfolding contains_text
without-absent name [] = refl
without-absent name (x ∷ xs) = ground (arith, without-absent name xs)

-- A unit that is taken is no longer in the queue.
pump_one-gone :
    (w : World) (name : Text) (s : Supervisor)
    → contains_text (pump_one w name s).pending name ≡ false
unfolding pump_one
pump_one-gone w name s =
    let t = record s { pending = keep (λ q. not (str_eq q name)) s.pending } in
    let out = without-absent name s.pending in
    elim (Option-cases (failed_requirement t name)) [
      | inl e ↦ ground (arith, start-queue w name name t)
      | inr (d, e) ↦ ground arith
    ]

pump_rounds-queue :
    (n : ℕ) (w : World) (k : Text) (s : Supervisor)
    → contains_text (pump_rounds n w s).pending k ≡ true
    → contains_text s.pending k ≡ true
unfolding pump_rounds
pump_rounds-queue zero w k s c = c
pump_rounds-queue (suc n) w k s c = elim (Option-cases (next_startable s)) [
  | inl e ↦ ground arith
  | inr (name, e) ↦
      ground (arith, pump_rounds-queue n w k (pump_one w name s), pump_one-queue w name k s)
]

-- No unit is taken twice.
taken-Distinct : (n : ℕ) (w : World) (s : Supervisor) → Distinct (taken n w s)
unfolding taken
taken-Distinct zero w s = tt
taken-Distinct (suc n) w s = elim (Option-cases (next_startable s)) [
  | inl e ↦ rw (e, taken, Distinct) tt
  | inr (name, e) ↦
      rw (e, taken, Distinct)
        (
          ground (arith, pump_one-gone w name s, taken-queue n w name (pump_one w name s)),
          taken-Distinct n w (pump_one w name s),
        )
]

-- What is taken stays out of the queue.
taken-gone :
    (n : ℕ) (w : World) (v : Text) (s : Supervisor)
    → contains_text (taken n w s) v ≡ true
    → contains_text (pump_rounds n w s).pending v ≡ false
unfolding taken pump_rounds contains_text
taken-gone zero w v s c = ground arith
taken-gone (suc n) w v s c = elim (Option-cases (next_startable s)) [
  | inl e ↦ ground arith
  | inr (name, e) ↦ ground (
    arith,
    str_eq_iff name v,
    taken-gone n w v (pump_one w name s),
    pump_rounds-queue n w v (pump_one w name s),
    pump_one-gone w name s,
  )
]

-- Units that a pump can take from the queue `before`, and leaves out of the queue `after`.
pub record IsTaken (before after : List Text) (names : List Text) : Type 0 where
  pub once : Distinct names
  pub queued : (v : Text) → contains_text names v ≡ true → contains_text before v ≡ true
  pub gone : (v : Text) → contains_text names v ≡ true → contains_text after v ≡ false

taken-IsTaken :
    (n : ℕ) (w : World) (s : Supervisor)
    → IsTaken s.pending (pump_rounds n w s).pending (taken n w s)
taken-IsTaken n w s = record {
  once = taken-Distinct n w s;
  queued = λ v h. taken-queue n w v s h;
  gone = λ v h. taken-gone n w v s h;
}

-- A pump, whatever the kernel answers meanwhile, starts nothing but at most one process for each of some
-- units, in their order. Each of them is listed once, was in the queue and is not in it afterwards, and
-- none stands before one that it is `after`.
pub pump-in_order :
    (w : World) (s : Supervisor)
    → (xs : List (Text × Option ℕ)) × (starts (pump w s) ≡ starts s ++ attempts xs)
      × IsTaken s.pending (pump w s).pending (names_of xs)
      × (in_order s.instances (names_of xs) ≡ true)
unfolding pump
pump-in_order w s = elim (Bool-cases (shutting_down s)) [
  | inl d ↦ (
    [],
    ground (arith, append_nil (starts s)),
    record {
      once = tt;
      queued = λ v h. absurd (unfold contains_text in ground arith);
      gone = λ v h. absurd (unfold contains_text in ground arith);
    },
    refl,
  )
  | inr d ↦
      let n = length s.pending in
      let (xs, same, rest) = pump_rounds-starts n w s in
      rw d (
        xs,
        rest,
        subst (λ l. IsTaken s.pending (pump_rounds n w s).pending l) (sym same)
            (taken-IsTaken n w s),
        subst (λ l. in_order s.instances l ≡ true) (sym same) (taken-in_order n w s),
      )
]
