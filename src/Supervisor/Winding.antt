-- ===== src/Supervisor/Winding.antt =====
-- Lemmas on the way down: what crates/oxinit/src/supervisor.rs leaves of the units and of the record
-- of what was done, once a shutdown has begun.
use oxinit.Prelude.{
  ◌≡◌, ◌↔◌, ◌⊎◌, inl, inr, refl, sym, ap, subst, ◌∙◌, Bool, true, false, none, some, arith, List,
  [], ◌∷◌, ◌++◌, if◌then◌else◌, ◌||◌, Bool-cases, Option-cases, is_some, keep, reverse,
}
use oxinit.Text.{Text, str_eq, str_eq_iff, contains_text}
use oxinit.Table.{Table, lookup, modify, keys, lookup-modify}
use oxinit.Unit.{service_of}
use oxinit.Service.{
  Instance, State, inactive, activating, active, deactivating, failed, restarting, is_state,
  StopCause, requested, cancel_restart, deactivated, entered_deactivating,
}
use oxinit.Supervisor.{
  World, Supervisor, Effect, spawned, terminated, stop, stop_instance, put, is_idle, stop_all,
  stop_order, add_missing, begin_shutdown, Action,
}
use oxinit.Table.Sets.{contains-snoc}

pub is_idle_iff : (s : State) → (is_idle s ≡ true) ↔ ((s ≡ inactive) ⊎ (s ≡ failed))
is_idle_iff inactive = (λ _. inl refl, λ _. refl)
is_idle_iff failed = (λ _. inr refl, λ _. refl)
is_idle_iff activating = ground arith
is_idle_iff active = ground arith
is_idle_iff deactivating = ground arith
is_idle_iff restarting = ground arith

-- Idle, or on its way there.
abbrev pub winds : State → Bool
winds s = is_idle s || is_state s deactivating

abbrev pub wind_at : Table Instance → Text → Bool
wind_at m name = elim (lookup name m) [ none ↦ true | some i ↦ winds i.state ]

abbrev pub AllWind : Table Instance → Type 0
AllWind m = (name : Text) → wind_at m name ≡ true

abbrev pub is_spawned : Effect → Bool
is_spawned (spawned name pid) = true
is_spawned _ = false

-- What was started so far.
abbrev pub starts : Supervisor → List Effect
starts s = keep is_spawned s.effects

pub starts-snoc :
    (e : Effect) (es : List Effect)
    → is_spawned e ≡ false
    → keep is_spawned (es ++ e ∷ []) ≡ keep is_spawned es
starts-snoc e [] n = ground arith
starts-snoc e (f ∷ es) n = ground (arith, starts-snoc e es n)

-- A supervisor on the way down.
pub record IsDown (s : Supervisor) : Type 0 where
  pub down : is_some s.shutdown ≡ true
  pub winding : AllWind s.instances

-- What an operation leaves as it was on the way down.
pub record Keeps (s t : Supervisor) : Type 0 where
  pub shutdown : t.shutdown ≡ s.shutdown
  pub starts : starts t ≡ starts s
  pub winding : AllWind t.instances

pub Keeps-IsDown : {s t : Supervisor} → IsDown s → Keeps s t → IsDown t
Keeps-IsDown d k = record {
  down = subst (λ o. is_some o ≡ true) (sym k.shutdown) d.down;
  winding = k.winding;
}

pub Keeps-refl : {s : Supervisor} → IsDown s → Keeps s s
Keeps-refl d = record { shutdown = refl; starts = refl; winding = d.winding }

pub Keeps-trans : {s t u : Supervisor} → Keeps s t → Keeps t u → Keeps s u
Keeps-trans k l = record {
  shutdown = l.shutdown ∙ k.shutdown;
  starts = l.starts ∙ k.starts;
  winding = l.winding;
}

pub put-winds :
    (name : Text) (i : Instance) (m : Table Instance) (k : Text)
    → winds i.state ≡ true
    → wind_at m k ≡ true
    → wind_at (modify name (λ _. i) m) k ≡ true
put-winds name i m k v w = ground (arith, lookup-modify name k (λ _. i) m)

pub put-Keeps :
    (name : Text) (i : Instance) (s : Supervisor)
    → winds i.state ≡ true
    → IsDown s
    → Keeps s (put name i s)
put-Keeps name i s v d = record {
  shutdown = refl;
  starts = refl;
  winding = λ k. put-winds name i s.instances k v (d.winding k);
}

-- A stop starts nothing, leaves no unit less wound down, and winds its own unit down.
pub stop-shutdown :
    (w : World) (name : Text) (cause : StopCause) (s : Supervisor)
    → ((stop w name cause s).shutdown ≡ s.shutdown) × (starts (stop w name cause s) ≡ starts s)
unfolding stop stop_instance
stop-shutdown w name cause s = ground (arith, starts-snoc (terminated name) s.effects refl)

-- The instance that a stop leaves.
abbrev pub stopped : World → Instance → Instance
stopped w i =
    if is_state i.state restarting then cancel_restart i else elim (service_of i.unit.kind) [
      | none ↦ (deactivated w.now (entered_deactivating requested i)).0
      | some svc ↦
          if is_idle i.state || is_state i.state deactivating
          then i
          else entered_deactivating requested i
    ]

stopped-winds : (w : World) (i : Instance) → winds (stopped w i).state ≡ true
unfolding cancel_restart entered_deactivating deactivated
stopped-winds w i = ground arith

pub stop-lookup :
    (w : World) (name : Text) (s : Supervisor) (k : Text)
    → lookup k (stop w name requested s).instances ≡ elim (lookup k s.instances) [
      | none ↦ none
      | some i ↦ if str_eq name k then some (stopped w i) else some i
    ]
unfolding stop stop_instance
stop-lookup w name s k = elim (Option-cases (lookup name s.instances)) [
  | inl e ↦ ground (arith, str_eq_iff name k)
  | inr (i, e) ↦
      ground (arith, str_eq_iff name k, lookup-modify name k (λ _. stopped w i) s.instances)
]

pub stop-winds :
    (w : World) (name : Text) (s : Supervisor) (k : Text)
    → wind_at s.instances k || str_eq name k ≡ true
    → wind_at (stop w name requested s).instances k ≡ true
stop-winds w name s k o = elim (Option-cases (lookup k s.instances)) [
  | inl e ↦ ground (arith, stop-lookup w name s k)
  | inr (i, e) ↦ ground (arith, stop-lookup w name s k, stopped-winds w i)
]

pub stop-Keeps :
    (w : World) (name : Text) (s : Supervisor) → IsDown s → Keeps s (stop w name requested s)
stop-Keeps w name s d =
    let (sd, st) = stop-shutdown w name requested s in
    record {
      shutdown = sd;
      starts = st;
      winding = λ k. let here = d.winding k in stop-winds w name s k (ground arith);
    }

stop_all-shutdown :
    (w : World) (names : List Text) (s : Supervisor)
    → ((stop_all w names s).shutdown ≡ s.shutdown) × (starts (stop_all w names s) ≡ starts s)
unfolding stop_all
stop_all-shutdown w [] s = (refl, refl)
stop_all-shutdown w (name ∷ names) s =
    let (sd, st) = stop-shutdown w name requested s in
    let (sd', st') = stop_all-shutdown w names (stop w name requested s) in (sd' ∙ sd, st' ∙ st)

stop_all-winds :
    (w : World) (names : List Text) (s : Supervisor) (k : Text)
    → wind_at s.instances k || contains_text names k ≡ true
    → wind_at (stop_all w names s).instances k ≡ true
unfolding stop_all contains_text
stop_all-winds w [] s k o = ground arith
stop_all-winds w (name ∷ names) s k o =
    ground (arith, stop_all-winds w names (stop w name requested s) k, stop-winds w name s k)

contains-add_missing :
    (ks names : List Text) (k : Text)
    → contains_text (add_missing ks names) k ≡ (contains_text ks k || contains_text names k)
unfolding add_missing contains_text
contains-add_missing [] names k = refl
contains-add_missing (j ∷ ks) names k = elim (Bool-cases (contains_text names j)) [
  | inl e ↦ ground (arith, str_eq_iff j k, contains-add_missing ks names k)
  | inr e ↦ ground (arith, contains-add_missing ks (names ++ j ∷ []) k, contains-snoc names j k)
]

wind-keys : (m : Table Instance) (k : Text) → wind_at m k || contains_text (keys m) k ≡ true
unfolding lookup contains_text
wind-keys [] k = refl
wind-keys ((j, i) ∷ m) k = ground (arith, wind-keys m k)

abbrev with_shutdown : World → Action → Supervisor → Supervisor
with_shutdown w action s = record s {
  shutdown = some (record { action = action; started = w.now });
}

begin-stops :
    (w : World) (action : Action) (s : Supervisor)
    → s.shutdown ≡ none
    → begin_shutdown w action s
      ≡ stop_all w (stop_order (with_shutdown w action s)) (with_shutdown w action s)
unfolding begin_shutdown
begin-stops w action s n = ground arith

-- Every shutdown begins with every unit wound down, and starts nothing.
pub begin_shutdown-IsDown :
    (w : World) (action : Action) (s : Supervisor)
    → s.shutdown ≡ none
    → IsDown (begin_shutdown w action s)
      × ((begin_shutdown w action s).shutdown ≡ some (record { action = action; started = w.now }))
      × (starts (begin_shutdown w action s) ≡ starts s)
unfolding stop_order
begin_shutdown-IsDown w action s n =
    let t = with_shutdown w action s in
    let (sd, st) = stop_all-shutdown w (stop_order t) t in
    let same = begin-stops w action s n in
    (
      record {
        down = ground arith;
        winding = λ k. ground (
          arith,
          stop_all-winds w (stop_order t) t k,
          contains-add_missing (keys s.instances) (reverse s.order) k,
          wind-keys s.instances k,
        );
      },
      ap (λ u. u.shutdown) same ∙ sd,
      ap starts same ∙ st,
    )

-- A second order to go down changes nothing.
pub begin_shutdown-again :
    (w : World) (action : Action) (s : Supervisor)
    → is_some s.shutdown ≡ true
    → begin_shutdown w action s ≡ s
unfolding begin_shutdown
begin_shutdown-again w action s d = ground arith
