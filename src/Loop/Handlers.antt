-- ===== src/Loop/Handlers.antt =====
-- What each handler of crates/oxinit/src/supervisor.rs still does once a shutdown has begun.
use oxinit.Prelude.{
  ℕ, ◌≡◌, inl, inr, refl, sym, ap, subst, Bool, true, false, Option, none, some, arith, List, [],
  ◌∷◌, if◌then◌else◌, ◌&&◌, Option-cases, is_some, keep,
}
use oxinit.Text.{Text, contains_text}
use oxinit.Table.{lookup}
use oxinit.Unit.{forking, timer_of}
use oxinit.Time.{Duration, Instant}
use oxinit.Service.{
  Instance, activating, active, deactivating, is_state, cancel_restart, deactivated,
  schedule_restart, on_exit, Exit, from_status, pinged, stop_timed_out,
}
use oxinit.Supervisor.{World, Supervisor, killed, start, put, shutting_down}
use oxinit.Supervisor.Winding.{
  winds, is_spawned, AllWind, IsDown, Keeps, Keeps-IsDown, Keeps-refl, Keeps-trans, put-Keeps,
  starts-snoc,
}
use oxinit.Events
use oxinit.Events.{
  after_policy, restart_pending, finish_deactivation, process_exited, forking_parent_exited,
  on_child, on_sigchld, Reaped, on_cgroup, Message, on_message, on_notify, heard, on_socket,
}
use oxinit.Deadlines.{start_timed_out, stop_timeout, check_watchdog, timer_elapsed, restart_due}

pub impossible {ℓ} : {P : Type ℓ} → true ≡ false → P
impossible e = cc

-- A start is refused.
pub start-down : (w : World) (name : Text) (s : Supervisor) → IsDown s → start w name s ≡ s
unfolding start shutting_down
start-down w name s d = let is = d.down in ground arith

is-winds :
    (name : Text) (s : Supervisor) {i : Instance}
    → IsDown s
    → lookup name s.instances ≡ some i
    → winds i.state ≡ true
is-winds name s d e = let here = d.winding name in ground arith

-- The instance that the policy leaves on the way down.
abbrev at_rest : Instance × Option Duration → Instance
at_rest (i, none) = i
at_rest (i, some delay) = cancel_restart i

deactivated-winds :
    (now : Instant) (i : Instance) → winds (at_rest (deactivated now i)).state ≡ true
unfolding deactivated schedule_restart cancel_restart
deactivated-winds now i = ground arith

on_exit-winds :
    (exit : Exit) (now : Instant) (i : Instance) → winds (at_rest (on_exit exit now i)).state ≡ true
unfolding on_exit schedule_restart cancel_restart
on_exit-winds exit now i = ground arith

after_policy-down :
    (w : World) (name : Text) (r : Instance × Option Duration) (s : Supervisor)
    → IsDown s
    → after_policy w name r s ≡ put name (at_rest r) s
unfolding after_policy
after_policy-down w name (i, none) s d = refl
after_policy-down w name (i, some delay) s d = let is = d.down in ground arith

after_policy-Keeps :
    (w : World) (name : Text) (r : Instance × Option Duration) (s : Supervisor)
    → winds (at_rest r).state ≡ true
    → IsDown s
    → Keeps s (after_policy w name r s)
after_policy-Keeps w name r s v d =
    subst (λ t. Keeps s t) (sym (after_policy-down w name r s d)) (put-Keeps name (at_rest r) s v d)

-- The same units, shutdown and starts.
pub same_Keeps :
    {s t : Supervisor}
    → IsDown s
    → t.shutdown ≡ s.shutdown
    → t.effects ≡ s.effects
    → t.instances ≡ s.instances
    → Keeps s t
same_Keeps d sd ef is = record {
  shutdown = sd;
  starts = ap (λ es. keep is_spawned es) ef;
  winding = subst (λ m. AllWind m) (sym is) d.winding;
}

pub if-Keeps :
    {s t u : Supervisor} (b : Bool)
    → (b ≡ true → Keeps s t)
    → (b ≡ false → Keeps s u)
    → Keeps s (if b then t else u)
if-Keeps true k l = k refl
if-Keeps false k l = l refl

option-Keeps {ℓ} :
    {A : Type ℓ} {s t : Supervisor} (o : Option A) (f : A → Supervisor)
    → Keeps s t
    → ((a : A) → o ≡ some a → Keeps s (f a))
    → Keeps s (elim o [ none ↦ t | some a ↦ f a ])
option-Keeps none f k l = k
option-Keeps (some a) f k l = l a refl

restart_pending-Keeps :
    (w : World) (name : Text) (s : Supervisor) → IsDown s → Keeps s (restart_pending w name s)
unfolding restart_pending
restart_pending-Keeps w name s d =
    let k = same_Keeps d refl refl refl in
    if-Keeps (contains_text s.pending_restart name)
      (λ _. subst (λ t. Keeps s t) (sym (start-down w name _ (Keeps-IsDown d k))) k)
      (λ _. Keeps-refl d)

finish_deactivation-Keeps :
    (w : World) (name : Text) (s : Supervisor) → IsDown s → Keeps s (finish_deactivation w name s)
unfolding finish_deactivation
finish_deactivation-Keeps w name s d =
    option-Keeps (lookup name s.instances) _ (Keeps-refl d) (λ i e.
      if-Keeps (is_state i.state deactivating)
        (λ _.
          let k = after_policy-Keeps w name (deactivated w.now i) s (deactivated-winds w.now i) d in
          Keeps-trans k (restart_pending-Keeps w name _ (Keeps-IsDown d k)))
        (λ _. Keeps-refl d))

mid_exit-winds :
    (exit : Exit) (now : Instant) (i : Instance)
    → is_state i.state deactivating ≡ true
    → winds (on_exit exit now i).0.state ≡ true
unfolding on_exit
mid_exit-winds exit now i e = ground arith

process_exited-Keeps :
    (w : World) (name : Text) (exit : Exit) (i : Instance) (s : Supervisor)
    → IsDown s
    → Keeps s (process_exited w name exit i s)
unfolding process_exited
process_exited-Keeps w name exit i s d =
    if-Keeps (is_state i.state deactivating)
      (λ e.
        let k = put-Keeps name (on_exit exit w.now i).0 s (mid_exit-winds exit w.now i e) d in
        if-Keeps _ (λ _. k)
          (λ _. Keeps-trans k (finish_deactivation-Keeps w name _ (Keeps-IsDown d k))))
      (λ _. after_policy-Keeps w name (on_exit exit w.now i) s (on_exit-winds exit w.now i) d)

on_child-Keeps :
    (w : World) (pid : ℕ) (exit : Exit) (s : Supervisor)
    → IsDown s
    → Keeps s (on_child w pid exit s)
unfolding on_child
on_child-Keeps w pid exit s d =
    option-Keeps (Events.unit_for_pid s.instances pid) _ (Keeps-refl d) (λ name _.
      option-Keeps (lookup name s.instances) _ (Keeps-refl d) (λ i e.
        if-Keeps (Events.is_service_type forking i.unit && is_state i.state activating)
          (λ up. let here = is-winds name s d e in impossible (ground arith))
          (λ _. process_exited-Keeps w name exit i s d)))

pub on_sigchld-Keeps :
    (w : World) (rs : List Reaped) (s : Supervisor) → IsDown s → Keeps s (on_sigchld w rs s)
unfolding on_sigchld
on_sigchld-Keeps w [] s d = Keeps-refl d
on_sigchld-Keeps w (r ∷ rs) s d =
    let k = on_child-Keeps w r.pid (from_status r.code r.signal) s d in
    Keeps-trans k (on_sigchld-Keeps w rs _ (Keeps-IsDown d k))

-- A cgroup that emptied ends a stop, and is nothing to a unit that is idle.
on_cgroup-ends :
    (w : World) (name : Text) (i : Instance) (s : Supervisor)
    → winds i.state ≡ true
    → lookup name s.instances ≡ some i
    → on_cgroup w name false s
      ≡ (if is_state i.state deactivating then finish_deactivation w name s else s)
unfolding on_cgroup
on_cgroup-ends w name i s v e = ground arith

pub on_cgroup-Keeps :
    (w : World) (name : Text) (populated : Bool) (s : Supervisor)
    → IsDown s
    → Keeps s (on_cgroup w name populated s)
unfolding on_cgroup
on_cgroup-Keeps w name true s d = Keeps-refl d
on_cgroup-Keeps w name false s d = elim (Option-cases (lookup name s.instances)) [
  | inl e ↦ subst (λ t. Keeps s t) (ground arith) (Keeps-refl d)
  | inr (i, e) ↦
      subst (λ t. Keeps s t) (sym (on_cgroup-ends w name i s (is-winds name s d e) e))
        (if-Keeps (is_state i.state deactivating) (λ _. finish_deactivation-Keeps w name s d)
          (λ _. Keeps-refl d))
]

on_message-Keeps :
    (w : World) (msg : Message) (s : Supervisor) → IsDown s → Keeps s (on_message w msg s)
unfolding on_message heard pinged
on_message-Keeps w msg s d =
    option-Keeps (Events.unit_for_pid s.instances msg.pid) _ (Keeps-refl d) (λ name _.
      option-Keeps (lookup name s.instances) _ (Keeps-refl d) (λ i e.
        let here = is-winds name s d e in
        if-Keeps (msg.ready && is_state i.state activating) (λ up. impossible (ground arith))
          (λ _. put-Keeps name (heard w msg i) s (ground arith) d)))

pub on_notify-Keeps :
    (w : World) (msgs : List Message) (s : Supervisor) → IsDown s → Keeps s (on_notify w msgs s)
unfolding on_notify
on_notify-Keeps w [] s d = Keeps-refl d
on_notify-Keeps w (msg ∷ msgs) s d =
    let k = on_message-Keeps w msg s d in
    Keeps-trans k (on_notify-Keeps w msgs _ (Keeps-IsDown d k))

pub start-Keeps : (w : World) (name : Text) (s : Supervisor) → IsDown s → Keeps s (start w name s)
start-Keeps w name s d = subst (λ t. Keeps s t) (sym (start-down w name s d)) (Keeps-refl d)

pub on_socket-Keeps :
    (w : World) (service : Text) (s : Supervisor) → IsDown s → Keeps s (on_socket w service s)
unfolding on_socket
on_socket-Keeps w service s d = if-Keeps _ (λ _. start-Keeps w service s d) (λ _. Keeps-refl d)

pub stop_timeout-Keeps :
    (w : World) (name : Text) (s : Supervisor) → IsDown s → Keeps s (stop_timeout w name s)
unfolding stop_timeout stop_timed_out
stop_timeout-Keeps w name s d = option-Keeps (lookup name s.instances) _ (Keeps-refl d) (λ i e.
    if-Keeps (is_state i.state deactivating)
      (λ v.
        let k = put-Keeps name (stop_timed_out i) s (ground arith) d in
        record {
          shutdown = refl;
          starts = starts-snoc (killed name) s.effects refl;
          winding = k.winding;
        })
      (λ _. Keeps-refl d))

pub start_timed_out-Keeps :
    (w : World) (name : Text) (s : Supervisor) → IsDown s → Keeps s (start_timed_out w name s)
unfolding start_timed_out
start_timed_out-Keeps w name s d = option-Keeps (lookup name s.instances) _ (Keeps-refl d) (λ i e.
    let here = is-winds name s d e in
    if-Keeps (is_state i.state activating) (λ up. impossible (ground arith)) (λ _. Keeps-refl d))

pub check_watchdog-Keeps :
    (w : World) (name : Text) (s : Supervisor) → IsDown s → Keeps s (check_watchdog w name s)
unfolding check_watchdog
check_watchdog-Keeps w name s d = option-Keeps (lookup name s.instances) _ (Keeps-refl d) (λ i e.
    let here = is-winds name s d e in
    option-Keeps (Events.watchdog_sec_of i) _ (Keeps-refl d) (λ interval _.
      if-Keeps (is_state i.state active) (λ up. impossible (ground arith)) (λ _. Keeps-refl d)))

pub timer_elapsed-Keeps :
    (w : World) (name : Text) (s : Supervisor) → IsDown s → Keeps s (timer_elapsed w name s)
unfolding timer_elapsed shutting_down
timer_elapsed-Keeps w name s d = option-Keeps (lookup name s.instances) _ (Keeps-refl d) (λ i e.
    option-Keeps (timer_of i.unit.kind) _ (Keeps-refl d) (λ t _.
      if-Keeps (is_some s.shutdown) (λ _. Keeps-refl d)
        (λ up. let is = d.down in impossible (ground arith))))

pub restart_due-Keeps :
    (w : World) (name : Text) (s : Supervisor) → IsDown s → Keeps s (restart_due w name s)
unfolding restart_due
restart_due-Keeps w name s d =
    option-Keeps (lookup name s.instances) _ (Keeps-refl d)
      (λ i e. if-Keeps _ (λ _. start-Keeps w name s d) (λ _. Keeps-refl d))
