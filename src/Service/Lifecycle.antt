-- ===== src/Service/Lifecycle.antt =====
-- What holds over every sequence of calls of an instance's methods, and what the two kinds of stop
-- end in: crates/oxinit-service/src/lib.rs.
use oxinit.Prelude.{
  ℕ, ◌≤◌, ◌≡◌, ◌≢◌, inl, inr, true, false, Option, none, arith, max, List, [], ◌∷◌, Bool-cases,
}
use oxinit.Time.{Duration, Instant, u32_max}
use oxinit.Unit.{UnitDef}
use oxinit.Service.{
  active, deactivating, Exit, abnormal, Instance, on_exit, confirm_oneshot, entered_activating,
  schedule_restart, base_backoff, max_backoff, new, deactivated, StopCause, failed_to_start,
  entered_active, forked_away, pinged, entered_deactivating, stop_timed_out, cancel_restart,
  is_state,
}

-- The methods that change an instance.
pub data Call : Type 0 where
  spawned : (pid : ℕ) → Call
  start_failed : Call
  up : Call
  forked : Call
  ping : Call
  exited : Exit → Call
  stop : StopCause → Call
  timed_out : Call
  cancelled : Call
  emptied : Call

-- One call, at a moment, and the delay after which it asks for a restart.
unfoldable pub call : Call → Instant → Instance → Instance × Option Duration
unfolding entered_activating failed_to_start entered_active forked_away pinged entered_deactivating
    stop_timed_out cancel_restart
call (spawned pid) now i = (entered_activating pid i, none)
call start_failed now i = (failed_to_start i, none)
call up now i = (entered_active now i, none)
call forked now i = (forked_away now i, none)
call ping now i = (pinged now i, none)
call (exited e) now i = on_exit e now i
call (stop cause) now i = (entered_deactivating cause i, none)
call timed_out now i = (stop_timed_out i, none)
call cancelled now i = (cancel_restart i, none)
call emptied now i = deactivated now i

abbrev pub calls : List (Call × Instant) → Instance → Instance
calls [] i = i
calls ((c, now) ∷ cs) i = calls cs (call c now i).0

-- What holds of an instance between calls.
pub record IsSound (u : UnitDef) (i : Instance) : Type 0 where
  pub same_unit : i.unit ≡ u
  pub bounded : i.backoff ≤ max (base_backoff u) max_backoff
  pub counted : i.restarts ≤ u32_max
  pub came_up : i.state ≡ active → i.reached ≡ true
  pub watched : i.state ≡ active → i.last_ping ≢ none

schedule_restart-IsSound :
    (u : UnitDef) (e : Exit) (now : Instant) (i : Instance)
    → IsSound u i
    → IsSound u (schedule_restart e now i).0
unfolding schedule_restart
schedule_restart-IsSound u e now i v = record {
  same_unit = ground arith;
  bounded = ground arith;
  counted = ground arith;
  came_up = ground arith;
  watched = ground arith;
}

confirm_oneshot-IsSound :
    (u : UnitDef) (e : Exit) (i : Instance) → IsSound u i → IsSound u (confirm_oneshot e i)
unfolding confirm_oneshot
confirm_oneshot-IsSound u e i v = ground arith

on_exit-IsSound :
    (u : UnitDef) (e : Exit) (now : Instant) (i : Instance)
    → IsSound u i
    → IsSound u (on_exit e now i).0
unfolding on_exit
on_exit-IsSound u e now i v =
    let j = record i { child = none } in
    let down : IsSound u j = ground arith in
    let rest =
      schedule_restart-IsSound u e now (confirm_oneshot e j) (confirm_oneshot-IsSound u e j down) in
    elim (Bool-cases (is_state i.state deactivating)) [ inl h ↦ rw h down | inr h ↦ rw h rest ]

deactivated-IsSound :
    (u : UnitDef) (now : Instant) (i : Instance) → IsSound u i → IsSound u (deactivated now i).0
unfolding deactivated
deactivated-IsSound u now i v =
    let j = record i { child = none; killed = false; stop_cause = none } in
    let down : IsSound u j = ground arith in
    ground (arith, schedule_restart-IsSound u abnormal now j down)

-- Every method keeps an instance sound.
call-IsSound :
    (u : UnitDef) (c : Call) (now : Instant) (i : Instance)
    → IsSound u i
    → IsSound u (call c now i).0
unfolding call
call-IsSound u (exited e) now i v = on_exit-IsSound u e now i v
call-IsSound u emptied now i v = deactivated-IsSound u now i v
call-IsSound u _ now i v = ground arith

-- A new instance, after any methods at any moments, keeps its unit, has a backoff of at most the base
-- delay or five minutes, whichever is more, a restart count that fits its `u32`, and, where it is
-- active, has come up and has been heard from.
pub calls-IsSound : (u : UnitDef) (cs : List (Call × Instant)) → IsSound u (calls cs (new u))
unfolding new
calls-IsSound u cs = go cs (new u) (ground arith)
  where
    go : (cs : List (Call × Instant)) (i : Instance) → IsSound u i → IsSound u (calls cs i)
    go [] i v = v
    go ((c, now) ∷ cs) i v = go cs (call c now i).0 (call-IsSound u c now i v)

call-reached :
    (c : Call) (now : Instant) (i : Instance) → i.reached ≡ true → (call c now i).0.reached ≡ true
unfolding call on_exit confirm_oneshot schedule_restart deactivated
call-reached (exited e) now i h = ground arith
call-reached emptied now i h = ground arith
call-reached _ now i h = ground arith

-- Once a unit has come up, it counts as come up for good, whatever is called later.
calls-reached :
    (cs : List (Call × Instant)) (i : Instance) → i.reached ≡ true → (calls cs i).reached ≡ true
calls-reached [] i h = h
calls-reached ((c, now) ∷ cs) i h = calls-reached cs (call c now i).0 (call-reached c now i h)
