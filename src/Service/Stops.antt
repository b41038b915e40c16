-- ===== src/Service/Stops.antt =====
-- What a stop ends in, by its cause: crates/oxinit-service/src/lib.rs.
use oxinit.Prelude.{
  ◌≡◌, ◌≢◌, refl, Bool, true, false, none, some, arith, if◌then◌else◌, List, [], ◌∷◌, All, any,
  ◌||◌,
}
use oxinit.Time.{Instant}
use oxinit.Service.{
  inactive, deactivating, failed, Exit, abnormal, Instance, on_exit, confirm_oneshot,
  schedule_restart, deactivated, StopCause, requested, watchdog, entered_deactivating,
}
use oxinit.Service.Lifecycle.{Call, exited, timed_out, ping, call, calls}

-- What can happen to a unit between its SIGTERM and the moment its cgroup is empty: processes exit,
-- it may still ping, and the stop timeout may expire.
pub data MidStop : Call → Type 0 where
  some_exit : {e : Exit} → MidStop (exited e)
  some_ping : MidStop ping
  expiry : MidStop timed_out

abbrev pub is_expiry : Call × Instant → Bool
is_expiry (timed_out, _) = true
is_expiry _ = false

-- What such calls leave as it was.
record SameBut (cause : StopCause) (i j : Instance) : Type 0 where
  stopping : j.state ≡ deactivating
  because : j.stop_cause ≡ some cause
  unit : j.unit ≡ i.unit
  restarts : j.restarts ≡ i.restarts
  backoff : j.backoff ≡ i.backoff
  since : j.active_since ≡ i.active_since

mid_step :
    (cause : StopCause) (i j : Instance) {c : Call} (now : Instant)
    → MidStop c
    → SameBut cause i j
    → SameBut cause i (call c now j).0
      × ((call c now j).0.killed ≡ (is_expiry (c, now) || j.killed))
unfolding call on_exit
mid_step cause i j now some_exit s = ground arith
mid_step cause i j now some_ping s = ground arith
mid_step cause i j now expiry s = ground arith

mid_calls :
    (cause : StopCause) (i j : Instance) (cs : List (Call × Instant))
    → All (λ e. MidStop e.0) cs
    → SameBut cause i j
    → SameBut cause i (calls cs j) × ((calls cs j).killed ≡ (any is_expiry cs || j.killed))
mid_calls cause i j [] m s = (s, refl)
mid_calls cause i j ((c, now) ∷ cs) m s =
    let (same, k) = mid_step cause i j now m.0 s in
    let (same', k') = mid_calls cause i (call c now j).0 cs m.1 same in (same', ground arith)

entered_SameBut :
    (cause : StopCause) (i : Instance) → SameBut cause i (entered_deactivating cause i)
unfolding entered_deactivating
entered_SameBut cause i = ground arith

-- A requested stop, whatever happens on its way, ends with no restart and with the restart count and
-- the backoff as they were, in `failed` exactly when the stop timeout expired and else in `inactive`.
pub requested_stop :
    (i : Instance) (cs : List (Call × Instant)) (end : Instant)
    → All (λ e. MidStop e.0) cs
    → let j = deactivated end (calls cs (entered_deactivating requested i)) in
      (j.1 ≡ none)
      × (j.0.state ≡ (if any is_expiry cs then failed else inactive))
      × (j.0.restarts ≡ i.restarts)
      × (j.0.backoff ≡ i.backoff)
unfolding deactivated
requested_stop i cs end m =
    let j = entered_deactivating requested i in
    let (s, k) = mid_calls requested i j cs m (entered_SameBut requested i) in
    let fresh : j.killed ≡ false = unfold entered_deactivating in refl in ground arith

-- A stop by the watchdog ends as a crash of the running service would have at that moment: with the
-- same delay or none, the same state, restart count and next backoff.
pub watchdog_stop :
    (i : Instance) (cs : List (Call × Instant)) (end : Instant)
    → i.state ≢ deactivating
    → All (λ e. MidStop e.0) cs
    → let j = deactivated end (calls cs (entered_deactivating watchdog i)) in
      let crash = on_exit abnormal end i in
      (j.1 ≡ crash.1)
      × (j.0.state ≡ crash.0.state)
      × (j.0.restarts ≡ crash.0.restarts)
      × (j.0.backoff ≡ crash.0.backoff)
unfolding deactivated on_exit confirm_oneshot schedule_restart
watchdog_stop i cs end up m =
    let (s, _) =
      mid_calls watchdog i (entered_deactivating watchdog i) cs m (entered_SameBut watchdog i) in
    (ground arith, ground arith, ground arith, ground arith)
