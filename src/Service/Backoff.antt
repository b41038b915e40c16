-- ===== src/Service/Backoff.antt =====
-- The restart delays: `schedule_restart` and `on_exit` of crates/oxinit-service/src/lib.rs.
use native.Mathlib.Nat.{pow-succ', one-le-pow}
use native.Mathlib.Decide.{dec_le}
use oxinit.Prelude.{
  ℕ, zero, suc, ◌+◌, ◌*◌, ◌^◌, ◌≤◌, ◌<◌, ◌≡◌, ◌≢◌, ◌↔◌, refl, ap, ◌∙◌, true, Option, none, some,
  arith, min, List, [], ◌∷◌, length, All,
}
use oxinit.Time.{Duration, Instant}
use oxinit.Unit.{UnitDef, Restart, never, always, on_failure, on_abnormal}
use oxinit.Service.{
  deactivating, restarting, Exit, clean, status, abnormal, Instance, on_exit, confirm_oneshot,
  entered_activating, schedule_restart, policy_of, base_backoff, max_backoff, new, should_restart,
}

-- The exits after which each policy brings a service back.
pub data Restarts : Restart → Exit → Type 0 where
  in_any_case : {e : Exit} → Restarts always e
  failed_status : {c : ℕ} → Restarts on_failure (status c)
  failed_abnormally : Restarts on_failure abnormal
  ended_abnormally : Restarts on_abnormal abnormal

should_restart_sound : (p : Restart) (e : Exit) → should_restart p e ≡ true → Restarts p e
unfolding should_restart
should_restart_sound never e h = cc
should_restart_sound always e h = in_any_case
should_restart_sound on_failure clean h = cc
should_restart_sound on_failure (status c) h = failed_status
should_restart_sound on_failure abnormal h = failed_abnormally
should_restart_sound on_abnormal clean h = cc
should_restart_sound on_abnormal (status c) h = cc
should_restart_sound on_abnormal abnormal h = ended_abnormally

should_restart_complete : {p : Restart} {e : Exit} → Restarts p e → should_restart p e ≡ true
unfolding should_restart
should_restart_complete in_any_case = refl
should_restart_complete failed_status = refl
should_restart_complete failed_abnormally = refl
should_restart_complete ended_abnormally = refl

on_exit_decides :
    (e : Exit) (now : Instant) (i : Instance)
    → i.state ≢ deactivating
    → ((on_exit e now i).0.state ≡ restarting) ↔ (should_restart (policy_of i.unit) e ≡ true)
unfolding on_exit confirm_oneshot schedule_restart
on_exit_decides e now i h = ground arith

-- Outside a stop, the exit of the main process leads to `restarting` exactly when the unit's policy
-- restarts after such an exit.
pub on_exit-restarting_iff :
    (e : Exit) (now : Instant) (i : Instance)
    → i.state ≢ deactivating
    → ((on_exit e now i).0.state ≡ restarting) ↔ Restarts (policy_of i.unit) e
on_exit-restarting_iff e now i h =
    let d = on_exit_decides e now i h in
    (λ r. should_restart_sound (policy_of i.unit) e (d.0 r), λ r. d.1 (should_restart_complete r))

-- A start that dies before the service is up: its pid, how it ended, and when.
pub record Attempt : Type 0 where
  pub pid : ℕ
  pub exit : Exit
  pub ended : Instant

pub attempt : Attempt → Instance → Instance × Option Duration
attempt a i = on_exit a.exit a.ended (entered_activating a.pid i)

abbrev pub attempts : List Attempt → Instance → Instance
attempts [] i = i
attempts (a ∷ as') i = attempts as' (attempt a i).0

-- Nothing of an earlier stretch of activity is left to forget.
abbrev pub IsDown : Instance → Type 0
IsDown i = (i.active_since ≡ none) × (i.backoff ≤ max_backoff)

attempt_step :
    (a : Attempt) (i : Instance)
    → IsDown i
    → should_restart (policy_of i.unit) a.exit ≡ true
    → ((attempt a i).1 ≡ some i.backoff)
      × ((attempt a i).0.backoff ≡ min (i.backoff * 2) max_backoff)
      × ((attempt a i).0.active_since ≡ none)
      × ((attempt a i).0.unit ≡ i.unit)
unfolding attempt on_exit confirm_oneshot schedule_restart entered_activating
attempt_step a i h r = ground arith

cap_by : (b m p : ℕ) → 0 < p → min (min (b * 2) m * p) m ≡ min (b * (2 * p)) m
cap_by b m zero h = omega arith
cap_by b m (suc p) h = elim (dec_le (b * 2) m) [
  | yes k ↦ let e : min (b * 2) m ≡ b * 2 = omega arith in rw e (ap (λ x. min x m) (omega arith))
  | no k ↦
      let e : min (b * 2) m ≡ m = omega arith in
      let big : m ≤ b * 2 + b * 2 * p = omega arith in rw e (omega arith)
]

-- The backoff after some failed attempts, all of which the policy retries.
attempts_backoff :
    (p : Restart) (as' : List Attempt) (i : Instance)
    → IsDown i
    → policy_of i.unit ≡ p
    → All (λ a. Restarts p a.exit) as'
    → ((attempts as' i).backoff ≡ min (i.backoff * 2 ^ length as') max_backoff)
      × IsDown (attempts as' i)
      × (policy_of (attempts as' i).unit ≡ p)
attempts_backoff p [] i h k r = (omega arith, h, k)
attempts_backoff p (a ∷ as') i h k r =
    let (_, doubled, since, same) = attempt_step a i h (rw k (should_restart_complete r.0)) in
    let j = (attempt a i).0 in
    let (now_at, down, policy) =
      attempts_backoff p as' j (since, rw doubled (omega arith)) (rw same k) r.1 in
    (
      now_at
          ∙ ap (λ x. min (x * 2 ^ length as') max_backoff) doubled
          ∙ cap_by i.backoff max_backoff (2 ^ length as') (one-le-pow (length as') 2 (omega arith))
          ∙ rw pow-succ',
      down,
      policy,
    )

-- Where `restart-sec` is at most five minutes and a service dies over and over before it is up, each
-- time in a way that its policy retries, the delay after n deaths is `restart-sec` times 2 to the n,
-- and five minutes where that is more.
pub delay-attempts :
    (u : UnitDef) (as' : List Attempt) (last : Attempt)
    → base_backoff u ≤ max_backoff
    → All (λ a. Restarts (policy_of u) a.exit) as'
    → Restarts (policy_of u) last.exit
    → (attempt last (attempts as' (new u))).1
      ≡ some (min (base_backoff u * 2 ^ length as') max_backoff)
unfolding new
delay-attempts u as' last h r l =
    let (at_last, down, policy) = attempts_backoff (policy_of u) as' (new u) (refl, h) refl r in
    (attempt_step last (attempts as' (new u)) down (rw policy (should_restart_complete l))).0
    ∙ ap some at_last
