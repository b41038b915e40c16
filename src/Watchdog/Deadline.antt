-- ===== src/Watchdog/Deadline.antt =====
-- The boot deadline: crates/oxinit-watchdog/src/lib.rs.
use oxinit.Prelude.{
  ℕ, ◌≡◌, inl, inr, refl, Bool, true, false, Option, none, some, arith, List, [], ◌∷◌,
  if◌then◌else◌, ◌||◌, leb, find, All, Bool-cases, Option-cases,
}
use oxinit.Time.{Duration}
use oxinit.Watchdog.{
  Config, Boot, Policy, new, tick, act, update_boot, BootState, confirmed, pending, overdue,
  is_boot_state, opened, open_failed, begin_shutdown,
}

-- What is called on a policy: its methods that change it.
pub data Call : Type 0 where
  ticked : (now : Duration) (booted : Bool) → Call
  succeeded : (now : Duration) (applied : Option ℕ) → Call
  denied : (now : Duration) → Call
  going_down : Call

abbrev pub call : Call → Policy → Policy
call (ticked now booted) p = (tick now booted p).0
call (succeeded now applied) p = opened now applied p
call (denied now) p = open_failed now p
call going_down p = begin_shutdown p

unfoldable pub calls : List Call → Policy → Policy
calls [] p = p
calls (c ∷ cs) p = calls cs (call c p)

-- Whether a tick decides on a boot that is to be over within `d`.
abbrev decides : Duration → Call → Bool
decides d (ticked now booted) = booted || leb d now
decides d _ = false

abbrev decision : Option Call → BootState
decision (some (ticked now booted)) = if booted then confirmed else overdue
decision _ = pending

-- The verdict on a boot that was begun with `c`.
abbrev pub verdict : Config → List Call → BootState
verdict c cs = elim c.boot [ none ↦ confirmed | some b ↦ decision (find (decides b.within) cs) ]

abbrev pub is_going_down : Call → Bool
is_going_down going_down = true
is_going_down _ = false

record Waits (b : Boot) (p : Policy) : Type 0 where
  due_by : p.config.boot ≡ some b
  still : p.boot ≡ pending
  up : p.shutting_down ≡ false

settled-call :
    (c : Call) (p : Policy) → is_boot_state p.boot pending ≡ false → (call c p).boot ≡ p.boot
unfolding tick update_boot act opened open_failed begin_shutdown
settled-call (ticked now booted) p s = ground arith
settled-call (succeeded now applied) p s = ground arith
settled-call (denied now) p s = ground arith
settled-call going_down p s = ground arith

settled-calls :
    (cs : List Call) (p : Policy)
    → is_boot_state p.boot pending ≡ false
    → (calls cs p).boot ≡ p.boot
unfolding calls
settled-calls [] p s = refl
settled-calls (c ∷ cs) p s = ground (arith, settled-call c p, settled-calls cs (call c p))

Waits-call :
    (c : Call) (b : Boot) (p : Policy)
    → is_going_down c ≡ false
    → Waits b p
    → (decides b.within c ≡ false → Waits b (call c p))
      × (decides b.within c ≡ true → (call c p).boot ≡ decision (some c))
unfolding tick update_boot act opened open_failed begin_shutdown
Waits-call (ticked now booted) b p up w = (λ e. ground arith, λ e. ground arith)
Waits-call (succeeded now applied) b p up w = (λ e. ground arith, λ e. ground arith)
Waits-call (denied now) b p up w = (λ e. ground arith, λ e. ground arith)
Waits-call going_down b p up w = (λ e. ground arith, λ e. ground arith)

Waits-calls :
    (cs : List Call) (b : Boot) (p : Policy)
    → All (λ c. is_going_down c ≡ false) cs
    → Waits b p
    → (calls cs p).boot ≡ decision (find (decides b.within) cs)
unfolding calls
Waits-calls [] b p up w = w.still
Waits-calls (c ∷ cs) b p (here, up) w =
    let (later, now) = Waits-call c b p here w in
    elim (Bool-cases (decides b.within c)) [
      | inl e ↦ ground (arith, now e, settled-calls cs (call c p))
      | inr e ↦ ground (arith, Waits-calls cs b (call c p) up (later e))
    ]

-- Until a shutdown begins, the boot is confirmed or overdue by the first tick at which the boot unit
-- is up or the deadline has passed, confirmed if the unit is up at that tick; before such a tick it is
-- pending, and without a deadline it is confirmed from the start. Opening the device changes nothing.
pub boot_verdict :
    (c : Config) (cs : List Call)
    → All (λ k. is_going_down k ≡ false) cs
    → (calls cs (new c)).boot ≡ verdict c cs
unfolding new
boot_verdict c cs up = elim (Option-cases c.boot) [
  | inl e ↦ ground (arith, settled-calls cs (new c))
  | inr (b, e) ↦ ground (arith, Waits-calls cs b (new c) up)
]
