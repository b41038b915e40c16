-- ===== src/Loop/Ending.antt =====
-- How a shutdown ends: crates/oxinit/src/main.rs, crates/oxinit/src/shutdown.rs.
use oxinit.Prelude.{
  ◌+◌, ◌-◌, ◌≡◌, ◌≤◌, ◌<◌, ◌↔◌, ◌⊎◌, inl, inr, Bool-cases, All, refl, Bool, true, false, none, some,
  arith, List, [], ◌∷◌, if◌then◌else◌, all, ◌||◌, ltb,
}
use oxinit.Table.{Table}
use oxinit.Time.{Duration, Instant, from_secs, from_millis}
use oxinit.Service.{Instance, inactive, failed}
use oxinit.Supervisor.Winding.{is_idle_iff}
use oxinit.Supervisor.{
  World, Supervisor, Action, begin_shutdown, settled, wait_bound, busy_units, is_idle, deadline,
}
use oxinit.Loop.{WakeUp, run}
use oxinit.Loop.Down.{nothing_starts}

abbrev pub all_idle : Table Instance → Bool
all_idle m = all (λ e. is_idle e.1.state) m

busy-all_idle :
    (m : Table Instance) → all_idle m ≡ elim (busy_units m) [ [] ↦ true | _ ∷ _ ↦ false ]
busy-all_idle [] = refl
busy-all_idle ((k, i) ∷ m) = ground (arith, busy-all_idle m)

settled-busy :
    (now : Instant) (s : Supervisor) {a : Action} {began : Instant}
    → s.shutdown ≡ some (record { action = a; started = began })
    → settled now s ≡ (if all_idle s.instances || ltb deadline (now - began) then some a else none)
unfolding settled
settled-busy now s e = ground (arith, busy-all_idle s.instances)

settled_by :
    (w : World) (action : Action) (s : Supervisor) (ks : List WakeUp) (now : Instant)
    → s.shutdown ≡ none
    → let t = run ks (begin_shutdown w action s) in
      settled now t
      ≡ (if all_idle t.instances || ltb deadline (now - w.now) then some action else none)
settled_by w action s ks now n =
    settled-busy now (run ks (begin_shutdown w action s)) (nothing_starts w action s ks [] n).2

-- A unit that is neither up nor on its way up or down.
abbrev pub IsIdle : Instance → Type 0
IsIdle i = (i.state ≡ inactive) ⊎ (i.state ≡ failed)

abbrev pub AllIdle : Table Instance → Type 0
AllIdle m = All (λ e. IsIdle e.1) m

all_idle_iff : (m : Table Instance) → (all_idle m ≡ true) ↔ AllIdle m
all_idle_iff [] = (λ _. tt, λ _. refl)
all_idle_iff ((k, i) ∷ m) =
    let here = is_idle_iff i.state in
    let rest = all_idle_iff m in
    (
      λ h. (here.0 (ground arith), rest.0 (ground arith)),
      λ (x, xs). let a = here.1 x in let b = rest.1 xs in ground arith,
    )

-- At any moment of a shutdown, whatever woke the loop until then, requests for a reload included, the
-- loop goes down exactly if every unit is idle or more than 90 seconds are gone since the shutdown
-- began, and it goes down in no other way than the one that was asked for first.
pub shutdown_ends :
    (w : World) (action : Action) (s : Supervisor) (ks : List WakeUp) (now : Instant)
    → s.shutdown ≡ none
    → let t = run ks (begin_shutdown w action s) in
      ((settled now t ≡ some action) ↔ (AllIdle t.instances ⊎ (from_secs 90 < now - w.now)))
      × ((how : Action) → settled now t ≡ some how → how ≡ action)
shutdown_ends w action s ks now n =
    let t = run ks (begin_shutdown w action s) in
    let by = settled_by w action s ks now n in
    let idle = all_idle_iff t.instances in
    elim (Bool-cases (all_idle t.instances)) [
      | inl e ↦ ((λ h. inl (idle.0 e), λ h. ground arith), λ how h. ground arith)
      | inr e ↦ (
        (
          λ h. inr (ground arith),
          λ h. elim h [
            | inl a ↦ (let all = idle.1 a in absurd (ground arith))
            | inr l ↦ ground arith
          ],
        ),
        λ how h. ground arith,
      )
    ]

-- On the way down the loop's sleep is bounded, and a loop that has slept for that long goes down
-- whatever the units do.
pub wait_bound-settled :
    (w : World) (action : Action) (s : Supervisor) (ks : List WakeUp) (now : Instant)
    → s.shutdown ≡ none
    → w.now ≤ now
    → let t = run ks (begin_shutdown w action s) in
      (wait : Duration) × (wait_bound now t ≡ some wait) × (settled (now + wait) t ≡ some action)
unfolding wait_bound
wait_bound-settled w action s ks now n later =
    let t = run ks (begin_shutdown w action s) in
    let wait = deadline - (now - w.now) + from_millis 10 in
    let begun = (nothing_starts w action s ks [] n).2 in
    (wait, ground arith, ground (arith, settled_by w action s ks (now + wait) n))
