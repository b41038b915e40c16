-- ===== src/Watchdog/Feeding.antt =====
-- When the device is written to, and when the loop is woken for it: crates/oxinit-watchdog/src/lib.rs.
use oxinit.Prelude.{
  ◌+◌, ◌-◌, ◌≡◌, ◌≤◌, ◌<◌, Bool, true, false, Option, none, some, arith, List, [], ◌∷◌, ◌&&◌, not,
  leb, zero, suc, map_or, ok, ltb, ◌||◌, is_some,
}
use oxinit.Time.{Duration, from_secs}
use oxinit.Watchdog.Deadline.{Call, ticked, succeeded, denied, going_down, call, calls}
use oxinit.Watchdog.{
  Settings, Config, Policy, resolve, resolve_boot, with_boot, pet_interval, new, tick, act, due,
  update_boot, next_wake, next_device, consider, overdue, is_boot_state, Action, nothing, Tick,
  opened, open_failed, begin_shutdown,
}

-- The wait `w`, counted from `now`, is over at `t`.
abbrev pub is_over : Option Duration → Duration → Duration → Bool
is_over none now t = false
is_over (some d) now t = leb (now + d) t

abbrev is_nothing : Action → Bool
is_nothing nothing = true
is_nothing _ = false

abbrev pub is_quiet : Tick → Bool
is_quiet r = is_nothing r.action && not (is_some r.event)

-- A configuration that `resolve` accepts times out after a whole positive number of seconds that a C
-- `int` holds, the one that was asked for, and its boot deadline is positive.
resolve-ok :
    (s : Settings) (c : Config)
    → resolve s ≡ ok (some c)
    → (0 < c.seconds)
      × (c.seconds ≤ 2_147_483_647)
      × (s.timeout_sec ≡ some (from_secs c.seconds))
      × (elim c.boot [ none ↦ true | some b ↦ ltb 0 b.within ] ≡ true)
unfolding resolve resolve_boot with_boot
resolve-ok s c e = ground arith

call-positive : (c : Call) (p : Policy) → 0 < p.interval → 0 < (call c p).interval
unfolding tick update_boot act opened open_failed begin_shutdown pet_interval
call-positive (ticked now booted) p i = ground arith
call-positive (succeeded now none) p i = ground arith
call-positive (succeeded now (some zero)) p i = ground arith
call-positive (succeeded now (some (suc n))) p i = ground arith
call-positive (denied now) p i = ground arith
call-positive going_down p i = ground arith

calls-positive : (cs : List Call) (p : Policy) → 0 < p.interval → 0 < (calls cs p).interval
unfolding calls
calls-positive [] p i = i
calls-positive (c ∷ cs) p i = calls-positive cs (call c p) (call-positive c p i)

new-positive : (c : Config) → 0 < c.seconds → 0 < (new c).interval
unfolding new pet_interval
new-positive c i = ground arith

quiet_until_woken :
    (p : Policy) (now t : Duration)
    → 0 < p.interval
    → now ≤ t
    → is_quiet (tick t false p).1 ≡ not (is_over (next_wake now p) now t)
unfolding next_wake tick update_boot act due next_device consider
quiet_until_woken p now t positive later = ground arith

-- However a policy from an accepted configuration was reached, no tick from `now` on has anything to
-- do before the wait that `next_wake` gives at `now` is over, and every later one has, as long as the
-- boot unit is not up.
pub next_wake_exact :
    (s : Settings) (c : Config) (cs : List Call) (now t : Duration)
    → resolve s ≡ ok (some c)
    → now ≤ t
    → is_quiet (tick t false (calls cs (new c))).1
      ≡ not (is_over (next_wake now (calls cs (new c))) now t)
next_wake_exact s c cs now t e later =
    quiet_until_woken (calls cs (new c)) now t
      (calls-positive cs (new c) (new-positive c (resolve-ok s c e).0)) later

-- After a tick the open device of a boot that is not overdue has been written to less than one
-- interval ago.
tick-fresh :
    (p : Policy) (now : Duration) (booted : Bool)
    → p.is_open ≡ true
    → 0 < p.interval
    → let q = (tick now booted p).0 in
      is_boot_state q.boot overdue || map_or false (λ l. ltb (now - l) q.interval) q.last_pet ≡ true
unfolding tick update_boot act due
tick-fresh p now booted o i = ground arith
