-- ===== src/LogPipes/Offered.antt =====
-- What a shipper of crates/oxinit/src/logs.rs has been offered, whatever came before it.
use oxinit.Prelude.{
  ℕ, ◌≡◌, refl, ap, subst, ◌∙◌, Bool, true, false, not, Option, none, some, List, [], ◌∷◌, ◌++◌,
  is_some, keep, All, arith, Outcome, ok, err, if◌then◌else◌, Bool-cases, ◌⊎◌, inl, inr, or_option,
  or_option_assoc, or_option-none, append_nil,
}
use oxinit.Text.{Text, str_eq}
use oxinit.LogPipes.{
  Logs, Offer, bound, offer, offer_all, accept, disconnect, on_shipper, on_shipper_gone,
  still_connected, hold, pipe, LogsError, no_pipe,
}
use oxinit.LogPipes.Happenings.{
  Happening, since_came, happen, happen_all, started, last_started, held_for, held_for-hold,
  IsUnique, IsOffered, hold-IsUnique, IsOffered-keep, IsOffered-last, All-append,
  offer_all-IsOffered, All-none, arrive, readable, start,
}

-- What holds after any happenings.
record IsKept (state : Logs × List Offer) : Type 0 where
  listens : is_some state.0.listener ≡ true
  unique : IsUnique state.0.held
  offered : All (IsOffered state.0.shipper state.1) state.0.held

accept-cases :
    (pending : Option ℕ) (s : Logs)
    → (accept pending s ≡ ((s, false), []))
      ⊎ ((fd : ℕ) × (accept pending s
            ≡ ((record s { shipper = some fd }, true), offer_all (some fd) s.held)))
unfolding accept
accept-cases none s = inl (ground arith)
accept-cases (some fd) s = elim (Bool-cases (is_some s.listener)) [
  | inl l ↦ elim (Bool-cases (is_some s.shipper)) [
    | inl taken ↦ inl (ground arith)
    | inr free ↦ inr (fd, ground arith)
  ]
  | inr l ↦ inl (ground arith)
]

pipe-none :
    (name : Text) (s : Logs) → is_some s.listener ≡ true → pipe name none s ≡ ((s, err no_pipe), [])
unfolding pipe
pipe-none name s l = ground arith

pipe-some :
    (name : Text) (read write : ℕ) (s : Logs)
    → is_some s.listener ≡ true
    → pipe name (some (read, write)) s
      ≡ ((record s { held = hold name read s.held }, ok write), offer s.shipper name read)
unfolding pipe
pipe-some name read write s l = ground arith

started_first :
    (b : Bool) (read : ℕ) (o : Option ℕ)
    → (if b then some read else o) ≡ or_option (if b then some read else none) o
started_first true read o = refl
started_first false read o = refl

hold-IsOffered :
    (name : Text) (read : ℕ) (s : Logs) (since : List Offer)
    → All (IsOffered s.shipper since) s.held
    → All (IsOffered s.shipper (since ++ offer s.shipper name read)) (hold name read s.held)
unfolding hold
hold-IsOffered name read s since a =
    All-append (IsOffered s.shipper (since ++ offer s.shipper name read))
      (keep (λ h. not (str_eq h.unit name)) s.held) (record { unit = name; read = read } ∷ [])
      (IsOffered-keep s.shipper since (offer s.shipper name read) (λ h. not (str_eq h.unit name))
        s.held a)
      (IsOffered-last s.shipper since (record { unit = name; read = read }), tt)

-- A wake-up of the log socket leaves the shipper that was there, or none, or takes the new one.
on_shipper-cases :
    (pending : Option ℕ) (registers : Bool) (s : Logs)
    → (on_shipper pending registers s ≡ (s, []))
      ⊎ (((fd : ℕ) × (on_shipper pending registers s
              ≡ (record s { shipper = some fd }, offer_all (some fd) s.held)))
          ⊎ ((offers : List Offer) × (on_shipper pending registers s
                ≡ (record s { shipper = none }, offers))))
unfolding on_shipper disconnect
on_shipper-cases pending registers s = elim (accept-cases pending s) [
  | inl e ↦ inl (ground arith)
  | inr (fd, e) ↦ elim (Bool-cases registers) [
    | inl r ↦ inr (inl (fd, ground arith))
    | inr r ↦ inr (inr (offer_all (some fd) s.held, ground arith))
  ]
]

on_shipper_gone-cases :
    (received : Option ℕ) (s : Logs)
    → (on_shipper_gone received s ≡ s) ⊎ (on_shipper_gone received s ≡ record s { shipper = none })
unfolding on_shipper_gone disconnect
on_shipper_gone-cases received s = elim (Bool-cases (still_connected received s)) [
  | inl c ↦ inl (ground arith)
  | inr c ↦ inr (ground arith)
]

came-IsKept :
    (s : Logs) (offers : List Offer) → IsKept (s, offers) → IsKept (s, since_came s.shipper offers)
came-IsKept s offers k = record {
  listens = k.listens;
  unique = k.unique;
  offered = by s.shipper k.offered;
}
  where
    by :
        (o : Option ℕ)
        → All (IsOffered o offers) s.held
        → All (IsOffered o (since_came o offers)) s.held
    by none a = All-none [] s.held
    by (some fd) a = a

left-IsKept :
    (s : Logs) (since offers : List Offer)
    → IsKept (s, since)
    → IsKept (record s { shipper = none }, offers)
left-IsKept s since offers k = record {
  listens = k.listens;
  unique = k.unique;
  offered = All-none offers s.held;
}

-- What a step leaves in the held pipes: those, or with a new one for a unit.
abbrev Follows : Happening → Logs × List Offer → Logs × List Offer → Type 0
Follows h before after =
    IsKept after
    × ((unit : Text)
        → held_for unit after.0.held ≡ or_option (started unit h) (held_for unit before.0.held))

happen-Follows :
    (h : Happening) (state : Logs × List Offer) → IsKept state → Follows h state (happen h state)
unfolding happen
happen-Follows (arrive pending registers) (s, since) k =
    elim (on_shipper-cases pending registers s) [
      | inl e ↦ rw e (
        came-IsKept s (since ++ []) (subst (λ offers. IsKept (s, offers)) (append_nil since) k),
        λ unit. refl,
      )
      | inr (inl (fd, e)) ↦ rw e (
        record {
          listens = k.listens;
          unique = k.unique;
          offered = offer_all-IsOffered fd since s.held;
        },
        λ unit. refl,
      )
      | inr (inr (offers, e)) ↦ rw e (left-IsKept s since [] k, λ unit. refl)
    ]
happen-Follows (readable received) (s, since) k = elim (on_shipper_gone-cases received s) [
  | inl e ↦ rw e (came-IsKept s since k, λ unit. refl)
  | inr e ↦ rw e (left-IsKept s since [] k, λ unit. refl)
]
happen-Follows (start name none) (s, since) k =
    let none_made = pipe-none name s k.listens in
    rw none_made (
      subst (λ offers. IsKept (s, offers)) (append_nil since) k,
      λ unit.
          ap (λ (r : (Logs × Outcome LogsError ℕ) × List Offer). held_for unit r.0.0.held)
            none_made,
    )
happen-Follows (start name (some (read, write))) (s, since) k =
    rw (pipe-some name read write s k.listens) (
      record {
        listens = k.listens;
        unique = hold-IsUnique name read s.held k.unique;
        offered = hold-IsOffered name read s since k.offered;
      },
      λ unit.
          ap (λ (r : (Logs × Outcome LogsError ℕ) × List Offer). held_for unit r.0.0.held)
            (pipe-some name read write s k.listens)
          ∙ held_for-hold name unit read s.held
          ∙ started_first (str_eq name unit) read (held_for unit s.held),
    )

happen_all-Follows :
    (hs : List Happening) (state : Logs × List Offer)
    → IsKept state
    → IsKept (happen_all hs state)
      × ((unit : Text)
          → held_for unit (happen_all hs state).0.held
            ≡ or_option (last_started unit hs) (held_for unit state.0.held))
unfolding happen_all
happen_all-Follows [] state k = (k, λ unit. refl)
happen_all-Follows (h ∷ hs) state k =
    let (k', now) = happen-Follows h state k in
    let (last, rest) = happen_all-Follows hs (happen h state) k' in
    (
      last,
      λ unit.
          rest unit
          ∙ ap (or_option (last_started unit hs)) (now unit)
          ∙ or_option_assoc (last_started unit hs) (started unit h) (held_for unit state.0.held),
    )

-- Whatever happens to a log socket that was bound, each unit has at most one pipe that is held, that
-- of its last start that was given one, and none if there is no such start; and while a shipper is
-- connected, it has been offered every pipe that is held since it came.
pub happen_all-IsOffered :
    (listener : ℕ) (hs : List Happening)
    → (let (s, since) = happen_all hs (bound listener, []) in
        ((unit : Text) → held_for unit s.held ≡ last_started unit hs)
        × IsUnique s.held
        × All (IsOffered s.shipper since) s.held)
happen_all-IsOffered listener hs =
    let (k, last) =
      happen_all-Follows hs (bound listener, [])
        (record { listens = refl; unique = tt; offered = tt }) in
    (λ unit. last unit ∙ or_option-none (last_started unit hs), k.unique, k.offered)
