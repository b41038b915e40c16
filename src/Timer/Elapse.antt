-- ===== src/Timer/Elapse.antt =====
-- What the calendar and the schedule of a timer promise: crates/oxinit-timer/src/lib.rs.
use oxinit.Prelude.{
  ℕ, ◌+◌, ◌*◌, ◌%◌, ◌≤◌, ◌<◌, ◌≡◌, ◌↔◌, true, Option, none, some, arith, subst, sym, ◌∙◌, ok,
}
use oxinit.Text.{Text}
use oxinit.Time.{as_secs}
use oxinit.Timer.{
  Calendar, hourly, daily, weekly, at, next_at, Schedule, Next, after, moment, first, next,
  is_empty, parse, number, field,
}

-- The fields that a parsed time can hold.
abbrev pub IsValid : Calendar → Type 0
IsValid (at hour minute second) = (hour ≤ 23) × (minute ≤ 59) × (second ≤ 59)
IsValid _ = Unit

-- The moments that a calendar names, by the remainders of the seconds since the epoch, a Thursday.
abbrev pub Names : Calendar → ℕ → Type 0
Names hourly t = t % 3600 ≡ 0
Names daily t = t % 86400 ≡ 0
Names weekly t = t % 604800 ≡ 4 * 86400
Names (at hour minute second) t = t % 86400 ≡ hour * 3600 + minute * 60 + second

-- Moments with room above them, so that no sum of the code wraps.
abbrev pub last_moment : ℕ
last_moment = 18_446_744_073_708_000_000

pub next_at-ge : (c : Calendar) (now : ℕ) → IsValid c → now ≤ last_moment → now ≤ next_at c now
unfolding next_at
next_at-ge hourly now v h = ground arith
next_at-ge daily now v h = ground arith
next_at-ge weekly now v h = ground arith
next_at-ge (at hour minute second) now v h = ground arith

next_at-Names : (c : Calendar) (now : ℕ) → IsValid c → now ≤ last_moment → Names c (next_at c now)
unfolding next_at
next_at-Names hourly now v h = ground arith
next_at-Names daily now v h = ground arith
next_at-Names weekly now v h = ground arith
next_at-Names (at hour minute second) now v h = ground arith

next_at_least :
    (c : Calendar) (now t : ℕ)
    → IsValid c
    → now ≤ last_moment
    → now ≤ t
    → Names c t
    → next_at c now ≤ t
unfolding next_at
next_at_least hourly now t v h k n = ground arith
next_at_least daily now t v h k n = ground arith
next_at_least weekly now t v h k n = ground arith
next_at_least (at hour minute second) now t v h k n = ground arith

-- A calendar with valid fields, asked at a moment below `last_moment`, answers with a moment that it
-- names and that is not before `now`, and no named moment from `now` on comes before the answer.
next_at_first :
    (c : Calendar) (now : ℕ)
    → IsValid c
    → now ≤ last_moment
    → (now ≤ next_at c now)
      × Names c (next_at c now)
      × ((t : ℕ) → now ≤ t → Names c t → next_at c now ≤ t)
next_at_first c now v h =
    (next_at-ge c now v h, next_at-Names c now v h, λ t k n. next_at_least c now t v h k n)

number-le : (part : Text) (max : ℕ) (text : Text) {n : ℕ} → number part max text ≡ ok n → n ≤ max
unfolding number
number-le part max text h = ground arith

field-le :
    (part : Option Text) (max : ℕ) (text : Text) {n : ℕ} → field part max text ≡ ok n → n ≤ max
unfolding field
field-le none max text h = cc
field-le (some part) max text h = number-le part max text h

-- Every calendar that parses has its fields in range, whatever the text.
pub parse-IsValid : (text : Text) (c : Calendar) → parse text ≡ ok c → IsValid c
unfolding parse
parse-IsValid text hourly h = tt
parse-IsValid text daily h = tt
parse-IsValid text weekly h = tt
parse-IsValid text (at hour minute second) h = ground arith

-- A schedule says nothing about a first firing exactly when it is empty.
first-eq-none_iff : (s : Schedule) (now : ℕ) → (first s now ≡ none) ↔ (is_empty s ≡ true)
unfolding first is_empty
first-eq-none_iff s now = ground arith

next_at-le : (c : Calendar) (now : ℕ) → IsValid c → now ≤ last_moment → next_at c now ≤ now + 604800
unfolding next_at
next_at-le hourly now v h = ground arith
next_at-le daily now v h = ground arith
next_at-le weekly now v h = ground arith
next_at-le (at hour minute second) now v h = ground arith

-- A firing that the schedule allows after one at `now`: the interval, or the first moment past `now`
-- that the calendar names.
abbrev pub IsCandidate : Schedule → ℕ → Next → Type 0
IsCandidate s now (after d) = s.interval ≡ some d
IsCandidate s now (moment t) =
    (c : Calendar) × (s.calendar ≡ some c)
    × (now < t)
    × Names c t
    × ((u : ℕ) → now < u → Names c u → t ≤ u)

-- The second in which a firing falls.
abbrev pub due : Next → ℕ → ℕ
due (after d) now = now + as_secs d
due (moment t) now = t

module _ (s : Schedule) (now : ℕ) (h : now < last_moment) where
  calendar_at-IsCandidate :
      (c : Calendar)
      → s.calendar ≡ some c
      → IsValid c
      → IsCandidate s now (moment (next_at c (now + 1)))
  calendar_at-IsCandidate c e v =
      let (ge, names, least) = next_at_first c (now + 1) v (omega arith) in
      (c, e, omega arith, names, λ u k n. least u (omega arith) n)

  due-calendar-le :
      (c : Calendar) (t : ℕ)
      → s.calendar ≡ some c
      → IsValid c
      → IsCandidate s now (moment t)
      → next_at c (now + 1) ≤ t
  due-calendar-le c t e v (c', e', k, n, _) =
      let same : c' ≡ c = cc in
      (next_at_first c (now + 1) v (omega arith)).2 t (omega arith) (subst (λ x. Names x t) same n)

  next_after :
      (d : ℕ) (c : Calendar)
      → next s now ≡ some (after d)
      → (s.interval ≡ some d)
        × (s.calendar ≡ some c → IsValid c → now + as_secs d ≤ next_at c (now + 1))
  unfolding next
  next_after d c e = (ground arith, λ k v. ground (arith, next_at-le c (now + 1) v))

  next_moment :
      (t d : ℕ)
      → next s now ≡ some (moment t)
      → (c : Calendar) × (s.calendar ≡ some c)
        × (t ≡ next_at c (now + 1))
        × (s.interval ≡ some d → t ≤ now + as_secs d)
  unfolding next
  next_moment t d e = ground arith

-- The firing that a schedule answers with after one at `now` is one that it allows, and no firing
-- that it allows falls in an earlier second. The calendar's fields are in range, and `now` lies below
-- `last_moment`.
pub next_soonest :
    (s : Schedule) (now : ℕ) (n : Next)
    → ((c : Calendar) → s.calendar ≡ some c → IsValid c)
    → now < last_moment
    → next s now ≡ some n
    → IsCandidate s now n × ((m : Next) → IsCandidate s now m → due n now ≤ due m now)
next_soonest s now (after d) v h e = (
  (next_after s now h d hourly e).0,
  λ m k.
      elim m as (λ m. IsCandidate s now m → due (after d) now ≤ due m now) [
        | after d' ↦ λ k.
            let same : some d ≡ some d' = sym (next_after s now h d hourly e).0 ∙ k in ground arith
        | moment t ↦ λ (c, ec, later, names, least). omega (
          arith,
          (next_after s now h d c e).1 ec (v c ec),
          due-calendar-le s now h c t ec (v c ec) (c, ec, later, names, least),
        )
      ]
        k,
)
next_soonest s now (moment t) v h e =
    let (c, ec, et, _) = next_moment s now h t 0 e in
    (
      subst (λ u. IsCandidate s now (moment u)) (sym et)
          (calendar_at-IsCandidate s now h c ec (v c ec)),
      λ m k.
          elim m as (λ m. IsCandidate s now m → t ≤ due m now) [
            | after d' ↦ λ k. (next_moment s now h t d' e).3 k
            | moment t' ↦ λ k. rw et (due-calendar-le s now h c t' ec (v c ec) k)
          ]
            k,
    )
