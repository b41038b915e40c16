-- ===== src/UnitFile/Checks.antt =====
-- What each check of crates/oxinit-unit/src/unit.rs leaves true of what it passes.
use oxinit.Prelude.{
  ◌≢◌, if◌then◌else◌, subst, ◌>>=◌, ◌≡◌, refl, inl, inr, true, false, Option, none, some, List, [],
  ◌∷◌, arith, find, ok, err, >>=-eq-ok, is_some, Bool-cases, all, Outcome-cases,
}
use oxinit.Text.{Text, contains_text, str_eq, str_eq_iff}
use oxinit.Timer.{Calendar, is_empty, parse}
use oxinit.Timer.Elapse.{IsValid, parse-IsValid}
use oxinit.Time.{Duration}
use oxinit.Exec
use oxinit.Exec.{Specifiers, is_absolute, check_program, expand, split}
use oxinit.Unit.{
  Deps, Timer, Service, Socket, SocketAddr, datagram, ServiceType, simple, forking, oneshot, notify,
  Resources,
}
use oxinit.UnitFile.{
  RawFile, RawService, RawSocket, RawTimer, Scope, system, user, validate_name, name_char, meta_of,
  or_else, schedule_of, empty_schedule, check_file, service_user, check_watchdog, parse_service,
  parse_calendar, parse_timer, parse_addresses, listening, default_backlog, specifiers,
}

-- A name that is a file name and a segment of a cgroup's path.
abbrev pub IsNamed : Text → Type 0
IsNamed [] = ⊥
IsNamed (c ∷ cs) = all name_char (c ∷ cs) ≡ true

pub validate_name-IsNamed :
    (name : Text) (checked : Unit {0}) → validate_name name ≡ ok checked → IsNamed name
unfolding validate_name
validate_name-IsNamed [] checked h = ground arith
validate_name-IsNamed (c ∷ cs) checked h = ground arith

-- Nothing is both required and a conflict.
abbrev pub IsConsistent : Deps → Type 0
IsConsistent deps =
    (r : Text) → contains_text deps.requires r ≡ true → contains_text deps.conflicts r ≡ false

find-eq-none :
    (conflicts requires : List Text)
    → find (λ r. contains_text conflicts r) requires ≡ none
    → (r : Text) → contains_text requires r ≡ true
    → contains_text conflicts r ≡ false
unfolding contains_text
find-eq-none conflicts [] f r h = ground arith
find-eq-none conflicts (q ∷ qs) f r h =
    let free = find-eq-none conflicts qs in
    elim (Bool-cases (str_eq q r)) [
      | inl e ↦
          let same = (str_eq_iff q r).0 e in
          subst (λ x. contains_text conflicts x ≡ false) same (ground arith)
      | inr e ↦ free (ground arith) r (ground arith)
    ]

pub check_file-IsConsistent :
    (name : Text) (raw : RawFile) (checked : Unit {0})
    → check_file name raw ≡ ok checked
    → IsConsistent (meta_of raw).deps
unfolding check_file
check_file-IsConsistent name raw checked h r =
    find-eq-none (meta_of raw).deps.conflicts (meta_of raw).deps.requires (ground arith) r

-- The program of a service is an absolute path.
abbrev pub IsProgram : List Text → Type 0
IsProgram [] = ⊥
IsProgram (program ∷ args) = is_absolute program ≡ true

check_program-IsProgram : (words argv : List Text) → check_program words ≡ ok argv → IsProgram argv
unfolding check_program
check_program-IsProgram [] argv h = ground arith
check_program-IsProgram (w ∷ ws) [] h = ground arith
check_program-IsProgram (w ∷ ws) (p ∷ ps) h = ground arith

exec-IsProgram :
    (exec : Text) (s : Specifiers) (argv : List Text) → Exec.parse exec s ≡ ok argv → IsProgram argv
unfolding Exec.parse
exec-IsProgram exec s argv h =
    let (expanded, e, k) = >>=-eq-ok (expand s exec) (λ t. split t >>= check_program) h in
    let (words, w, l) = >>=-eq-ok (split expanded) check_program k in
    check_program-IsProgram words argv l

-- Who a service runs as, and whether it may have the terminal.
abbrev pub RunsAs : Scope → Service → Type 0
RunsAs system s = Unit
RunsAs (user owner) s = (s.user ≡ owner) × (s.tty ≡ false)

pub service_user-RunsAs :
    (scope : Scope) (name run_as : Text) (raw : RawService) (s : Service)
    → service_user scope name raw ≡ ok run_as
    → s.user ≡ run_as
    → s.tty ≡ or_else false raw.tty
    → RunsAs scope s
unfolding service_user
service_user-RunsAs system name run_as raw s h u t = tt
service_user-RunsAs (user owner) name run_as raw s h u t = ground arith

-- Only a service that speaks the protocol has a channel to ping on.
abbrev pub IsWatched : Service → Type 0
IsWatched s = is_some s.watchdog_sec ≡ true → s.ty ≡ notify

check_watchdog-notify :
    (name : Text) (ty : ServiceType) (watchdog_sec : Option Duration) (checked : Unit {0})
    → check_watchdog name ty watchdog_sec ≡ ok checked
    → is_some watchdog_sec ≡ true
    → ty ≡ notify
check_watchdog-notify name simple w checked h k = ground arith
check_watchdog-notify name forking w checked h k = ground arith
check_watchdog-notify name oneshot w checked h k = ground arith
check_watchdog-notify name notify w checked h k = refl

abbrev pub ServiceIsValid : Scope → Service → Type 0
ServiceIsValid scope s = RunsAs scope s × IsProgram s.exec × IsWatched s

pub parse_service-ServiceIsValid :
    (scope : Scope) (name hostname : Text) (resources : Option Resources) (raw : RawService)
    (s : Service)
    → parse_service scope name hostname resources raw ≡ ok s
    → ServiceIsValid scope s
unfolding parse_service
parse_service-ServiceIsValid scope name hostname resources raw s h =
    elim (Outcome-cases (service_user scope name raw)) [
      | inr (x, e) ↦ absurd (ground arith)
      | inl (run_as, e) ↦
          elim (Outcome-cases (Exec.parse raw.exec (specifiers name hostname run_as))) [
            | inr (x, p) ↦ absurd (ground arith)
            | inl (argv, p) ↦
                elim (Outcome-cases
                  (check_watchdog name (or_else simple raw.ty) raw.watchdog_sec)) [
                    | inr (x, w) ↦ absurd (ground arith)
                    | inl (checked, w) ↦ (
                      service_user-RunsAs scope name run_as raw s e (ground arith) (ground arith),
                      subst IsProgram (ground arith)
                          (exec-IsProgram raw.exec (specifiers name hostname run_as) argv p),
                      λ k. ground (
                        arith,
                        check_watchdog-notify name (or_else simple raw.ty) raw.watchdog_sec checked
                            w (ground arith),
                      ),
                    )
                  ]
          ]
    ]

-- The calendar of a schedule, where it has one, names moments.
abbrev pub TimerIsValid : Timer → Type 0
TimerIsValid t =
    (is_empty t.schedule ≡ false) × ((c : Calendar) → t.schedule.calendar ≡ some c → IsValid c)

parse_calendar-IsValid :
    (name : Text) (text : Option Text) (read : Option Calendar)
    → parse_calendar name text ≡ ok read
    → (c : Calendar) → read ≡ some c
    → IsValid c
unfolding parse_calendar
parse_calendar-IsValid name none read h c k = ground arith
parse_calendar-IsValid name (some text) read h c k = elim (Outcome-cases (parse text)) [
  | inr e ↦ ground arith
  | inl (d, e) ↦ parse-IsValid text c (ground arith)
]

pub parse_timer-TimerIsValid :
    (name : Text) (raw : RawTimer) (t : Timer) → parse_timer name raw ≡ ok t → TimerIsValid t
unfolding parse_timer
parse_timer-TimerIsValid name raw t h =
    let (read, e, k) =
      >>=-eq-ok (parse_calendar name raw.on_calendar)
        (λ c.
          if is_empty (schedule_of raw c)
          then err (empty_schedule name)
          else ok (record { schedule = schedule_of raw c; service = raw.service }))
        h in
    (ground arith, λ c same. parse_calendar-IsValid name raw.on_calendar read e c (ground arith))

-- A socket has an address, and one that nobody listens on has no backlog of its own.
abbrev pub SocketIsValid : Socket → Type 0
SocketIsValid s = (s.listen ≢ []) × (s.ty ≡ datagram → s.backlog ≡ default_backlog)

parse_addresses-ne-nil :
    (socket_addr : Text → Option SocketAddr) (name address : Text) (addresses : List Text)
    → parse_addresses socket_addr name (address ∷ addresses) ≢ ok []
unfolding parse_addresses
parse_addresses-ne-nil socket_addr name address addresses h = ground arith

pub listening-SocketIsValid :
    (socket_addr : Text → Option SocketAddr) (name : Text) (raw : RawSocket) (addresses : List Text)
    (s : Socket)
    → listening socket_addr name raw addresses ≡ ok s
    → SocketIsValid s
unfolding listening
listening-SocketIsValid socket_addr name raw [] s h = absurd (ground arith)
listening-SocketIsValid socket_addr name raw (address ∷ addresses) s h =
    elim (Outcome-cases (parse_addresses socket_addr name (address ∷ addresses))) [
      | inr (x, e) ↦ absurd (ground arith)
      | inl (listen, e) ↦ (
        λ k. parse_addresses-ne-nil socket_addr name address addresses (ground arith),
        λ k. ground arith,
      )
    ]
