-- ===== src/UnitFile/WellFormed.antt =====
-- What every unit that crates/oxinit-unit/src/unit.rs accepts is: a unit in hand has passed all the
-- checks, so that the code that runs units asks for none of them again.
use oxinit.Prelude.{
  ◌≡◌, inl, inr, subst, Option, none, some, arith, Outcome, ok, >>=-eq-ok, Outcome-cases,
}
use oxinit.Text.{Text}
use oxinit.Unit.{UnitDef, Kind, SocketAddr, Resources}
use oxinit.UnitFile.{
  RawFile, RawService, RawSocket, RawTimer, Scope, validate_name, check_file, meta_of, kind_of,
  parse_raw, parse_in, parse_service, parse_timer, listening, toml_error,
}
use oxinit.UnitFile.Checks.{
  IsNamed, IsConsistent, ServiceIsValid, SocketIsValid, TimerIsValid, validate_name-IsNamed,
  check_file-IsConsistent, parse_service-ServiceIsValid, parse_timer-TimerIsValid,
  listening-SocketIsValid,
}

abbrev pub KindIsValid : Scope → Kind → Type 0
KindIsValid scope (Kind.service s) = ServiceIsValid scope s
KindIsValid scope Kind.target = Unit
KindIsValid scope (Kind.socket s) = SocketIsValid s
KindIsValid scope (Kind.timer t) = TimerIsValid t

pub record IsWellFormed (scope : Scope) (name : Text) (u : UnitDef) : Type 0 where
  pub own_name : u.name ≡ name
  pub named : IsNamed name
  pub consistent : IsConsistent u.deps
  pub kind_valid : KindIsValid scope u.kind

module _ (socket_addr : Text → Option SocketAddr) where
  kind_of-KindIsValid :
      (scope : Scope) (name hostname : Text) (resources : Option Resources) (s : Option RawService)
      (k : Option RawSocket) (t : Option RawTimer) (kind : Kind)
      → kind_of socket_addr scope name hostname resources s k t ≡ ok kind
      → KindIsValid scope kind
  kind_of-KindIsValid scope name hostname resources (some s) none none kind h =
      let (made, e, k) =
        >>=-eq-ok (parse_service scope name hostname resources s) (λ r. ok (Kind.service r)) h in
      let same : Kind.service made ≡ kind = ground arith in
      subst (KindIsValid scope) same
        (parse_service-ServiceIsValid scope name hostname resources s made e)
  kind_of-KindIsValid scope name hostname resources none (some s) none kind h =
      let (made, e, k) =
        >>=-eq-ok (listening socket_addr name s s.listen) (λ r. ok (Kind.socket r)) h in
      let same : Kind.socket made ≡ kind = ground arith in
      subst (KindIsValid scope) same (listening-SocketIsValid socket_addr name s s.listen made e)
  kind_of-KindIsValid scope name hostname resources none none (some t) kind h =
      let (made, e, k) = >>=-eq-ok (parse_timer name t) (λ r. ok (Kind.timer r)) h in
      let same : Kind.timer made ≡ kind = ground arith in
      subst (KindIsValid scope) same (parse_timer-TimerIsValid name t made e)
  kind_of-KindIsValid scope name hostname resources none none none kind h =
      let same : Kind.target ≡ kind = ground arith in subst (KindIsValid scope) same tt
  kind_of-KindIsValid scope name hostname resources (some _) (some _) _ kind h =
      let same : Kind.target ≡ kind = ground arith in subst (KindIsValid scope) same tt
  kind_of-KindIsValid scope name hostname resources (some _) none (some _) kind h =
      let same : Kind.target ≡ kind = ground arith in subst (KindIsValid scope) same tt
  kind_of-KindIsValid scope name hostname resources none (some _) (some _) kind h =
      let same : Kind.target ≡ kind = ground arith in subst (KindIsValid scope) same tt

  parse_raw-IsWellFormed :
      (scope : Scope) (name hostname : Text) (raw : RawFile) (u : UnitDef)
      → IsNamed name
      → parse_raw socket_addr scope name hostname raw ≡ ok u
      → IsWellFormed scope name u
  unfolding parse_raw
  parse_raw-IsWellFormed scope name hostname raw u n h =
      elim (Outcome-cases (check_file name raw)) [
        | inr (x, e) ↦ absurd (ground arith)
        | inl (checked, e) ↦
            elim (Outcome-cases (
              kind_of socket_addr scope name hostname raw.resources raw.service raw.socket
                raw.timer)) [
                  | inr (x, k) ↦ absurd (ground arith)
                  | inl (kind, k) ↦ record {
                    own_name = ground arith;
                    named = n;
                    consistent =
                        let same : (meta_of raw).deps ≡ u.deps = ground arith in
                        subst IsConsistent same (check_file-IsConsistent name raw checked e);
                    kind_valid =
                        let same : kind ≡ u.kind = ground arith in
                        subst (KindIsValid scope) same (
                          kind_of-KindIsValid scope name hostname raw.resources raw.service
                            raw.socket raw.timer kind k);
                  }
                ]
      ]

  -- Whatever the reader of TOML makes of a file, a unit that `parse_in` accepts has its own name, made
  -- of the allowed characters; it requires nothing that it conflicts with; a service has a program
  -- with an absolute path, is watched only where it notifies, and, for a user's manager, runs as
  -- that user without the terminal; a socket has an address, and the default backlog where it is a
  -- datagram one; and a timer has something to fire on, with a calendar, if any, within its bounds.
  pub parse_in-IsWellFormed :
      (from_toml : Text → Outcome Text RawFile) (name text hostname : Text) (scope : Scope)
      (u : UnitDef)
      → parse_in socket_addr from_toml name text hostname scope ≡ ok u
      → IsWellFormed scope name u
  unfolding parse_in
  parse_in-IsWellFormed from_toml name text hostname scope u h =
      elim (Outcome-cases (validate_name name)) [
        | inr (x, e) ↦ absurd (ground arith)
        | inl (checked, e) ↦ elim (Outcome-cases (toml_error name (from_toml text))) [
          | inr (x, t) ↦ absurd (ground arith)
          | inl (raw, t) ↦
              parse_raw-IsWellFormed scope name hostname raw u
                (validate_name-IsNamed name checked e) (ground arith)
        ]
      ]
