-- ===== src/Paths/Layout.antt =====
-- Where crates/oxinit-paths/src/lib.rs puts what a user manager and its clients share.
use oxinit.Prelude.{
  ◌≡◌, ◌↔◌, ap, subst, sym, >>=-eq-ok, true, Option, none, some, [], ◌∷◌, ◌++◌, arith, Outcome, ok,
  ◌>>=◌, Option-cases, inl, inr, or_option,
}
use oxinit.Text.{Text, codes}
use oxinit.Text.Paths.{is_absolute, join}
use oxinit.Paths.{
  Paths, PathsError, absolute, or_home, base, user, control, notify, log_socket, log, runtime_of,
  user_scope,
}

join-is_absolute : (dir name : Text) → is_absolute dir ≡ true → is_absolute (join dir name) ≡ true
unfolding is_absolute join
join-is_absolute [] name a = ground arith
join-is_absolute (c ∷ cs) [] a = ground arith
join-is_absolute (c ∷ cs) (d ∷ ds) a = ground arith

absolute-is_absolute :
    (o : Option Text) {path : Text} → absolute o ≡ some path → is_absolute path ≡ true
absolute-is_absolute none h = ground arith
absolute-is_absolute (some t) h = ground arith

runtime_of-absolute :
    (o : Option Text) (path : Text) → (runtime_of o ≡ ok path) ↔ (absolute o ≡ some path)
unfolding is_absolute
runtime_of-absolute none path = ((λ h. ground arith), (λ h. ground arith))
runtime_of-absolute (some []) path = ((λ h. ground arith), (λ h. ground arith))
runtime_of-absolute (some (c ∷ cs)) path = ((λ h. ground arith), (λ h. ground arith))

-- The sockets, and the log of a unit.
abbrev pub AreAbsolute : Paths → Text → Type 0
AreAbsolute p unit =
    (is_absolute (control p) ≡ true)
    × (is_absolute (notify p) ≡ true)
    × (is_absolute (log_socket p) ≡ true)
    × (is_absolute (log unit p) ≡ true)

module _ (env : Text → Option Text) where
  -- The directory that is set, or the default in the home directory.
  abbrev in_home : Text → Option Text → Option Text
  in_home fallback none = none
  in_home fallback (some home) = some (join home fallback)

  abbrev pub chosen : Text → Text → Option Text
  chosen name fallback =
      or_option (absolute (env name)) (in_home fallback (absolute (env (codes "HOME"))))

  base-chosen :
      (name fallback path : Text)
      → (base env name fallback ≡ ok path) ↔ (chosen name fallback ≡ some path)
  unfolding base
  base-chosen name fallback path = by (absolute (env name)) (absolute (env (codes "HOME")))
    where
      by :
          (set home : Option Text)
          → (elim set [ some dir ↦ ok dir | none ↦ or_home name fallback home ] ≡ ok path)
            ↔ (or_option set (in_home fallback home) ≡ some path)
      by none none = ((λ h. ground arith), (λ h. ground arith))
      by none (some home) = ((λ h. ground arith), (λ h. ground arith))
      by (some dir) home = ((λ h. ground arith), (λ h. ground arith))

  -- The paths that a runtime, a configuration and a state directory give.
  abbrev pub laid_out : Text → Text → Text → Paths
  laid_out runtime config state = record {
    scope = user_scope;
    runtime_dir = join runtime (codes "oxinit");
    log_dir = join (join state (codes "oxinit")) (codes "log");
    config_home = some config;
  }

  abbrev stated : Text → Text → Outcome PathsError Paths
  stated runtime config = base env (codes "XDG_STATE_HOME") (codes ".local/state") >>= λ state_home.
      ok (laid_out runtime config state_home)

  abbrev configured : Text → Outcome PathsError Paths
  configured runtime = base env (codes "XDG_CONFIG_HOME") (codes ".config") >>= λ config_home.
      stated runtime config_home

  -- The three directories that are set or have a default, and these paths in them.
  abbrev pub IsFound : Paths → Type 0
  IsFound p =
      (runtime config state : Text) × (absolute (env (codes "XDG_RUNTIME_DIR")) ≡ some runtime)
      × (chosen (codes "XDG_CONFIG_HOME") (codes ".config") ≡ some config)
      × (chosen (codes "XDG_STATE_HOME") (codes ".local/state") ≡ some state)
      × (p ≡ laid_out runtime config state)

  -- The paths of a user manager are found exactly where the runtime directory is set to an absolute path
  -- and the configuration and the state directory are, or have their default in an absolute home;
  -- and they are the ones in these three directories. What is set to a relative path counts as
  -- not set.
  pub user-laid_out : (p : Paths) → (user env ≡ ok p) ↔ IsFound p
  unfolding user
  user-laid_out p = (there, back)
    where
      there : user env ≡ ok p → IsFound p
      there h =
          let (runtime, r, h1) =
            >>=-eq-ok (runtime_of (env (codes "XDG_RUNTIME_DIR"))) configured h in
          let (config, c, h2) =
            >>=-eq-ok (base env (codes "XDG_CONFIG_HOME") (codes ".config")) (stated runtime) h1 in
          let (state, s, h3) =
            >>=-eq-ok (base env (codes "XDG_STATE_HOME") (codes ".local/state"))
              (λ state_home. ok (laid_out runtime config state_home)) h2 in
          (
            runtime,
            config,
            state,
            (runtime_of-absolute (env (codes "XDG_RUNTIME_DIR")) runtime).0 r,
            (base-chosen (codes "XDG_CONFIG_HOME") (codes ".config") config).0 c,
            (base-chosen (codes "XDG_STATE_HOME") (codes ".local/state") state).0 s,
            ground arith,
          )

      back : IsFound p → user env ≡ ok p
      back (runtime, config, state, r, c, s, e) =
          rw
            (
              (runtime_of-absolute (env (codes "XDG_RUNTIME_DIR")) runtime).1 r,
              (base-chosen (codes "XDG_CONFIG_HOME") (codes ".config") config).1 c,
              (base-chosen (codes "XDG_STATE_HOME") (codes ".local/state") state).1 s,
            )
            (ap ok (sym e))

  chosen-is_absolute :
      (name fallback path : Text) → chosen name fallback ≡ some path → is_absolute path ≡ true
  chosen-is_absolute name fallback path h = elim (Option-cases (absolute (env name))) [
    | inl e ↦ elim (Option-cases (absolute (env (codes "HOME")))) [
      | inl f ↦ absurd (ground arith)
      | inr (home, f) ↦
          let at_home = absolute-is_absolute (env (codes "HOME")) f in
          let joined = join-is_absolute home fallback at_home in ground arith
    ]
    | inr (dir, e) ↦ let set = absolute-is_absolute (env name) e in ground arith
  ]

  -- Every path of a user manager is absolute, whatever the environment.
  pub user-absolute : (p : Paths) (unit : Text) → user env ≡ ok p → AreAbsolute p unit
  unfolding control notify log_socket log
  user-absolute p unit h =
      let (runtime, config, state, r, c, s, e) = (user-laid_out p).0 h in
      let run = absolute-is_absolute (env (codes "XDG_RUNTIME_DIR")) r in
      let kept = chosen-is_absolute (codes "XDG_STATE_HOME") (codes ".local/state") state s in
      let dir = join-is_absolute runtime (codes "oxinit") run in
      let logs =
        join-is_absolute (join state (codes "oxinit")) (codes "log")
          (join-is_absolute state (codes "oxinit") kept) in
      subst (λ q. AreAbsolute q unit) (sym e)
        (
          join-is_absolute (join runtime (codes "oxinit")) (codes "control.sock") dir,
          join-is_absolute (join runtime (codes "oxinit")) (codes "notify") dir,
          join-is_absolute (join runtime (codes "oxinit")) (codes "log.sock") dir,
          join-is_absolute (join (join state (codes "oxinit")) (codes "log")) (unit ++ codes ".log")
              logs,
        )
