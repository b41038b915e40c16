-- ===== src/Paths.antt =====
-- crates/oxinit-paths/src/lib.rs: where the sockets, the logs and the configuration lie, for the system
-- and for a user manager. The environment is a parameter, a lookup.
pub mod Layout
mod Tests
use oxinit.Prelude.{
  ◌≡◌, Bool, true, false, Option, none, some, List, [], ◌∷◌, ◌++◌, Outcome, ok, err, ◌>>=◌,
  if◌then◌else◌,
}
use oxinit.Text.{Text, codes, str_eq}
use oxinit.Text.Paths.{is_absolute, join}

pub data Scope : Type 0 where
  system_scope user_scope : Scope

pub data PathsError : Type 0 where
  no_runtime_dir : PathsError
  relative_runtime_dir no_home : (name : Text) → PathsError

pub record Paths : Type 0 where
  pub scope : Scope
  pub runtime_dir : Text
  pub log_dir : Text
  pub config_home : Option Text

abbrev pub control_path : Text
control_path = codes "/run/oxinit/control.sock"

abbrev pub notify_path : Text
notify_path = codes "/run/oxinit/notify"

abbrev pub log_socket_path : Text
log_socket_path = codes "/run/oxinit/log.sock"

unfoldable pub system : Paths
system = record {
  scope = system_scope;
  runtime_dir = codes "/run/oxinit";
  log_dir = codes "/var/log/oxinit";
  config_home = none;
}

-- A path that is set and not relative.
abbrev pub absolute : Option Text → Option Text
absolute none = none
absolute (some path) = if is_absolute path then some path else none

abbrev pub or_home : Text → Text → Option Text → Outcome PathsError Text
or_home name fallback none = err (no_home name)
or_home name fallback (some home) = ok (join home fallback)

abbrev pub runtime_of : Option Text → Outcome PathsError Text
runtime_of none = err no_runtime_dir
runtime_of (some []) = err no_runtime_dir
runtime_of (some (c ∷ cs)) =
    if is_absolute (c ∷ cs) then ok (c ∷ cs) else err (relative_runtime_dir (c ∷ cs))

module _ (env : Text → Option Text) where
  -- A directory of the XDG specification, or its default in the home directory.
  unfoldable pub base : Text → Text → Outcome PathsError Text
  base name fallback = elim (absolute (env name)) [
    | some dir ↦ ok dir
    | none ↦ or_home name fallback (absolute (env (codes "HOME")))
  ]

  unfoldable pub user : Outcome PathsError Paths
  unfolding base
  user = runtime_of (env (codes "XDG_RUNTIME_DIR")) >>= λ runtime.
      base (codes "XDG_CONFIG_HOME") (codes ".config") >>= λ config_home.
      base (codes "XDG_STATE_HOME") (codes ".local/state") >>= λ state_home. ok (record {
        scope = user_scope;
        runtime_dir = join runtime (codes "oxinit");
        log_dir = join (join state_home (codes "oxinit")) (codes "log");
        config_home = some config_home;
      })

unfoldable pub control : Paths → Text
control p = join p.runtime_dir (codes "control.sock")

unfoldable pub notify : Paths → Text
notify p = join p.runtime_dir (codes "notify")

unfoldable pub log_socket : Paths → Text
log_socket p = join p.runtime_dir (codes "log.sock")

unfoldable pub log : Text → Paths → Text
log unit p = join p.log_dir (unit ++ codes ".log")

unfoldable pub is_user : Paths → Bool
is_user p = elim p.scope [ system_scope ↦ false | user_scope ↦ true ]
