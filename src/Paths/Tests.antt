-- ===== src/Paths/Tests.antt =====
-- The paths of crates/oxinit-paths/src/lib.rs in a sample environment.
use oxinit.Prelude.{◌≡◌, refl, Option, none, some, [], ◌∷◌, ok, err}
use oxinit.Text.{Text, codes, str_eq}
use oxinit.Text.Paths.{is_absolute, join}
use oxinit.Table.{lookup}
use oxinit.Paths.{user, control, base, no_runtime_dir, user_scope}

abbrev session : Text → Option Text
session name = lookup name (
    (codes "XDG_RUNTIME_DIR", codes "/run/user/1000")
    ∷ (codes "HOME", codes "/home/ana")
    ∷ (codes "XDG_STATE_HOME", codes "state")
    ∷ [])

program : Unit {0}
unfolding user control base lookup str_eq is_absolute join
program = tt

found :
    user session
    ≡ ok (record {
      scope = user_scope;
      runtime_dir = codes "/run/user/1000/oxinit";
      log_dir = codes "/home/ana/.local/state/oxinit/log";
      config_home = some (codes "/home/ana/.config");
    })
unfolding program
found = refl

no_session : user (λ name. none) ≡ err no_runtime_dir
unfolding program
no_session = refl
