-- ===== src/Control.antt =====
-- crates/oxinit/src/supervisor.rs: the control requests, `Request` and `Response` of
-- crates/oxinit-ipc/src/lib.rs and `handle`. What the cgroups say and what the directories hold when a
-- request comes are arguments.
use oxinit.Prelude.{none, some, List, [], ◌∷◌, if◌then◌else◌, not}
use oxinit.Text.{Text}
use oxinit.Table.{lookup, contains_key, set_insert}
use oxinit.Service.{requested}
use oxinit.Supervisor.{World, Supervisor, is_idle, shutting_down, stop, start}
use oxinit.Cgroup.{Stats}
use oxinit.Status.{UnitStatus, list, status}
use oxinit.Load.{Loaded}
use oxinit.Reload.{Answer, reload}

pub data Request : Type 0 where
  list_units reload_files : Request
  status_unit start_unit stop_unit restart_unit : (unit : Text) → Request

-- An answer without its text; that of a reload says which of the two it is.
pub data Response : Type 0 where
  units : List UnitStatus → Response
  accepted unknown refused : Response
  after_reload : Answer → Response

unfoldable pub restart_when_stopped : World → Text → Supervisor → Supervisor
restart_when_stopped w name s = elim (lookup name s.instances) [
  | none ↦ s
  | some i ↦
      if is_idle i.state
      then start w name s
      else record s { pending_restart = set_insert name s.pending_restart }
]

unfoldable pub handle :
    (stats : Text → Stats) (found : Loaded) → World → Request → Supervisor → Supervisor × Response
handle stats found w list_units s = (s, units (list stats w s))
handle stats found w (status_unit name) s = elim (status stats w name s) [
  | none ↦ (s, unknown)
  | some u ↦ (s, units (u ∷ []))
]
handle stats found w (start_unit name) s =
    if not (contains_key name s.instances)
    then (s, unknown)
    else (if shutting_down s then (s, refused) else (start w name s, accepted))
handle stats found w (stop_unit name) s =
    if not (contains_key name s.instances)
    then (s, unknown)
    else (stop w name requested s, accepted)
handle stats found w (restart_unit name) s =
    if not (contains_key name s.instances)
    then (s, unknown)
    else (if shutting_down s
        then (s, refused)
        else (restart_when_stopped w name (stop w name requested s), accepted))
handle stats found w reload_files s = let (t, answer) = reload found s in (t, after_reload answer)
