-- ===== src/Status.antt =====
-- crates/oxinit/src/supervisor.rs, `describe`, and what the `list` and `status` requests answer. What the
-- cgroups say is a parameter.
use oxinit.Prelude.{ℕ, Option, none, some, List, map, max}
use oxinit.Text.{Text, codes}
use oxinit.Table.{lookup}
use oxinit.Timer.{in_seconds}
use oxinit.Unit.{suffix}
use oxinit.Service.{Instance, State, inactive, activating, active, deactivating, failed, restarting}
use oxinit.Supervisor.{World, Supervisor}
use oxinit.Cgroup.{Stats}

pub record UnitStatus : Type 0 where
  pub name : Text
  pub kind : Text
  pub description : Text
  pub state : Text
  pub pid : Option ℕ
  pub restarts : ℕ
  pub status_text : Option Text
  pub next_elapse : Option ℕ
  pub memory : Option ℕ
  pub tasks : Option ℕ

unfoldable pub state_name : State → Text
state_name inactive = codes "inactive"
state_name activating = codes "activating"
state_name active = codes "active"
state_name deactivating = codes "deactivating"
state_name failed = codes "failed"
state_name restarting = codes "restarting"

module _ (stats : Text → Stats) where
  -- A timer that is armed fires in a second at the soonest.
  unfoldable pub describe : World → Supervisor → Instance → UnitStatus
  describe w s i = record {
    name = i.unit.name;
    kind = suffix i.unit.kind;
    description = i.unit.description;
    state = state_name i.state;
    pid = i.child;
    restarts = i.restarts;
    status_text = i.status_text;
    next_elapse = elim (lookup i.unit.name s.next_elapse) [
      | none ↦ none
      | some next ↦ some (max (in_seconds next w.unix_now) 1)
    ];
    memory = (stats i.unit.name).memory;
    tasks = (stats i.unit.name).tasks;
  }

  unfoldable pub list : World → Supervisor → List UnitStatus
  list w s = map (λ e. describe w s e.1) s.instances

  unfoldable pub status : World → Text → Supervisor → Option UnitStatus
  status w unit s = elim (lookup unit s.instances) [ none ↦ none | some i ↦ some (describe w s i) ]
