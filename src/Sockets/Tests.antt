-- ===== src/Sockets/Tests.antt =====
-- Two descriptors of a socket unit whose service runs, and one whose service is down.
use oxinit.Prelude.{ℕ, ◌↔◌, if◌then◌else◌, ◌≡◌, refl, some, List, [], ◌∷◌, true, false, Bool, arith}
use oxinit.Text.{Text, codes, str_eq}
use oxinit.Table.{Table, lookup}
use oxinit.Unit.{UnitDef, Kind, unix}
use oxinit.UnitFile.{no_deps}
use oxinit.Service.{Instance, new, active}
use oxinit.Sockets.{
  Bound, ids_from, get, set_armed, sync_socket, sync_ids, sync_sockets, bind, bind_all, for_service,
}
use oxinit.Sockets.Synced.{IsDown, sync_sockets-armed}

abbrev unit_of : Text → UnitDef
unit_of name = record { name = name; description = name; deps = no_deps; kind = Kind.target }

abbrev instances : Table Instance
instances =
    (codes "cups", new (unit_of (codes "cups")))
    ∷ (codes "sshd", record (new (unit_of (codes "sshd"))) { state = active })
    ∷ []

abbrev bound_to : Text → Text → Bool → Bound
bound_to unit service armed = record {
  unit = unit;
  service = service;
  address = unix (codes "/run/x");
  armed = armed;
}

abbrev bound : List Bound
bound =
    bound_to (codes "s") (codes "sshd") true
    ∷ bound_to (codes "p") (codes "cups") false
    ∷ bound_to (codes "s") (codes "sshd") false
    ∷ []

abbrev always : ℕ → Bool → Bool
always id armed = true

program : Unit {0}
unfolding sync_sockets sync_ids sync_socket ids_from get set_armed lookup str_eq new for_service
    bind bind_all
program = tt

synced :
    sync_sockets always instances bound
    ≡ bound_to (codes "s") (codes "sshd") false
      ∷ bound_to (codes "p") (codes "cups") true
      ∷ bound_to (codes "s") (codes "sshd") false
      ∷ []
unfolding program
synced = refl

sync_sockets-armed_example :
    (watched : Bool) × ((watched ≡ true) ↔ IsDown instances (codes "cups"))
    × (get 1 (sync_sockets always instances bound)
        ≡ some (record (bound_to (codes "p") (codes "cups") false) {
          armed = if always 1 watched then watched else false;
        }))
sync_sockets-armed_example =
    sync_sockets-armed always instances 1 bound (bound_to (codes "p") (codes "cups") false)
      (omega arith) (unfold get in refl)

handed :
    for_service (codes "sshd") bound
    ≡ bound_to (codes "s") (codes "sshd") true ∷ bound_to (codes "s") (codes "sshd") false ∷ []
unfolding program
handed = refl
