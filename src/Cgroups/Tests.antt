-- ===== src/Cgroups/Tests.antt =====
-- Units added to a sample hierarchy.
use oxinit.Prelude.{◌≡◌, refl, some, List, [], ◌∷◌, ok}
use oxinit.Text.{Text, codes}
use oxinit.Text.Paths.{join, is_absolute}
use oxinit.Cgroup.Calls.{Kernel, Op}
use oxinit.Cgroup.{create_dir}
use oxinit.Cgroups.{Cgroups, Handle, handle, unit_of, get, add, open_events}
use oxinit.Cgroups.Linked.{add_all, add_all-kept, empty_slice}

abbrev willing : Kernel
willing = record {
  read_to_string = λ done path. ok (codes "memory pids\n");
  create_dir = λ done path. ok tt;
  open_and_write = λ done path value. ok tt;
}

abbrev ssh : Handle
ssh = record { unit = codes "sshd"; cgroup = codes "/s/sshd.service"; events_fd = 7 }

program : Unit {0}
unfolding add_all add open_events create_dir handle is_absolute join
program = tt

placed :
    handle 1
      (add_all willing
        (λ done path. some 7)
        (λ n. n)
        (codes "getty" ∷ codes "sshd" ∷ [])
        (empty_slice (codes "/s"))
        []).0.handles
    ≡ some (record ssh { cgroup = codes "/s/sshd" })
unfolding program
placed = refl

abbrev begun : Cgroups × List Op
begun =
    add_all willing (λ done path. some 7) (λ n. n) (codes "getty" ∷ codes "sshd" ∷ [])
      (empty_slice (codes "/s")) []

abbrev grown : Cgroups
grown = (add_all willing (λ done path. some 7) (λ n. n) (codes "cron" ∷ []) begun.0 begun.1).0

add_all-kept_example :
    (unit_of 1 grown ≡ some (codes "sshd"))
    × (get (codes "sshd") grown ≡ some (codes "/s/sshd"))
    × (◌≡◌ {A = Text} (codes "/s/sshd") (join (codes "/s") (codes "sshd")))
add_all-kept_example =
    add_all-kept willing (λ done path. some 7) (λ n. n) (codes "getty" ∷ codes "sshd" ∷ [])
      (codes "cron" ∷ []) (codes "/s") [] 1 (record ssh { cgroup = codes "/s/sshd" }) placed
