-- ===== src/Cgroup/Prepared.antt =====
-- The calls of crates/oxinit-cgroup/src/lib.rs, by what they attempt: the preparation of the hierarchy,
-- and the limits of a cgroup.
use oxinit.Prelude.{
  ℕ, ◌≡◌, refl, sym, ap, ◌∙◌, ◌↔◌, Option, none, some, List, [], ◌∷◌, ◌++◌, arith, Outcome, ok, err,
  append_assoc, append_nil, Outcome-cases, inl, inr,
}
use oxinit.Text.{Text, codes}
use oxinit.Text.Decimal.{print_unsigned}
use oxinit.Text.Paths.{join}
use oxinit.Unit.{Resources, SizeValue}
use oxinit.Value.{print_size}
use oxinit.Cgroup.Calls.{
  Kernel, Op, IoError, already_exists, other, make_dir, write_file, M, pure, ◌>>◌,
}
use oxinit.Cgroup.{
  CgroupError, not_cgroup2, slice_name, init_scope, enable_line, create_dir, write, enable,
  park_init, wanted, new, apply, apply_memory, apply_tasks,
}
use oxinit.Cgroup.Attempts.{AllTaken, Does, create_dir-Does, write-Does, pure-Does, >>-Does}

module _ (kernel : Kernel) where
  abbrev subtree_control : Text → Text
  subtree_control cgroup = join cgroup (codes "cgroup.subtree_control")

  -- The line that enables controllers, where there are some.
  abbrev enabling : Text → List Text → List Op
  enabling cgroup [] = []
  enabling cgroup (c ∷ cs) = write_file (subtree_control cgroup) (enable_line (c ∷ cs)) ∷ []

  enable-Does :
      (cgroup : Text) (cs : List Text)
      → Does kernel (enable kernel cgroup cs) (enabling cgroup cs) tt
  unfolding enable
  enable-Does cgroup [] = pure-Does kernel tt
  enable-Does cgroup (c ∷ cs) = write-Does kernel (subtree_control cgroup) (enable_line (c ∷ cs))

  -- First the root, then the slice, and the slice is made in between.
  abbrev pub delegation : Text → List Text → List Op
  delegation root cs =
      enabling root cs ++ make_dir (join root slice_name) ∷ enabling (join root slice_name) cs

  -- PID 1 is moved out of the way, if the scope that it is moved to can be made.
  abbrev park_ops : Outcome IoError (Unit {0}) → Text → ℕ → List Op
  park_ops (err (other code)) root pid = make_dir (join root init_scope) ∷ []
  park_ops _ root pid =
      make_dir (join root init_scope)
      ∷ write_file (join (join root init_scope) (codes "cgroup.procs")) (print_unsigned pid)
      ∷ []

  abbrev pub parking : Text → ℕ → List Op → List Op
  parking root pid done = park_ops (kernel.create_dir done (join root init_scope)) root pid

  park_init-parking :
      (root : Text) (pid : ℕ) (done : List Op)
      → (park_init kernel root pid done).1 ≡ done ++ parking root pid done
  unfolding park_init create_dir write
  park_init-parking root pid done = by_answer (kernel.create_dir done (join root init_scope)) refl
    where
      by_answer :
          (r : Outcome IoError (Unit {0}))
          → kernel.create_dir done (join root init_scope) ≡ r
          → (park_init kernel root pid done).1 ≡ done ++ parking root pid done
      by_answer (ok u) e = rw e (
          append_assoc done (make_dir (join root init_scope) ∷ []) (
            write_file (join (join root init_scope) (codes "cgroup.procs")) (print_unsigned pid)
            ∷ []))
      by_answer (err already_exists) e = rw e (
          append_assoc done (make_dir (join root init_scope) ∷ []) (
            write_file (join (join root init_scope) (codes "cgroup.procs")) (print_unsigned pid)
            ∷ []))
      by_answer (err (other code)) e = rw e

  abbrev delegating : Text → List Text → M CgroupError Text
  delegating root cs =
      enable kernel root cs
      >> (create_dir kernel (join root slice_name)
          >> (enable kernel (join root slice_name) cs >> pure (join root slice_name)))

  delegating-Does :
      (root : Text) (cs : List Text)
      → Does kernel (delegating root cs) (delegation root cs) (join root slice_name)
  delegating-Does root cs =
      let slice = join root slice_name in
      let last = >>-Does kernel (enable-Does slice cs) (pure-Does kernel slice) in
      let all =
        >>-Does kernel (enable-Does root cs) (>>-Does kernel (create_dir-Does kernel slice) last) in
      let same : delegation root cs
          ≡ enabling root cs ++ make_dir slice ∷ (enabling slice cs ++ []) =
        ap (λ l. enabling root cs ++ make_dir slice ∷ l) (append_nil (enabling slice cs)) in
      rw same all

  -- What was attempted before the delegation.
  abbrev pub parked : Text → ℕ → List Op → List Op
  parked root pid done = done ++ parking root pid done

  new-listed :
      (root listed : Text) (pid : ℕ) (done : List Op)
      → kernel.read_to_string done (join root (codes "cgroup.controllers")) ≡ ok listed
      → new kernel root pid done ≡ delegating root (wanted listed) (parked root pid done)
  unfolding new
  new-listed root listed pid done e =
      rw (e, new) (ap (delegating root (wanted listed)) (park_init-parking root pid done))

  new-unlisted :
      (root : Text) (pid : ℕ) (done : List Op) (source : IoError)
      → kernel.read_to_string done (join root (codes "cgroup.controllers")) ≡ err source
      → new kernel root pid done ≡ (err (not_cgroup2 root source), done)
  unfolding new
  new-unlisted root pid done source e = rw (e, new)

  -- The slice under the root, which these attempts have made, all of which the kernel took.
  abbrev pub IsDelegated : Text → ℕ → List Op → Text → List Op → Text → Type 0
  IsDelegated root pid done slice after listed =
      (slice ≡ join root slice_name)
      × (after ≡ parked root pid done ++ delegation root (wanted listed))
      × AllTaken kernel (parked root pid done) (delegation root (wanted listed))

  -- The hierarchy is prepared, as its slice, exactly if the list of controllers can be read, and, after
  -- the attempt to park PID 1 in `init.scope`, whatever came of it, the kernel takes each of these: the
  -- wanted controllers enabled at the root, the slice, and the same controllers enabled in it, in
  -- this order and with nothing else.
  pub new-delegates :
      (root slice : Text) (pid : ℕ) (done after : List Op)
      → (new kernel root pid done ≡ (ok slice, after)) ↔ (
          (listed : Text) × (kernel.read_to_string done (join root (codes "cgroup.controllers"))
            ≡ ok listed)
          × IsDelegated root pid done slice after listed)
  new-delegates root slice pid done after = (there, back)
    where
      there :
          new kernel root pid done ≡ (ok slice, after)
          → (listed : Text) × (kernel.read_to_string done (join root (codes "cgroup.controllers"))
              ≡ ok listed)
            × IsDelegated root pid done slice after listed
      there h =
          elim (Outcome-cases
            (kernel.read_to_string done (join root (codes "cgroup.controllers")))) [
              | inl (listed, e) ↦
                  let delegated =
                    (delegating-Does root (wanted listed) (parked root pid done) after slice).0
                      (sym (new-listed root listed pid done e) ∙ h) in
                  (listed, e, delegated)
              | inr (source, e) ↦
                  let failed = sym (new-unlisted root pid done source e) ∙ h in
                  absurd (ground arith)
            ]

      back :
          (listed : Text) × (kernel.read_to_string done (join root (codes "cgroup.controllers"))
              ≡ ok listed)
            × IsDelegated root pid done slice after listed
          → new kernel root pid done ≡ (ok slice, after)
      back (listed, e, delegated) =
          new-listed root listed pid done e
          ∙ (delegating-Does root (wanted listed) (parked root pid done) after slice).1 delegated

  abbrev memory_limit : Text → Option SizeValue → List Op
  memory_limit path none = []
  memory_limit path (some size) = write_file (join path (codes "memory.max")) (print_size size) ∷ []

  abbrev tasks_limit : Text → Option ℕ → List Op
  tasks_limit path none = []
  tasks_limit path (some n) = write_file (join path (codes "pids.max")) (print_unsigned n) ∷ []

  -- The files that declared limits go to.
  abbrev pub limits : Text → Resources → List Op
  limits path r = memory_limit path r.memory_max ++ tasks_limit path r.tasks_max

  apply_memory-Does :
      (path : Text) (limit : Option SizeValue)
      → Does kernel (apply_memory kernel path limit) (memory_limit path limit) tt
  apply_memory-Does path none = pure-Does kernel tt
  apply_memory-Does path (some size) =
      write-Does kernel (join path (codes "memory.max")) (print_size size)

  apply_tasks-Does :
      (path : Text) (limit : Option ℕ)
      → Does kernel (apply_tasks kernel path limit) (tasks_limit path limit) tt
  apply_tasks-Does path none = pure-Does kernel tt
  apply_tasks-Does path (some n) =
      write-Does kernel (join path (codes "pids.max")) (print_unsigned n)

  -- The limits of a cgroup are applied exactly if the kernel takes each of these: the declared memory
  -- limit in `memory.max`, and then the declared task limit in `pids.max`. For a limit that is not
  -- declared, nothing is written.
  pub apply-limits :
      (path : Text) (r : Resources) (done after : List Op)
      → (apply kernel path r done ≡ (ok tt, after))
        ↔ ((after ≡ done ++ limits path r) × AllTaken kernel done (limits path r))
  unfolding apply
  apply-limits path r done after =
      let both =
        >>-Does kernel (apply_memory-Does path r.memory_max) (apply_tasks-Does path r.tasks_max)
          done after tt in
      ((λ h. ((both.0 h).1, (both.0 h).2)), (λ h. both.1 (refl, h.0, h.1)))
