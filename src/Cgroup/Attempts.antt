-- ===== src/Cgroup/Attempts.antt =====
-- The calls of crates/oxinit-cgroup/src/lib.rs by what they attempt, and rules to put them together.
use oxinit.Prelude.{
  ◌≡◌, refl, sym, ap, subst, ◌∙◌, ◌↔◌, List, [], ◌∷◌, ◌++◌, arith, Outcome, ok, err, append_assoc,
  append_nil, Outcome-cases, inl, inr,
}
use oxinit.Text.{Text}
use oxinit.Cgroup.Calls.{
  Kernel, Op, IoError, already_exists, other, make_dir, write_file, M, pure, ◌>>◌,
}
use oxinit.Cgroup.{CgroupError, create_answer, write_answer, create_dir, write}

-- The kernel does what it is asked; a directory that is there already serves as well.
abbrev pub Stands : Outcome IoError (Unit {0}) → Type 0
Stands (ok u) = Unit
Stands (err already_exists) = Unit
Stands (err (other code)) = ⊥

abbrev pub Succeeds : Outcome IoError (Unit {0}) → Type 0
Succeeds (ok u) = Unit
Succeeds (err source) = ⊥

abbrev pub Takes : Kernel → List Op → Op → Type 0
Takes kernel done (make_dir path) = Stands (kernel.create_dir done path)
Takes kernel done (write_file path value) = Succeeds (kernel.open_and_write done path value)

-- Each of the attempts is taken at its moment.
abbrev pub AllTaken : Kernel → List Op → List Op → Type 0
AllTaken kernel done [] = Unit
AllTaken kernel done (op ∷ ops) = Takes kernel done op × AllTaken kernel (done ++ op ∷ []) ops

AllTaken-append :
    (kernel : Kernel) (done xs ys : List Op)
    → AllTaken kernel done (xs ++ ys) ↔ (AllTaken kernel done xs × AllTaken kernel (done ++ xs) ys)
AllTaken-append kernel done [] ys = rw (← append_nil done) ((λ h. (tt, h)), (λ h. h.1))
AllTaken-append kernel done (x ∷ xs) ys =
    let rest = AllTaken-append kernel (done ++ x ∷ []) xs ys in
    let same : AllTaken kernel ((done ++ x ∷ []) ++ xs) ys ≡ AllTaken kernel (done ++ x ∷ xs) ys =
      ap (λ d. AllTaken kernel d ys) (append_assoc done (x ∷ []) xs) in
    (
      (λ h. ((h.0, (rest.0 h.1).0), subst (λ T. T) same (rest.0 h.1).1)),
      (λ h. (h.0.0, rest.1 (h.0.1, subst (λ T. T) (sym same) h.1))),
    )

-- The call attempts these changes in this order up to the first that is not taken, and ends in this
-- value exactly when all of them are.
abbrev pub Does {ℓ κ} : {E : Type ℓ} {A : Type κ} → Kernel → M E A → List Op → A → Type (ℓ ⊔ κ)
Does {A} kernel m ops a =
    (done after : List Op) (b : A)
    → (m done ≡ (ok b, after)) ↔ ((b ≡ a) × (after ≡ done ++ ops) × AllTaken kernel done ops)

module _ (kernel : Kernel) where
  pub create_dir-Does : (path : Text) → Does kernel (create_dir kernel path) (make_dir path ∷ []) tt
  unfolding create_dir
  create_dir-Does path done after b =
      answered (kernel.create_dir done path) (done ++ make_dir path ∷ [])
    where
      answered :
          (r : Outcome IoError (Unit {0})) (ops : List Op)
          → (let now : Outcome CgroupError (Unit {0}) × List Op = (create_answer path r, ops) in
              now ≡ (ok b, after))
            ↔ ((b ≡ tt) × (after ≡ ops) × (Stands r × Unit {0}))
      answered (ok u) ops = ((λ h. ground arith), (λ h. ground arith))
      answered (err already_exists) ops = ((λ h. ground arith), (λ h. ground arith))
      answered (err (other code)) ops = ((λ h. ground arith), (λ h. ground arith))

  pub write-Does :
      (path value : Text) → Does kernel (write kernel path value) (write_file path value ∷ []) tt
  unfolding write
  write-Does path value done after b =
      answered (kernel.open_and_write done path value) (done ++ write_file path value ∷ [])
    where
      answered :
          (r : Outcome IoError (Unit {0})) (ops : List Op)
          → (let now : Outcome CgroupError (Unit {0}) × List Op = (write_answer path r, ops) in
              now ≡ (ok b, after))
            ↔ ((b ≡ tt) × (after ≡ ops) × (Succeeds r × Unit {0}))
      answered (ok u) ops = ((λ h. ground arith), (λ h. ground arith))
      answered (err source) ops = ((λ h. ground arith), (λ h. ground arith))

  pub pure-Does {ℓ κ} : {E : Type ℓ} {A : Type κ} (a : A) → Does {E = E} kernel (pure a) [] a
  pure-Does a done after b = (
    (λ h. (ground arith, ground (arith, append_nil done), tt)),
    (λ h. ground (arith, append_nil done)),
  )

  pub >>-Does {ℓ κ} :
      {E : Type ℓ} {A : Type κ} {m : M E (Unit {0})} {k : M E A} {xs ys : List Op} {a : A}
      → Does kernel m xs tt
      → Does kernel k ys a
      → Does kernel (m >> k) (xs ++ ys) a
  >>-Does {E} {A} {m} {k} {xs} {ys} {a} first next done after b = (there, back)
    where
      there :
          (m >> k) done ≡ (ok b, after)
          → (b ≡ a) × (after ≡ done ++ (xs ++ ys)) × AllTaken kernel done (xs ++ ys)
      there h = elim (Outcome-cases (m done).0) [
        | inl (u, e) ↦
            let (_, f, t) = (first done (m done).1 u).0 (ground arith) in
            let now : k (done ++ xs) ≡ (ok b, after) = ap k (sym f) ∙ ground arith in
            let (g, l, r) = (next (done ++ xs) after b).0 now in
            (g, l ∙ append_assoc done xs ys, (AllTaken-append kernel done xs ys).1 (t, r))
        | inr (x, e) ↦ absurd (ground arith)
      ]

      back :
          (b ≡ a) × (after ≡ done ++ (xs ++ ys)) × AllTaken kernel done (xs ++ ys)
          → (m >> k) done ≡ (ok b, after)
      back (g, l, t) =
          let (here, rest) = (AllTaken-append kernel done xs ys).0 t in
          let now = (first done (done ++ xs) tt).1 (refl, refl, here) in
          let then_now =
            (next (done ++ xs) after b).1 (g, l ∙ sym (append_assoc done xs ys), rest) in
          ground arith
