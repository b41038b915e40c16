-- ===== src/Graph/Pulls.antt =====
-- The set that `reachable` of crates/oxinit-graph/src/lib.rs returns.
use mathlib.Core.Bool.{false≢true}
use oxinit.Prelude.{
  ℕ, zero, suc, ◌≡◌, ◌↔◌, inl, inr, sym, ap, subst, ◌∙◌, Bool, true, ◌&&◌, ◌||◌, Option, none, some,
  List, [], ◌∷◌, arith, Bool-cases, Option-cases, Outcome, ok, err, Outcome-cases,
}
use oxinit.Text.{Text, str_eq, str_eq_iff, str_eq_refl, contains_text}
use oxinit.Table.{lookup, contains_key, set_insert, contains-set_insert}
use oxinit.Table.Sets.{IsSorted, set_insert-IsSorted}
use oxinit.Unit.{UnitDef}
use oxinit.Graph.{
  Units, Warning, GraphError, push_requires, visit, reach_from, reach_fuel, reachable, Reached,
}
use oxinit.Graph.Reach.{
  Pulled, start, required, wanted, contains-push_requires, contains-push_wants, reach_seen,
  reach_new, reach_fails,
}

-- What one unit pulls in.
abbrev pulls : Units → UnitDef → Text → Bool
pulls units x v =
    contains_text x.deps.requires v || (contains_text x.deps.wants v && contains_key v units)

contains-visit :
    (units : Units) (name : Text) (x : UnitDef) (queue : List Text) (ws : List Warning)
    (queue' : List Text) (ws' : List Warning) (v : Text)
    → visit units name (some x) queue ws ≡ ok (queue', ws')
    → contains_text queue' v ≡ (contains_text queue v || pulls units x v)
unfolding visit
contains-visit units name x queue ws queue' ws' v h =
    elim (Outcome-cases (push_requires units name x.deps.requires queue)) [
      | inl (q, e) ↦ ground (
        arith,
        contains-push_requires units name x.deps.requires queue q v e,
        contains-push_wants units name x.deps.wants q ws v,
      )
      | inr (b, e) ↦ ground arith
    ]

visit_absent :
    (units : Units) (name : Text) (queue : List Text) (ws : List Warning) (queue' : List Text)
    (ws' : List Warning)
    → visit units name none queue ws ≡ ok (queue', ws')
    → queue ≡ queue'
unfolding visit
visit_absent units name queue ws queue' ws' h = ground arith

visit_keeps :
    (units : Units) (name : Text) (queue : List Text) (ws : List Warning) (queue' : List Text)
    (ws' : List Warning) (v : Text)
    → visit units name (lookup name units) queue ws ≡ ok (queue', ws')
    → contains_text queue v ≡ true
    → contains_text queue' v ≡ true
visit_keeps units name queue ws queue' ws' v h k = elim (Option-cases (lookup name units)) [
  | inl l ↦
      subst (λ q. contains_text q v ≡ true)
        (visit_absent units name queue ws queue' ws' (rw l at h)) k
  | inr (x, l) ↦ ground (arith, contains-visit units name x queue ws queue' ws' v (rw l at h))
]

abbrev seen_of : Option (Outcome GraphError Reached) → List Text
seen_of (some (ok r)) = r.seen
seen_of _ = []

ok_of_err : {e : GraphError} {r : Reached} → some (err e) ≡ some (ok r) → ⊥
ok_of_err h = cc

in_seen :
    (seen : List Text) (v : Text)
    → (contains_text seen v || contains_text [] v) ≡ true
    → contains_text seen v ≡ true
unfolding contains_text
in_seen seen v h = ground arith

module _ (units : Units) (root : Text) where
  abbrev AllPulled : List Text → Type 0
  AllPulled xs = (v : Text) → contains_text xs v ≡ true → Pulled units root v

  -- What the units seen pull in is seen or queued.
  abbrev IsClosed : List Text → List Text → Type 0
  IsClosed seen queue =
      (u v : Text) (x : UnitDef)
      → contains_text seen u ≡ true
      → lookup u units ≡ some x
      → pulls units x v ≡ true
      → (contains_text seen v || contains_text queue v) ≡ true

  pulls-Pulled :
      {u v : Text} (x : UnitDef)
      → Pulled units root u
      → lookup u units ≡ some x
      → pulls units x v ≡ true
      → Pulled units root v
  pulls-Pulled {u} {v} x p l h = elim (Bool-cases (contains_text x.deps.requires v)) [
    | inl r ↦ required x p l r
    | inr r ↦ wanted x p l (ground arith) (ground arith)
  ]

  record Walk (seen queue : List Text) : Type 0 where
    pub seen_pulled : AllPulled seen
    pub queue_pulled : AllPulled queue
    pub closed : IsClosed seen queue
    pub sorted : IsSorted seen

  skip-Walk :
      (seen queue : List Text) (name : Text)
      → contains_text seen name ≡ true
      → Walk seen (name ∷ queue)
      → Walk seen queue
  unfolding contains_text
  skip-Walk seen queue name h w = record {
    seen_pulled = w.seen_pulled;
    queue_pulled = λ v k. w.queue_pulled v (ground arith);
    closed = λ u v x k l p. ground (arith, w.closed u v x k l p, str_eq_iff name v);
    sorted = w.sorted;
  }

  visit-Walk :
      (seen queue : List Text) (name : Text) (ws : List Warning) (queue' : List Text)
      (ws' : List Warning)
      → visit units name (lookup name units) queue ws ≡ ok (queue', ws')
      → Walk seen (name ∷ queue)
      → Walk (set_insert name seen) queue'
  unfolding contains_text
  visit-Walk seen queue name ws queue' ws' h w = elim (Option-cases (lookup name units)) [
    | inl l ↦
        let name_pulled = w.queue_pulled name (ground (arith, str_eq_refl name)) in
        let same : queue ≡ queue' = visit_absent units name queue ws queue' ws' (rw l at h) in
        subst (Walk (set_insert name seen)) same (record {
          seen_pulled = λ v k. elim (Bool-cases (str_eq name v)) [
            | inl e ↦ subst (Pulled units root) ((str_eq_iff name v).0 e) name_pulled
            | inr e ↦ w.seen_pulled v (ground (arith, contains-set_insert name v seen))
          ];
          queue_pulled = λ v k. w.queue_pulled v (ground arith);
          closed = λ u v y k m p. elim (Bool-cases (str_eq name u)) [
            | inl e ↦
                let gone : none ≡ some y =
                  sym l ∙ ap (λ t. lookup t units) ((str_eq_iff name u).0 e) ∙ m in
                cc
            | inr e ↦ ground (
              arith,
              w.closed u v y (ground (arith, contains-set_insert name u seen)) m p,
              contains-set_insert name v seen,
            )
          ];
          sorted = set_insert-IsSorted name seen w.sorted;
        })
    | inr (x, l) ↦
        let name_pulled = w.queue_pulled name (ground (arith, str_eq_refl name)) in
        let grown : (v : Text)
            → contains_text queue' v ≡ (contains_text queue v || pulls units x v) =
          λ v. contains-visit units name x queue ws queue' ws' v (rw l at h) in
        record {
          seen_pulled = λ v k. elim (Bool-cases (str_eq name v)) [
            | inl e ↦ subst (Pulled units root) ((str_eq_iff name v).0 e) name_pulled
            | inr e ↦ w.seen_pulled v (ground (arith, contains-set_insert name v seen))
          ];
          queue_pulled = λ v k. elim (Bool-cases (contains_text queue v)) [
            | inl e ↦ w.queue_pulled v (ground arith)
            | inr e ↦ pulls-Pulled x name_pulled l (ground (arith, grown v))
          ];
          closed = λ u v y k m p. elim (Bool-cases (str_eq name u)) [
            | inl e ↦
                let same : some x ≡ some y =
                  sym l ∙ ap (λ t. lookup t units) ((str_eq_iff name u).0 e) ∙ m in
                ground (arith, grown v)
            | inr e ↦ ground (
              arith,
              w.closed u v y (ground (arith, contains-set_insert name u seen)) m p,
              contains-set_insert name v seen,
              grown v,
            )
          ];
          sorted = set_insert-IsSorted name seen w.sorted;
        }
  ]

  reach_from-Walk :
      (fuel : ℕ) (seen queue : List Text) (ws : List Warning) (r : Reached)
      → Walk seen queue
      → reach_from fuel units seen queue ws ≡ some (ok r)
      → Walk r.seen []
        × ((v : Text)
            → (contains_text seen v || contains_text queue v) ≡ true
            → contains_text r.seen v ≡ true)
  reach_from-Walk zero seen queue ws r w h = absurd (unfold reach_from in cc)
  reach_from-Walk (suc fuel) seen [] ws r w h =
      unfold reach_from contains_text in
      let same : seen ≡ r.seen = ap seen_of h in
      (
        subst (λ s. Walk s []) same w,
        λ v k. subst (λ s. contains_text s v ≡ true) same (ground arith),
      )
  reach_from-Walk (suc fuel) seen (name ∷ queue) ws r w h =
      elim (Bool-cases (contains_text seen name)) [
        | inl old ↦
            let (last, more) =
              reach_from-Walk fuel seen queue ws r (skip-Walk seen queue name old w)
                (sym (reach_seen fuel units seen name queue ws old) ∙ h) in
            (last, λ v k. more v (unfold contains_text in ground (arith, str_eq_iff name v)))
        | inr new ↦ elim (Outcome-cases (visit units name (lookup name units) queue ws)) [
          | inl ((queue', ws'), e) ↦
              let (last, more) =
                reach_from-Walk fuel (set_insert name seen) queue' ws' r
                  (visit-Walk seen queue name ws queue' ws' e w)
                  (sym (reach_new fuel units seen name queue ws new e) ∙ h) in
              (
                last,
                λ v k. more v (
                    unfold contains_text in
                    ground (
                      arith,
                      contains-set_insert name v seen,
                      str_eq_iff name v,
                      visit_keeps units name queue ws queue' ws' v e,
                    )),
              )
          | inr (e, k) ↦
              absurd (ok_of_err (sym (reach_fails fuel units seen name queue ws new k) ∙ h))
        ]
      ]

  start-Walk : Walk [] (root ∷ [])
  unfolding contains_text
  start-Walk = record {
    seen_pulled = λ v k. absurd (false≢true k);
    queue_pulled = λ v k. subst (Pulled units root) ((str_eq_iff root v).0 (ground arith)) start;
    closed = λ u v x k l p. absurd (false≢true k);
    sorted = tt;
  }

  Pulled-seen :
      (seen : List Text)
      → Walk seen []
      → contains_text seen root ≡ true
      → {v : Text} → Pulled units root v
      → contains_text seen v ≡ true
  Pulled-seen seen w h start = h
  Pulled-seen seen w h (required {u} {v} x p l r) =
      in_seen seen v (w.closed u v x (Pulled-seen seen w h p) l (ground arith))
  Pulled-seen seen w h (wanted {u} {v} x p l r k) =
      in_seen seen v (w.closed u v x (Pulled-seen seen w h p) l (ground arith))

-- A walk that succeeds returns a sorted set, which holds exactly what the root pulls in through
-- `requires` and through the `wants` that exist.
pub reachable-Pulled :
    (units : Units) (root : Text) (r : Reached)
    → reachable units root ≡ some (ok r)
    → IsSorted r.seen × ((v : Text) → (contains_text r.seen v ≡ true) ↔ Pulled units root v)
unfolding reachable
reachable-Pulled units root r h =
    let (w, more) =
      reach_from-Walk units root (reach_fuel units) [] (root ∷ []) [] r (start-Walk units root) h in
    let at_root = more root (unfold contains_text in ground (arith, str_eq_refl root)) in
    (w.sorted, λ v. (w.seen_pulled v, λ p. Pulled-seen units root r.seen w at_root p))
