-- ===== src/Topology/Ends.antt =====
-- How the loop of `topological_order` in crates/oxinit-graph/src/lib.rs ends: its queue is empty after
-- as many rounds as there are units, and what is missing from the order waits on a cycle.
use mathlib.Core.List.{append-nil}
use oxinit.Prelude.{
  ℕ, zero, suc, ◌+◌, ◌≤◌, ◌<◌, ◌≡◌, ◌⊎◌, inl, inr, refl, sym, ap, subst, ◌∙◌, true, ◌&&◌, List, [],
  ◌∷◌, ◌++◌, arith, length, length-append, ◌==◌,
}
use oxinit.Text.{Text, contains_text}
use oxinit.Table.{Table}
use oxinit.Table.Sets.{Distinct, length-le_of_subset, subset_full}
use oxinit.Topology.{degree_of, successors_of, Progress, pop_ready, kahn}
use oxinit.Topology.Rounds.{AreEdges, Inv, pop_ready-Inv, preds_left, preds_left_done}

nil_of_length {ℓ} : {A : Type ℓ} (xs : List A) → length xs ≤ 0 → xs ≡ []
nil_of_length [] h = refl
nil_of_length (x ∷ xs) h = absurd (omega arith)

module _ (m : Table (List Text)) (wanted : List Text) (edges : AreEdges m wanted) where
  pub kahn-Inv : (n : ℕ) (p : Progress) → Inv m wanted p → Inv m wanted (kahn n m p)
  unfolding kahn
  kahn-Inv zero p i = i
  kahn-Inv (suc n) p i = kahn-Inv n (pop_ready m p) (pop_ready-Inv m wanted edges p i)

  pub placed-le : (p : Progress) → Inv m wanted p → length p.order + length p.ready ≤ length wanted
  placed-le p i = omega (
    arith,
    length-le_of_subset (p.order ++ p.ready) wanted i.placed_once edges.wanted_distinct
        (λ v h. ground (arith, i.placed v)),
    length-append p.order p.ready,
  )

  kahn_done : (n : ℕ) (p : Progress) → p.ready ≡ [] → (kahn n m p).ready ≡ []
  unfolding kahn pop_ready
  kahn_done zero p h = h
  kahn_done (suc n) p h = kahn_done n (pop_ready m p) (ground arith)

  pop_ready_grows :
      (p : Progress) → (p.ready ≡ []) ⊎ (length (pop_ready m p).order ≡ suc (length p.order))
  unfolding pop_ready
  pop_ready_grows p = go p.order p.ready p.remaining
    where
      go :
          (order ready : List Text) (remaining : Table ℕ)
          → let p : Progress = record { order = order; ready = ready; remaining = remaining } in
            (ready ≡ []) ⊎ (length (pop_ready m p).order ≡ suc (length order))
      go order [] remaining = inl refl
      go order (name ∷ ready) remaining = inr (omega (arith, length-append order (name ∷ [])))

  -- Enough rounds empty the queue.
  pub kahn_ends :
      (n : ℕ) (p : Progress)
      → Inv m wanted p
      → length wanted ≤ n + length p.order
      → (kahn n m p).ready ≡ []
  unfolding kahn
  kahn_ends zero p i h = nil_of_length p.ready (omega (arith, placed-le p i))
  kahn_ends (suc n) p i h = elim (pop_ready_grows p) [
    | inl idle ↦ kahn_done (suc n) p idle
    | inr grown ↦ kahn_ends n (pop_ready m p) (pop_ready-Inv m wanted edges p i) (omega arith)
  ]

  module _ (p : Progress) (i : Inv m wanted p) (idle : p.ready ≡ []) where
    all_placed :
        (v : Text)
        → contains_text p.order v ≡ (contains_text wanted v && (degree_of p.remaining v == 0))
    all_placed v =
        ap (λ l. contains_text l v) (sym (append-nil p.order) ∙ ap (λ r. p.order ++ r) (sym idle))
        ∙ i.placed v

    pub order-Distinct : Distinct p.order
    order-Distinct = subst Distinct (ap (λ r. p.order ++ r) idle ∙ append-nil p.order) i.placed_once

    pub order_wanted : (v : Text) → contains_text p.order v ≡ true → contains_text wanted v ≡ true
    order_wanted v h = ground (arith, all_placed v)

    -- A full order holds every wanted unit.
    pub full_order :
        length p.order ≡ length wanted
        → (v : Text) → contains_text wanted v ≡ true
        → contains_text p.order v ≡ true
    full_order same v =
        subset_full p.order wanted v order-Distinct edges.wanted_distinct order_wanted same

    module _ (rank : Text → ℕ)
        (up : (u v : Text) → contains_text (successors_of m u) v ≡ true → rank u < rank v) where
      ranked_placed :
          (k : ℕ) (v : Text)
          → rank v < k
          → contains_text wanted v ≡ true
          → contains_text p.order v ≡ true
      ranked_placed zero v h w = absurd (omega arith)
      ranked_placed (suc k) v h w =
          let clear : preds_left m wanted p.order v ≡ 0 =
            preds_left_done m wanted p.order v
              (λ u uw e. ranked_placed k u (omega (arith, up u v e)) uw) in
          ground (arith, all_placed v, i.counted v, clear)

      -- Edges that go up in some rank leave nothing out.
      pub ranked_full : length p.order ≡ length wanted
      ranked_full = omega (
        arith,
        length-le_of_subset p.order wanted order-Distinct edges.wanted_distinct order_wanted,
        length-le_of_subset wanted p.order edges.wanted_distinct order-Distinct
            (λ v w. ranked_placed (suc (rank v)) v (omega arith) w),
      )
