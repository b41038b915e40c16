-- ===== src/Unit/Equality.antt =====
-- The derived `PartialEq` of the units of crates/oxinit-unit/src/unit.rs, as decisions.
use oxinit.Prelude.{◌≡◌, ◌↔◌, refl, Bool, true, false, arith}
use native.Mathlib.Decide.{ℕ_discrete}
use oxinit.Unit.{UnitDef}

pub UnitDef-discrete : Discrete UnitDef
UnitDef-discrete = hlevel ℕ_discrete

-- The Boolean of a decision.
abbrev decided {ℓ} : {A : Type ℓ} → Dec A → Bool
decided (yes e) = true
decided (no n) = false

decided_iff {ℓ} : {A : Type ℓ} (d : Dec A) → (decided d ≡ true) ↔ A
decided_iff (yes a) = (λ e. a, λ b. refl)
decided_iff (no n) = (λ e. absurd (ground arith), λ a. absurd (n a))

unfoldable pub same_unit : UnitDef → UnitDef → Bool
same_unit a b = decided (UnitDef-discrete a b)

pub same_unit_iff : (a b : UnitDef) → (same_unit a b ≡ true) ↔ (a ≡ b)
unfolding same_unit
same_unit_iff a b = decided_iff (UnitDef-discrete a b)
