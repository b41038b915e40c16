-- ===== src/Prelude/Results.antt =====
-- Rust's `Result<A, E>`, with `?` as a bind.
use mathlib.Core.Path.{◌≡◌, refl}
use mathlib.Core.Logic.{◌⊎◌, inl, inr}
use mathlib.Core.Option.{Option, none, some}
use native.Mathlib.Omega.{arith}

module _ {ℓ κ} where
  pub data Outcome (E : Type ℓ) (A : Type κ) : Type (ℓ ⊔ κ) where
    err : (error : E) → Outcome E A
    ok : (value : A) → Outcome E A

-- `?` and what follows it.
infixl 5 ◌>>=◌
abbrev pub ◌>>=◌ {ℓ κ μ} :
    {Error : Type ℓ} {Here : Type κ} {Next : Type μ}
    → Outcome Error Here
    → (Here → Outcome Error Next)
    → Outcome Error Next
err error >>= next = err error
ok value >>= next = next value

-- `Option::ok_or`.
abbrev pub ok_or {ℓ κ} : {E : Type ℓ} {A : Type κ} → E → Option A → Outcome E A
ok_or e none = err e
ok_or e (some a) = ok a

-- A chain that succeeds did so at each of its steps.
pub >>=-eq-ok {ℓ κ μ} :
    {Error : Type ℓ} {Here : Type κ} {Next : Type μ} (first : Outcome Error Here)
    (next : Here → Outcome Error Next) {last : Next}
    → (first >>= next) ≡ ok last
    → (middle : Here) × (first ≡ ok middle) × (next middle ≡ ok last)
>>=-eq-ok (err error) next h = ground arith
>>=-eq-ok (ok value) next h = (value, refl, h)

pub Outcome-cases {ℓ κ} :
    {E : Type ℓ} {A : Type κ} (o : Outcome E A) → ((a : A) × (o ≡ ok a)) ⊎ ((e : E) × (o ≡ err e))
Outcome-cases (ok a) = inl (a, refl)
Outcome-cases (err e) = inr (e, refl)
