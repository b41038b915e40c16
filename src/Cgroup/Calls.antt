-- ===== src/Cgroup/Calls.antt =====
-- What crates/oxinit-cgroup/src/lib.rs asks of the file system, in the order in which it asks. The
-- answers are a parameter, a `Kernel`: each may depend on all that was done before.
use oxinit.Prelude.{List, ℕ, Outcome, ok, err}
use oxinit.Text.{Text}

-- An attempt to change the file system, whether it succeeds or not.
pub data Op : Type 0 where
  make_dir : (path : Text) → Op
  write_file : (path value : Text) → Op

-- `io::Error`, of which only one kind is told apart.
pub data IoError : Type 0 where
  already_exists : IoError
  other : (code : ℕ) → IoError

pub record Kernel : Type 0 where
  pub read_to_string : List Op → Text → Outcome IoError Text
  pub create_dir : List Op → Text → Outcome IoError (Unit {0})
  pub open_and_write : List Op → Text → Text → Outcome IoError (Unit {0})

-- A call that may fail, in the midst of what was done before it.
abbrev pub M {ℓ κ} : Type ℓ → Type κ → Type (ℓ ⊔ κ)
M E A = List Op → Outcome E A × List Op

abbrev then_do {ℓ κ μ} :
    {E : Type ℓ} {A : Type κ} {B : Type μ}
    → (A → M E B)
    → Outcome E A × List Op
    → Outcome E B × List Op
then_do next (ok a, done) = next a done
then_do next (err e, done) = (err e, done)

infixl 5 ◌>>=◌ ◌>>◌
abbrev pub ◌>>=◌ {ℓ κ μ} : {E : Type ℓ} {A : Type κ} {B : Type μ} → M E A → (A → M E B) → M E B
◌>>=◌ m next done = then_do next (m done)

abbrev pub ◌>>◌ {ℓ κ} : {E : Type ℓ} {B : Type κ} → M E (Unit {0}) → M E B → M E B
m >> k = m >>= λ _. k

abbrev pub pure {ℓ κ} : {E : Type ℓ} {A : Type κ} → A → M E A
pure a done = (ok a, done)
