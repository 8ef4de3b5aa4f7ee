-- ===== src/Base/Run.antt =====
-- What a run of C code gives: a value, or the reason why it does not return.
use mathlib.Core.Path.{◌≡◌, refl}
use Prim.Native.Nat.{ℕ}

-- `fault` is an access through a null or dangling pointer, or outside an array, or another
-- behaviour that C does not define; `overrun` is a write behind the end of a buffer of text;
-- `abort` is a call of abort() or a failed assert; `exit` a call of exit(); `no_fuel` a loop cut
-- off by its bound.
pub data Stop : Type 0 where
  fault overrun abort no_fuel : Stop
  exit : ℕ → Stop

pub data Outcome {ℓ} (A : Type ℓ) : Type ℓ where
  ok : A → Outcome A
  err : Stop → Outcome A

infixl 5 ◌>>=◌ ◌>>◌
abbrev pub ◌>>=◌ {ℓ κ} : {A : Type ℓ} {B : Type κ} → Outcome A → (A → Outcome B) → Outcome B
ok a >>= f = f a
err e >>= f = err e

abbrev pub ◌>>◌ {ℓ} : {B : Type ℓ} → Outcome (Unit {0}) → Outcome B → Outcome B
m >> k = m >>= λ _. k

-- A run returns, and its result meets `P`.
pub data Returns {ℓ κ} {A : Type ℓ} (P : A → Type κ) : Outcome A → Type (ℓ ⊔ κ) where
  returns : {a : A} → P a → Returns P (ok a)

module _ {ℓ κ} {A : Type ℓ} {P : A → Type κ} where
  pub Returns-bind {λ₁ μ} :
      {B : Type λ₁} {Q : B → Type μ} {r : Outcome A} {k : A → Outcome B}
      → Returns P r
      → ((a : A) → P a → Returns Q (k a))
      → Returns Q (r >>= k)
  Returns-bind (returns p) next = next _ p

  pub Returns-mono {μ} :
      {Q : A → Type μ} {r : Outcome A} → Returns P r → ((a : A) → P a → Q a) → Returns Q r
  Returns-mono (returns p) weaken = returns (weaken _ p)

  -- The result itself, with the equation that says so.
  pub Returns-get : {r : Outcome A} → Returns P r → (a : A) × (r ≡ ok a) × P a
  Returns-get (returns {a} p) = (a, refl, p)
