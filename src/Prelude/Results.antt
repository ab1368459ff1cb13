-- ===== src/Prelude/Results.antt =====
-- Fallible code with no effects: `Result<T, E>` and the `?` operator.
use mathlib.Core.Path.{◌≡◌, refl}
use mathlib.Core.Option.{Option, none, some}
use mathlib.Core.Bool.{Bool, true, false}
use aff4tools.Prelude.Tests.{if◌then◌else◌}

pub data Result {ℓ κ} (E : Type κ) (A : Type ℓ) : Type (ℓ ⊔ κ) where
  err : (why : E) → Result E A
  ok : (value : A) → Result E A

-- `result?` and what follows it.
infixl 10 ◌>>=◌
abbrev pub ◌>>=◌ {κ ℓ ι} :
    {Why : Type κ} {From : Type ℓ} {To : Type ι}
    → Result Why From
    → (From → Result Why To)
    → Result Why To
err why >>= next = err why
ok value >>= next = next value

-- A chain that succeeds went through a value of its first step.
pub >>=-eq-ok {κ ℓ ι} :
    {Why : Type κ} {From : Type ℓ} {To : Type ι} (first : Result Why From)
    (next : From → Result Why To) {last : To}
    → (first >>= next) ≡ ok last
    → (value : From) × (first ≡ ok value) × (next value ≡ ok last)
>>=-eq-ok (err why) next e = cc
>>=-eq-ok (ok value) next e = (value, refl, e)

module _ {κ ℓ} {E : Type κ} {A : Type ℓ} where
  -- `option.ok_or_else(|| e)`
  abbrev pub ok_or : Option A → E → Result E A
  ok_or none e = err e
  ok_or (some a) e = ok a

  pub ok-injective : {a b : A} → ◌≡◌ {A = Result E A} (ok a) (ok b) → a ≡ b
  ok-injective h = cc

  -- Behind a guard that an early return stands on.
  pub else-eq-ok :
      (b : Bool) (e : E) (r : Result E A) {a : A}
      → (if b then err e else r) ≡ ok a
      → (b ≡ false) × (r ≡ ok a)
  else-eq-ok true e r h = cc
  else-eq-ok false e r h = (refl, h)
