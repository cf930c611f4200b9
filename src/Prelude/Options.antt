-- ===== src/Prelude/Options.antt =====
-- Calls that may fail: `none` is a Go panic, or fuel that has run out. `Returns P m` says that the
-- call `m` gives a value, and that the value satisfies `P`.
use mathlib.Core.Path.{◌≡◌, refl}
use mathlib.Core.Bool.{Bool, true, false}
use mathlib.Core.Option.{Option, none, some}
use domainscript.Prelude.Tests.{if◌then◌else◌}

infixl 5 ◌>>=◌
abbrev pub ◌>>=◌ {ℓ κ} : {A : Type ℓ} {B : Type κ} → Option A → (A → Option B) → Option B
none >>= f = none
some a >>= f = f a

pub data Returns {ℓ κ} {A : Type ℓ} (P : A → Type κ) : Option A → Type (ℓ ⊔ κ) where
  returns : {a : A} → P a → Returns P (some a)

module _ {ℓ κ} {A : Type ℓ} {P : A → Type κ} where
  pub Returns-bind {ℓ' κ'} :
      {B : Type ℓ'} {Q : B → Type κ'} {m : Option A} {f : A → Option B}
      → Returns P m
      → ((a : A) → P a → Returns Q (f a))
      → Returns Q (m >>= f)
  Returns-bind (returns {a} h) k = k a h

  pub Returns-mono {κ'} :
      {Q : A → Type κ'} {m : Option A} → Returns P m → ((a : A) → P a → Q a) → Returns Q m
  Returns-mono (returns {a} h) k = returns (k a h)

  pub Returns-if :
      (c : Bool) {x y : Option A}
      → (c ≡ true → Returns P x)
      → (c ≡ false → Returns P y)
      → Returns P (if c then x else y)
  Returns-if true f g = f refl
  Returns-if false f g = g refl

  -- The value itself.
  pub Returns-value : {m : Option A} → Returns P m → (a : A) × (m ≡ some a) × P a
  Returns-value (returns {a} h) = (a, refl, h)

  -- What holds of the value that is there.
  pub Returns-some : {a : A} → Returns P (some a) → P a
  Returns-some (returns h) = h

-- Two facts of one value.
pub Returns-both {ℓ κ κ'} :
    {A : Type ℓ} {P : A → Type κ} {Q : A → Type κ'} {m : Option A}
    → Returns P m
    → Returns Q m
    → Returns (λ a. P a × Q a) m
Returns-both (returns {a} h) k = returns (h, Returns-some k)
