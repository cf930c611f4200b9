-- ===== src/Prelude/Maps.antt =====
-- Go's maps as association lists. Where the order of iteration could show, the list is in that
-- order.
use mathlib.Core.Path.{◌≡◌, refl}
use mathlib.Core.Option.{Option, none, some}
use mathlib.Core.List.{List, [], ◌∷◌}
use native.Mathlib.Omega.{arith}
use domainscript.Prelude.Tests.{Eq, ◌==◌, if◌then◌else◌}

abbrev pub Map {ℓ κ} : Type ℓ → Type κ → Type (ℓ ⊔ κ)
Map K V = List (K × V)

module _ {ℓ κ} {K : Type ℓ} {V : Type κ} ⦃test : Eq K⦄ where
  -- `v, ok := m[name]`
  abbrev pub lookup : (name : K) (m : Map K V) → Option V
  lookup name ((other, v) ∷ rest) = if other == name then some v else lookup name rest
  lookup name [] = none

  -- `m[name] = new`
  abbrev pub insert : (name : K) (new : V) (m : Map K V) → Map K V
  insert name new ((other, old) ∷ rest) =
      if other == name then (name, new) ∷ rest else (other, old) ∷ insert name new rest
  insert name new [] = (name, new) ∷ []

  pub lookup-insert :
      (name asked : K) (new : V) (m : Map K V)
      → lookup asked (insert name new m) ≡ (if name == asked then some new else lookup asked m)
  lookup-insert name asked new [] = refl
  lookup-insert name asked new ((other, old) ∷ rest) = ground (
    arith,
    test.beq_iff name asked,
    test.beq_iff other name,
    test.beq_iff other asked,
    lookup-insert name asked new rest,
  )
