-- ===== src/Prelude/Decimal.antt =====
-- Decimal prints of numbers can be read back, alone and in front of a separator.
use Prim.Native.Nat.{ℕ, zero, suc, ◌+◌, ◌-◌, ◌*◌, ◌/◌, ◌%◌, ◌<◌, ◌≤◌}
use mathlib.Core.Path.{◌≡◌, sym, ap, ◌∙◌}
use mathlib.Core.Logic.{inl, inr}
use mathlib.Core.List.{[], ◌∷◌, ◌++◌}
use native.Mathlib.Omega.{arith}
use domainscript.Prelude.Tests.{ltb, Bool-cases}
use domainscript.Prelude.Lists.{All}
use domainscript.Prelude.Texts.{Text, itoa, decimal_onto}

-- The number that a run of digits stands for, after `v`.
value_from : ℕ → Text → ℕ
value_from v [] = v
value_from v (c ∷ cs) = value_from (v * 10 + (c - b'0')) cs

value_from-decimal_onto :
    (f n : ℕ) (acc : Text) → n < f → value_from 0 (decimal_onto f n acc) ≡ value_from n acc
unfolding value_from decimal_onto
value_from-decimal_onto zero n acc h = absurd (omega arith)
value_from-decimal_onto (suc f) n acc h = elim (Bool-cases (ltb n 10)) [
  | inl small ↦ rw small (ap (λ v. value_from v acc) (omega arith))
  | inr large ↦ rw large (
      value_from-decimal_onto f (n / 10) ((b'0' + n % 10) ∷ acc) (ground arith)
      ∙ ap (λ v. value_from v acc) (omega arith))
]

pub itoa-injective : (m n : ℕ) → itoa m ≡ itoa n → m ≡ n
unfolding itoa value_from
itoa-injective m n h =
    sym (value_from-decimal_onto (suc m) m [] (omega arith))
    ∙ ap (value_from 0) h
    ∙ value_from-decimal_onto (suc n) n [] (omega arith)

abbrev IsDigit : ℕ → Type 0
IsDigit c = (b'0' ≤ c) × (c ≤ b'9')

decimal_onto-All : (f n : ℕ) (acc : Text) → All IsDigit acc → All IsDigit (decimal_onto f n acc)
unfolding decimal_onto
decimal_onto-All zero n acc h = h
decimal_onto-All (suc f) n acc h = elim (Bool-cases (ltb n 10)) [
  | inl small ↦ rw small (ground arith, h)
  | inr large ↦ rw large (decimal_onto-All f (n / 10) ((b'0' + n % 10) ∷ acc) (omega arith, h))
]

itoa-All : (n : ℕ) → All IsDigit (itoa n)
unfolding itoa
itoa-All n = decimal_onto-All (suc n) n [] tt

-- Digits up to a separator that is no digit are cut off in one way only.
split_unique :
    (c : ℕ) (s t x y : Text)
    → b'9' < c
    → All IsDigit s
    → All IsDigit t
    → s ++ (c ∷ x) ≡ t ++ (c ∷ y)
    → (s ≡ t) × (x ≡ y)
split_unique c [] [] x y l p q h = ground arith
split_unique c [] (b ∷ t) x y l p q h = ground arith
split_unique c (a ∷ s) [] x y l p q h = ground arith
split_unique c (a ∷ s) (b ∷ t) x y l p q h = ground (arith, split_unique c s t x y l p.1 q.1)

pub itoa_split :
    (c m n : ℕ) (x y : Text) → b'9' < c → itoa m ++ (c ∷ x) ≡ itoa n ++ (c ∷ y) → (m ≡ n) × (x ≡ y)
itoa_split c m n x y l h =
    let (same, rest) = split_unique c (itoa m) (itoa n) x y l (itoa-All m) (itoa-All n) h in
    (itoa-injective m n same, rest)
