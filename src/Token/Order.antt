-- ===== src/Token/Order.antt =====
-- token/token.go: the laws of `Pos.Less`.
use domainscript.Prelude.{◌≡◌, true, false, arith}
use domainscript.Token.Positions.{Pos, less}

pub less_irrefl : (p : Pos) → less p p ≡ false
unfolding less
less_irrefl p = ground arith

pub less_trans : (p q r : Pos) → less p q ≡ true → less q r ≡ true → less p r ≡ true
unfolding less
less_trans p q r h k = ground arith

pub less_total : (p q : Pos) → less p q ≡ false → less q p ≡ false → p ≡ q
unfolding less
less_total p q h k = ground arith

-- Two positions are never before one another.
pub less_asymm : (p q : Pos) → less p q ≡ true → less q p ≡ false
unfolding less
less_asymm p q h = ground arith

-- "Not before" is transitive too, as a sort needs.
pub not_less_trans : (p q r : Pos) → less q p ≡ false → less r q ≡ false → less r p ≡ false
unfolding less
not_less_trans p q r h k = ground arith

-- `Pos.Less` is a strict total order on positions: it is irreflexive and transitive, and two
-- positions neither of which is before the other are equal.
pub less_strict_total :
    (p q r : Pos)
    → (less p p ≡ false)
      × (less p q ≡ true → less q r ≡ true → less p r ≡ true)
      × (less p q ≡ false → less q p ≡ false → p ≡ q)
less_strict_total p q r = (less_irrefl p, less_trans p q r, less_total p q)
