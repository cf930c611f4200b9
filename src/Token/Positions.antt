-- ===== src/Token/Positions.antt =====
-- token/token.go: source positions and their order.
use domainscript.Prelude.{ℕ, Bool, ◌++◌, codes, Text, itoa, ltb, ◌==◌, nat_eq, not, if◌then◌else◌}

pub record Pos : Type 0 where
  pub line : ℕ
  pub col : ℕ

-- `Pos.Less`: by line and, on the same line, by column.
unfoldable pub less : Pos → Pos → Bool
less p q = if not (p.line == q.line) then ltb p.line q.line else ltb p.col q.col

-- `Pos.String`
unfoldable pub pos_string : Pos → Text
pos_string p = itoa p.line ++ (codes ":" ++ itoa p.col)
