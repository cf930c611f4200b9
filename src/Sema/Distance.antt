-- ===== src/Sema/Distance.antt =====
-- sema/rules_typecheck.go: the distance of two names, row by row.
pub mod Minimal
use domainscript.Prelude.{
  ℕ, zero, suc, ◌+◌, ◌/◌, ◌≤◌, Bool, true, false, ◌&&◌, ◌||◌, List, [], ◌∷◌, Text, ltb, leb, ◌==◌,
  nat_eq, text_eq, length, if◌then◌else◌,
}
use domainscript.Symbols.{insert_name}

unfoldable pub min3 : ℕ → ℕ → ℕ → ℕ
min3 a b c = let a' = if ltb b a then b else a in if ltb c a' then c else a'

abbrev pub cost : ℕ → ℕ → ℕ
cost x y = if x == y then 0 else 1

-- The row `0, 1, ..., len(rb)`, from `k` on.
unfoldable pub first_row : ℕ → Text → List ℕ
first_row k [] = k ∷ []
first_row k (y ∷ ys) = k ∷ first_row (suc k) ys

-- The cells of `cur` behind the one of which `left` is the value; `prev` is read from the cell above
-- that one on, and always reaches as far as `ys`.
unfoldable pub fill : ℕ → ℕ → List ℕ → Text → List ℕ
unfolding min3
fill x left (diagonal ∷ up ∷ ups) (y ∷ ys) =
    let cell = min3 (up + 1) (left + 1) (diagonal + cost x y) in cell ∷ fill x cell (up ∷ ups) ys
fill x left _ _ = []

-- The loop over the runes of `a`.
unfoldable pub rows : ℕ → List ℕ → Text → Text → List ℕ
unfolding fill
rows i prev [] rb = prev
rows i prev (x ∷ xs) rb = rows (suc i) (i ∷ fill x i prev rb) xs rb

-- `prev[len(rb)]`, the last cell.
abbrev pub last_cell : List ℕ → ℕ
last_cell [] = 0
last_cell (c ∷ []) = c
last_cell (c ∷ d ∷ ds) = last_cell (d ∷ ds)

unfoldable pub levenshtein : Text → Text → ℕ
unfolding first_row rows
levenshtein a b = last_cell (rows 1 (first_row 0 b) a b)
