-- ===== src/Lexer/State.antt =====
-- lexer/lexer.go: the state of the lexer and its cursor. `rest` is `src[pos:]`, so that `peekAt`
-- and `advance` are about its head; the loops over the runes recur on it.
use domainscript.Prelude.{
  ℕ, zero, suc, ◌+◌, Bool, true, false, Option, none, some, List, [], ◌∷◌, ◌++◌, Text, ◌==◌, nat_eq,
  get_or, if◌then◌else◌, ◌>>=◌,
}
use domainscript.Token.{Kind, Pos, Token}
use domainscript.Diag.{error, Diagnostic}

pub record Lexer : Type 0 where
  pub rest : Text
  pub line : ℕ
  pub col : ℕ
  pub toks : List Token
  pub diags : List Diagnostic

abbrev pub here : Lexer → Pos
here l = record { line = l.line; col = l.col }

abbrev pub is_nil : Text → Bool
is_nil [] = true
is_nil (_ ∷ _) = false

abbrev pub at_end : Lexer → Bool
at_end l = is_nil l.rest

-- Out of range it is the rune 0.
abbrev pub peek_at : ℕ → Lexer → ℕ
peek_at off l = get_or l.rest off 0

abbrev pub peek : Lexer → ℕ
peek = peek_at 0

abbrev pub peek2 : Lexer → ℕ
peek2 = peek_at 1

-- The state behind the rune `r`, where `rs` is left.
unfoldable pub consume : ℕ → Text → Lexer → Lexer
consume r rs l =
    if r == b'\n'
    then record l { rest = rs; line = l.line + 1; col = 1 }
    else record l { rest = rs; col = l.col + 1 }

-- `none` is the panic of `l.src[l.pos]` at the end.
unfoldable pub advance_on : Text → Lexer → Option (ℕ × Lexer)
advance_on [] l = none
advance_on (r ∷ rs) l = some (r, consume r rs l)

unfoldable pub advance : Lexer → Option (ℕ × Lexer)
unfolding advance_on
advance l = advance_on l.rest l

unfoldable pub advance_n : ℕ → Lexer → Option Lexer
unfolding advance
advance_n zero l = some l
advance_n (suc n) l = do (_, l') ← advance l; advance_n n l'

-- `takeWhile` gives the lexeme and the state behind it.
unfoldable pub take_while_on : (ℕ → Bool) → Text → Lexer → Text × Lexer
take_while_on pred [] l = ([], l)
take_while_on pred (r ∷ rs) l =
    let more = take_while_on pred rs (consume r rs l) in
    if pred r then (r ∷ more.0, more.1) else ([], l)

unfoldable pub take_while : (ℕ → Bool) → Lexer → Text × Lexer
unfolding take_while_on
take_while pred l = take_while_on pred l.rest l

unfoldable pub emit : Kind → Text → Pos → Lexer → Lexer
emit kind lit pos l = record l {
  toks = l.toks ++ (record { kind = kind; lit = lit; pos = pos } ∷ []);
}

unfoldable pub errorf : Pos → Text → Lexer → Lexer
errorf pos msg l = record l {
  diags = l.diags ++ (record { severity = error; pos = pos; msg = msg; code = [] } ∷ []);
}
