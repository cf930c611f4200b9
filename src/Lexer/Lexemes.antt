-- ===== src/Lexer/Lexemes.antt =====
-- lexer/lexer.go: how the tokens of a source lie in it: what stands between two of them, and the text
-- that each of them is read from.
use domainscript.Prelude.{
  ℕ, ◌+◌, ◌≡◌, ◌⊎◌, Bool, true, false, ◌&&◌, List, [], ◌∷◌, ◌++◌, Text, codes, ◌==◌, nat_eq, get_or,
  All, if◌then◌else◌,
}
use domainscript.Token.{Pos, Token, kinds, is_literal, kind_eq, string, eof}
use domainscript.Lexer.Scan.{Unicode, is_blank, is_digit, is_ident_start}

-- The position behind one rune, and behind a text.
abbrev pub step_pos : ℕ → Pos → Pos
step_pos r p =
    if r == b'\n' then record { line = p.line + 1; col = 1 } else record p { col = p.col + 1 }

abbrev pub walk : Text → Pos → Pos
walk [] p = p
walk (r ∷ rs) p = walk rs (step_pos r p)

-- Where a source begins.
abbrev pub origin : Pos
origin = record { line = 1; col = 1 }

-- The text that a token is read from: its own literal; or the fixed spelling of an operator or a
-- keyword, which has no literal; or what opens with a quote, of a string.
abbrev pub Spells : Token → Text → Type 0
Spells t s =
    ((is_literal t.kind ≡ true) × ((t.kind == string) ≡ false) × (s ≡ t.lit))
    ⊎ (((t.lit ≡ []) × (s ≡ kinds t.kind)) ⊎ ((t.kind ≡ string) × (c : Text) × (s ≡ b'"' ∷ c)))

-- The runes that an operator begins with, but for `!`, which is none alone.
abbrev pub operator_runes : Text
operator_runes = codes "{}()[],.:+*/-=<>"

-- A rune that, in front of the text `after`, begins no token.
pub record Invalid (u : Unicode) (after : Text) (r : ℕ) : Type 0 where
  pub no_ident : is_ident_start u r ≡ false
  pub no_digit : is_digit r ≡ false
  pub no_quote : (r == b'"') ≡ false
  pub no_operator : All (λ s. (r == s) ≡ false) operator_runes
  pub no_neq : (r == b'!' && get_or after 0 0 == b'=') ≡ false

abbrev pub NoBreak : Text → Type 0
NoBreak = All (λ r. (r == b'\n') ≡ false)

-- At the end of a line, or of the source.
abbrev pub LineEnds : Text → Type 0
LineEnds [] = Unit
LineEnds (r ∷ rs) = (r == b'\n') ≡ true

abbrev pub opens_comment : Text → Bool
opens_comment s = get_or s 0 0 == b'/' && get_or s 1 0 == b'/'

-- What stands between two tokens, in front of the text `post`: blanks, comments up to the end of
-- their line, and invalid runes.
pub data Gap (u : Unicode) (post : Text) : Text → Type 0 where
  nothing : Gap u post []
  blank : (r : ℕ) (s : Text) → is_blank r ≡ true → Gap u post s → Gap u post (r ∷ s)
  comment :
      (c s : Text)
      → opens_comment (c ++ (s ++ post)) ≡ true
      → NoBreak c
      → LineEnds (s ++ post)
      → Gap u post s
      → Gap u post (c ++ s)
  invalid : (r : ℕ) (s : Text) → Invalid u (s ++ post) r → Gap u post s → Gap u post (r ∷ s)

-- The tokens lie in the text from the position `p` on: each where its own text begins, with gaps
-- between them, and the EOF where the text ends.
pub data Laid (u : Unicode) : Pos → Text → List Token → Type 0 where
  ending :
      (p : Pos) (gap : Text)
      → Gap u [] gap
      → Laid u p gap (record { kind = eof; lit = []; pos = walk gap p } ∷ [])
  token :
      (p : Pos) (gap lexeme rest : Text) (t : Token) (ts : List Token)
      → Gap u (lexeme ++ rest) gap
      → t.pos ≡ walk gap p
      → Spells t lexeme
      → Laid u (walk lexeme (walk gap p)) rest ts
      → Laid u p (gap ++ (lexeme ++ rest)) (t ∷ ts)
