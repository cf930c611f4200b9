-- ===== src/Lexer/One.antt =====
-- lexer/lexer.go: one token, or one invalid rune.
use domainscript.Prelude.{
  ◌&&◌, get_or, ℕ, ◌≡◌, Text, [], false, ◌==◌, nat_eq, ◌<◌, inl, inr, sym, ap, ◌∙◌, Bool, ◌∷◌,
  length, arith, if◌then◌else◌, some, Returns, returns, Returns-bind, Returns-if,
}
use domainscript.Token.{Pos}
use domainscript.Lexer.State.{Lexer, peek}
use domainscript.Lexer.Scan.{Unicode, is_digit, is_ident_start, invalid_rune, lex_invalid, lex_one}
use domainscript.Lexer.Lexemes.{Invalid, operator_runes}
use domainscript.Lexer.Moves.{Scanned, advance-TakesOne, errorf-Quiet, errorf-rest, consumed_text}
use domainscript.Lexer.Tokens.{
  NotAmong, NoNeq, Tried, lex_operator-Tried, lex_ident_or_keyword-Scanned,
}
use domainscript.Lexer.Literals.{lex_number-Scanned, lex_string-Scanned}

-- What stands behind the first rune.
abbrev behind_head : Text → Text
behind_head [] = []
behind_head (r ∷ rs) = rs

second_rune : (s : Text) (P : ℕ → Type 0) → P (get_or s 1 0) → P (get_or (behind_head s) 0 0)
second_rune [] P h = h
second_rune (r ∷ rs) P h = h

module _ (u : Unicode) (start : Pos) (l : Lexer) (more : 0 < length l.rest) where
  lex_invalid-Scanned :
      Invalid u (behind_head l.rest) (peek l) → Returns (Scanned u start l) (lex_invalid u start l)
  unfolding lex_invalid
  lex_invalid-Scanned bad = Returns-bind (advance-TakesOne l more) λ (x, l') t.
      let q = errorf-Quiet start (invalid_rune u x) t.0 in
      returns (record {
        consumed = q.consumed;
        splits = q.splits;
        walked = q.walked;
        progress = omega (arith, t.1);
        emits = inl (
          q.kept,
          x,
          consumed_text q (x ∷ [])
              (t.2 ∙ ap (◌∷◌ x) (sym (errorf-rest start (invalid_rune u x) l'))),
          rw t.2 at bad,
        );
      })

  after_operator :
      (known : Bool) (l' : Lexer)
      → (NotAmong l operator_runes → NoNeq l → Invalid u (behind_head l.rest) (peek l))
      → Tried u start l (known, l')
      → Returns (Scanned u start l) (if known then some l' else lex_invalid u start l')
  after_operator known l' f (inl (k, s)) = rw k (returns s)
  after_operator known l' f (inr (k, e, n, m)) = rw (k, e) (lex_invalid-Scanned (f n m))

  pub lex_one-Scanned : Returns (Scanned u start l) (lex_one u start l)
  unfolding lex_one
  lex_one-Scanned =
      Returns-if (is_ident_start u (peek l))
        (λ h. returns (lex_ident_or_keyword-Scanned u start l h more))
        λ no_ident.
          Returns-if (is_digit (peek l)) (λ h. lex_number-Scanned u start l h more)
            λ no_digit.
              Returns-if (peek l == b'"') (λ h. lex_string-Scanned u start l h more)
                λ no_quote. Returns-bind (lex_operator-Tried u start l more) λ (known, l') t.
                  after_operator known l'
                    (λ n m. record {
                      no_ident = no_ident;
                      no_digit = no_digit;
                      no_quote = no_quote;
                      no_operator = n;
                      no_neq = second_rune l.rest (λ r. (peek l == b'!' && r == b'=') ≡ false) m;
                    })
                    t
