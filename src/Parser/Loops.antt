-- ===== src/Parser/Loops.antt =====
-- parser/parse_expr.go and parser/parse_query.go: how the loops of the grammar end.
use domainscript.Prelude.{
  ℕ, zero, suc, ◌<◌, ◌≡◌, refl, true, false, not, ◌&&◌, ◌==◌, nat_eq, text_eq, List, Option, ◌>>=◌,
  if_cases, All, arith, Returns, returns, Returns-bind, Returns-mono, Returns-if,
}
use domainscript.Token.{Kind, kind_eq, eof, ident, colon, comma, rparen, rbrack, lparen, lbrack}
use domainscript.Ast.{Expr}
use domainscript.Parser.Cursor.{Parser, count, peek, at, at_end, accept, expect, match_any}
use domainscript.Parser.Operands.{
  Parse, binary_loop, parse_binary_level, parse_arg_name, arg_loop, parse_arg_list, elem_loop,
  parse_list_literal,
}
use domainscript.Parser.Moves.{
  Moved, Ends, Moved-refl, Moved-trans, advance-Moved, advance_strict, accept-Moved, accept_strict,
  expect-Moved, expect_strict, ensure_progress-Moved, match_any-not_end,
}

-- On fewer than `n` tokens the function returns, further on.
abbrev pub Fits {ℓ} : {A : Type ℓ} → ℕ → (Parser → Option (A × Parser)) → Type ℓ
Fits n f = (p : Parser) → count p.ahead < n → Returns (Ends p) (f p)

-- What comes after a step that has moved.
pub after {ℓ} :
    {A : Type ℓ} {p q : Parser} {o : Option (A × Parser)}
    → Moved p q
    → Returns (Ends q) o
    → Returns (Ends p) o
after m r = Returns-mono r (λ x k. Moved-trans m k)

-- The call of a function that fits, and what comes after it.
pub then_after {ℓ κ} :
    {A : Type ℓ} {B : Type κ} {n : ℕ} {f : Parser → Option (A × Parser)} {p : Parser}
    {k : A × Parser → Option (B × Parser)}
    → Fits n f
    → count p.ahead < n
    → ((x : A × Parser) → Moved p x.1 → Returns (Ends x.1) (k x))
    → Returns (Ends p) (f p >>= k)
then_after {p = p} fits h g = Returns-bind (fits p h) (λ x m. after m (g x m))

abbrev pub NoEof : List Kind → Type 0
NoEof = All (λ k. (k == eof) ≡ false)

module _ (n : ℕ) (next : Parse Expr) (next-Fits : Fits n next) (ops : List Kind)
    (no_eof : NoEof ops) where
  binary_loop-Ends :
      (f : ℕ) (left : Expr) (p : Parser)
      → count p.ahead < n
      → count p.ahead < f
      → Returns (Ends p) (binary_loop f next ops left p)
  unfolding binary_loop
  binary_loop-Ends zero left p h k = absurd (omega arith)
  binary_loop-Ends (suc f) left p h k =
      Returns-if (match_any ops p)
        (λ e.
          let less = advance_strict p (match_any-not_end ops p no_eof e) in
          after (advance-Moved p) (
            then_after next-Fits (omega (arith, less)) λ x m.
              binary_loop-Ends f _ x.1 (omega (arith, less, m.left)) (omega (arith, less, m.left))))
        (λ e. returns (Moved-refl p))

  pub parse_binary_level-Fits : Fits n (parse_binary_level next ops)
  unfolding parse_binary_level
  parse_binary_level-Fits p h =
      then_after next-Fits h λ x m.
        binary_loop-Ends (suc (count x.1.ahead)) x.0 x.1 (omega (arith, m.left)) (omega arith)

parse_arg_name-Moved : (p : Parser) → Moved p (parse_arg_name p).1
unfolding parse_arg_name
parse_arg_name-Moved p =
    if_cases (Ends p) (at ident p && (peek p).kind == colon)
      (λ h. Moved-trans (advance-Moved p) (advance-Moved _)) (λ h. Moved-refl p)

module _ (n : ℕ) (parse_expr parse_or parse_postfix parse_unary : Parse Expr)
    (expr : Fits n parse_expr) (or' : Fits n parse_or) (postfix : Fits n parse_postfix) where
  arg_loop-Ends :
      (f : ℕ) (p : Parser)
      → count p.ahead < n
      → count p.ahead < f
      → Returns (Ends p) (arg_loop parse_expr parse_or parse_postfix parse_unary f p)
  unfolding arg_loop
  arg_loop-Ends zero p h k = absurd (omega arith)
  arg_loop-Ends (suc f) p h k =
      let named = parse_arg_name-Moved p in
      Returns-if (not (at rparen p) && not (at_end p))
        (λ e. after named (
          then_after expr (omega (arith, named.left)) λ x m.
            let q = accept-Moved comma x.1 in
            let r = ensure_progress-Moved p.pos (accept comma x.1).1 in
            Returns-if (accept comma x.1).0
              (λ c.
                let less = accept_strict comma x.1 refl c in
                after (Moved-trans q r) (
                  Returns-bind
                    (arg_loop-Ends f _ (omega (arith, named.left, m.left, less, r.left))
                      (omega (arith, named.left, m.left, less, r.left)))
                    λ y w. returns w))
              (λ c. returns q)))
        (λ e. returns (Moved-refl p))

  -- Behind the parenthesis, so that fewer tokens are left.
  pub parse_arg_list-Ends :
      (p : Parser)
      → count p.ahead < suc n
      → at lparen p ≡ true
      → Returns
          (Ends (expect lparen p).1)
          (parse_arg_list parse_expr parse_or parse_postfix parse_unary p)
  unfolding parse_arg_list
  parse_arg_list-Ends p h e =
      let less = expect_strict lparen p refl e in
      Returns-bind
        (arg_loop-Ends (suc (count (expect lparen p).1.ahead)) _ (omega (arith, less))
          (omega arith))
        λ x m. returns (Moved-trans m (expect-Moved rparen x.1))

  elem_loop-Ends :
      (f : ℕ) (p : Parser)
      → count p.ahead < n
      → count p.ahead < f
      → Returns (Ends p) (elem_loop parse_expr parse_or parse_postfix parse_unary f p)
  unfolding elem_loop
  elem_loop-Ends zero p h k = absurd (omega arith)
  elem_loop-Ends (suc f) p h k =
      Returns-if (not (at rbrack p) && not (at_end p))
        (λ e. then_after expr h λ x m.
          let q = accept-Moved comma x.1 in
          let r = ensure_progress-Moved p.pos (accept comma x.1).1 in
          Returns-if (accept comma x.1).0
            (λ c.
              let less = accept_strict comma x.1 refl c in
              after (Moved-trans q r) (
                Returns-bind
                  (elem_loop-Ends f _ (omega (arith, m.left, less, r.left))
                    (omega (arith, m.left, less, r.left)))
                  λ y w. returns w))
            (λ c. returns q))
        (λ e. returns (Moved-refl p))

  pub parse_list_literal-Ends :
      (p : Parser)
      → count p.ahead < suc n
      → at lbrack p ≡ true
      → Returns (Ends p) (parse_list_literal parse_expr parse_or parse_postfix parse_unary p)
  unfolding parse_list_literal
  parse_list_literal-Ends p h e =
      let less = expect_strict lbrack p refl e in
      after (expect-Moved lbrack p) (
        Returns-bind
          (elem_loop-Ends (suc (count (expect lbrack p).1.ahead)) _ (omega (arith, less))
            (omega arith))
          λ x m. returns (Moved-trans m (expect-Moved rbrack x.1)))

  -- Wherever it is called, the bracket there or not.
  pub parse_list_literal-Fits :
      Fits n (parse_list_literal parse_expr parse_or parse_postfix parse_unary)
  unfolding parse_list_literal
  parse_list_literal-Fits p h =
      let o = expect-Moved lbrack p in
      after o (
        Returns-bind
          (elem_loop-Ends (suc (count (expect lbrack p).1.ahead)) _ (omega (arith, o.left))
            (omega arith))
          λ x m. returns (Moved-trans m (expect-Moved rbrack x.1)))
