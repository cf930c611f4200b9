-- ===== src/Parser/Sequence/Reads.antt =====
-- parser/: that a function of the parser returns, further on, by the way it is put together.
use domainscript.Prelude.{
  ℕ, zero, suc, ◌<◌, refl, Bool, true, false, not, ◌&&◌, String, List, if◌then◌else◌, arith,
  Returns, returns, Returns-bind, Returns-if,
}
use domainscript.Token.{Kind, Pos, kind_eq, comma}
use domainscript.Parser.Cursor.{Parser, count, at, at_end, accept, expect, parse_ident_name}
use domainscript.Parser.Operands.{Parse}
use domainscript.Parser.Expressions.{parse_expr, parse_postfix}
use domainscript.Parser.Statements.{parse_stmt}
use domainscript.Parser.Moves.{
  Moved, Ends, Moved-refl, Moved-trans, advance-Moved, errorf-Moved, accept-Moved, accept_strict,
  expect-Moved, ensure_progress-Moved, ensure_progress_strict, parse_ident_name-Moved,
}
use domainscript.Parser.Loops.{Fits, after}
use domainscript.Parser.Termination.{parse_expr-Ends, parse_postfix-Ends}
use domainscript.Parser.Blocks.{parse_stmt-Ends}
use domainscript.Parser.Sequence.{
  pure, run, gets, ◌⟶◌∣◌, ◌>>=◌, mark, close_span, skip, take_lit, take_kind, complain, skip_word,
  unexpected_member, loop, members, braces, comma_loop, comma_list, collect,
}

-- On fewer than `n` tokens `m` returns, with the cursor further on or at the same place.
pub record Reads {A : Type 0} (n : ℕ) (m : Parse A) : Type 0 where
  pub fits : Fits n m

module _ {A : Type 0} {n : ℕ} where
  pub Reads-pure : (a : A) → Reads n (pure a)
  unfolding pure
  Reads-pure a = record { fits = λ p h. returns (Moved-refl p) }

  pub Reads-gets : (f : Parser → A) → Reads n (gets f)
  unfolding gets
  Reads-gets f = record { fits = λ p h. returns (Moved-refl p) }

  pub Reads-run : (f : Parser → A × Parser) → ((p : Parser) → Moved p (f p).1) → Reads n (run f)
  unfolding run
  Reads-run f m = record { fits = λ p h. returns (m p) }

  pub Reads-case : (c : Parser → Bool) (x y : Parse A) → Reads n x → Reads n y → Reads n (c ⟶ x ∣ y)
  unfolding ◌⟶◌∣◌
  Reads-case c x y rx ry = record {
    fits = λ p h. Returns-if (c p) (λ _. rx.fits p h) (λ _. ry.fits p h);
  }

pub Reads-if :
    {A : Type 0} {n : ℕ} (b : Bool) (x y : Parse A)
    → Reads n x
    → Reads n y
    → Reads n (if b then x else y)
Reads-if true x y rx ry = rx
Reads-if false x y rx ry = ry

pub Reads-bind :
    {A B : Type 0} {n : ℕ} (m : Parse A) (f : A → Parse B)
    → Reads n m
    → ((a : A) → Reads n (f a))
    → Reads n (m >>= f)
unfolding ◌>>=◌
Reads-bind m f rm rf = record {
  fits =
      λ p h. Returns-bind (rm.fits p h) λ x k. after k ((rf x.0).fits x.1 (omega (arith, k.left)));
}

module _ {S : Type 0} {n : ℕ} (close : Kind) (body : S → Parse S)
    (reads : (s : S) → Reads n (body s)) where
  loop-Ends :
      (f : ℕ) (s : S) (p : Parser)
      → count p.ahead < n
      → count p.ahead < f
      → Returns (Ends p) (loop close body f s p)
  unfolding loop
  loop-Ends zero s p h k = absurd (omega arith)
  loop-Ends (suc f) s p h k =
      Returns-if (not (at close p) && not (at_end p))
        (λ e. Returns-bind ((reads s).fits p h) λ x m.
          let r = ensure_progress-Moved p.pos x.1 in
          let less = ensure_progress_strict p x.1 m (ground arith) in
          after (Moved-trans m r) (loop-Ends f x.0 _ (omega (arith, less)) (omega (arith, less))))
        (λ e. returns (Moved-refl p))

  pub Reads-members : (s : S) → Reads n (members close body s)
  unfolding members
  Reads-members s = record { fits = λ p h. loop-Ends (suc (count p.ahead)) s p h (omega arith) }

module _ {A : Type 0} {n : ℕ} (close : Kind) (item : Parse A) (reads : Reads n item) where
  comma_loop-Ends :
      (f : ℕ) (p : Parser)
      → count p.ahead < n
      → count p.ahead < f
      → Returns (Ends p) (comma_loop close item f p)
  unfolding comma_loop
  comma_loop-Ends zero p h k = absurd (omega arith)
  comma_loop-Ends (suc f) p h k =
      Returns-if (not (at close p) && not (at_end p))
        (λ e. Returns-bind (reads.fits p h) λ x m.
          let q = accept-Moved comma x.1 in
          let r = ensure_progress-Moved p.pos (accept comma x.1).1 in
          Returns-if (accept comma x.1).0
            (λ c.
              let less = accept_strict comma x.1 refl c in
              after (Moved-trans m (Moved-trans q r)) (
                Returns-bind
                  (comma_loop-Ends f _ (omega (arith, m.left, less, r.left))
                    (omega (arith, m.left, less, r.left)))
                  λ y w. returns w))
            (λ c. returns (Moved-trans m q)))
        (λ e. returns (Moved-refl p))

  pub Reads-comma_list : Reads n (comma_list close item)
  unfolding comma_list
  Reads-comma_list = record {
    fits = λ p h. comma_loop-Ends (suc (count p.ahead)) p h (omega arith);
  }

module _ {n : ℕ} where
  pub Reads-accept : (k : Kind) → Reads n (run (accept k))
  Reads-accept k = Reads-run (accept k) (accept-Moved k)

  pub Reads-expect : (k : Kind) → Reads n (run (expect k))
  Reads-expect k = Reads-run (expect k) (expect-Moved k)

  pub Reads-ident_name : Reads n (run parse_ident_name)
  Reads-ident_name = Reads-run parse_ident_name parse_ident_name-Moved

  pub Reads-mark : Reads n mark
  unfolding mark
  Reads-mark = Reads-gets _

  pub Reads-close_span : (start : Pos) → Reads n (close_span start)
  unfolding close_span
  Reads-close_span start = Reads-gets _

  pub Reads-skip : Reads n skip
  unfolding skip
  Reads-skip = Reads-run _ advance-Moved

  pub Reads-take_lit : Reads n take_lit
  unfolding take_lit
  Reads-take_lit = Reads-run _ advance-Moved

  pub Reads-take_kind : Reads n take_kind
  unfolding take_kind
  Reads-take_kind = Reads-run _ advance-Moved

  pub Reads-complain : (msg : String) → Reads n (complain msg)
  unfolding complain
  Reads-complain msg = Reads-run _ (λ p. errorf-Moved _ _ p)

  pub Reads-expr : Reads n parse_expr
  Reads-expr = record { fits = λ p h. parse_expr-Ends p }

  pub Reads-postfix : Reads n parse_postfix
  Reads-postfix = record { fits = λ p h. parse_postfix-Ends p }

  pub Reads-stmt : Reads n parse_stmt
  Reads-stmt = record { fits = λ p h. parse_stmt-Ends p }

pub ruleset step_rules = (
  Reads-pure, Reads-case, Reads-if, Reads-bind, Reads-accept, Reads-expect, Reads-ident_name,
  Reads-mark, Reads-close_span, Reads-skip, Reads-take_lit, Reads-take_kind, Reads-complain,
  Reads-expr, Reads-postfix, Reads-stmt, Reads-members, Reads-comma_list,
)

module _ {n : ℕ} where
  pub Reads-skip_word : (lit : String) → Reads n (skip_word lit)
  unfolding skip_word
  Reads-skip_word lit = search step_rules

  pub Reads-unexpected_member :
      {S : Type 0} (msg : String) (s : S) → Reads n (unexpected_member msg s)
  unfolding unexpected_member
  Reads-unexpected_member msg s = search step_rules

  pub Reads-braces :
      {S : Type 0} (body : S → Parse S)
      → ((s : S) → Reads n (body s))
      → (s : S) → Reads n (braces body s)
  unfolding braces
  Reads-braces body reads s = search step_rules

  pub Reads-collect :
      {A : Type 0} (item : Parse A) → Reads n item → (xs : List A) → Reads n (collect item xs)
  unfolding collect
  Reads-collect item reads xs = search step_rules

pub ruleset read_rules =
    (step_rules, Reads-skip_word, Reads-unexpected_member, Reads-braces, Reads-collect)
