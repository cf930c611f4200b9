-- ===== src/Lexer/Places.antt =====
-- lexer/lexer.go: where the tokens of a source lie.
use domainscript.Prelude.{
  ℕ, zero, suc, ◌<◌, ◌≡◌, inl, inr, refl, sym, ap, ◌∙◌, subst, true, List, [], ◌∷◌, ◌++◌,
  append_assoc, append-nil, Text, nat_eq, length, arith, Returns, returns, Returns-bind, Returns-if,
  Returns-both, Returns-mono,
}
use domainscript.Token.{Pos, Token, eof}
use domainscript.Lexer.State.{Lexer, here, is_nil, at_end, emit}
use domainscript.Lexer.Scan.{Unicode, run}
use domainscript.Lexer.Lexemes.{
  walk, Invalid, Gap, nothing, blank, comment, invalid, LineEnds, opens_comment, Laid, ending,
  token,
}
use domainscript.Lexer.Moves.{
  walk-append, Quiet, Quiet-le, Scanned, consumed_text, nonempty_of_not_nil,
}
use domainscript.Lexer.Steps.{skip_trivia-Quiet}
use domainscript.Lexer.Trivia.{Skipped, skip_trivia-Skipped}
use domainscript.Lexer.One.{lex_one-Scanned}

module _ (u : Unicode) where
  -- A gap and the gap behind it.
  Gap-append : {post : Text} (h g : Text) → Gap u (h ++ post) g → Gap u post h → Gap u post (g ++ h)
  Gap-append {post} h _ nothing k = k
  Gap-append {post} h _ (blank r s e w) k = blank r (s ++ h) e (Gap-append h s w k)
  Gap-append {post} h _ (invalid r s e w) k =
      invalid r (s ++ h) (subst (λ x. Invalid u x r) (sym (append_assoc s h post)) e)
        (Gap-append h s w k)
  Gap-append {post} h _ (comment c s o n e w) k =
      let moved = append_assoc s h post in
      subst (Gap u post) (sym (append_assoc c s h)) (
        comment c (s ++ h) (subst (λ x. opens_comment (c ++ x) ≡ true) (sym moved) o) n
          (subst LineEnds (sym moved) e) (Gap-append h s w k))

  -- Tokens that lie behind a gap.
  behind_gap :
      (p : Pos) (g rest : Text) (ts : List Token)
      → Gap u rest g
      → Laid u (walk g p) rest ts
      → Laid u p (g ++ rest) ts
  behind_gap p g rest ts w (ending q gap v) =
      subst (λ q. Laid u p (g ++ gap) (record { kind = eof; lit = []; pos = q } ∷ []))
        (walk-append g gap p)
        (ending p (g ++ gap) (Gap-append gap g (subst (λ x. Gap u x g) (sym (append-nil gap)) w) v))
  behind_gap p g rest ts w (token q gap lexeme tail t more v at spelled laid) =
      let places = walk-append g gap p in
      subst (λ s. Laid u p s (t ∷ more)) (append_assoc g gap (lexeme ++ tail))
        (token p (g ++ gap) lexeme tail t more (Gap-append gap g w v) (at ∙ sym places) spelled
          (subst (λ q. Laid u (walk lexeme q) tail more) (sym places) laid))

  -- What `run` adds to the tokens lies in what is left to read.
  abbrev pub Adds : Lexer → Lexer → Type 0
  Adds l m = (ts : List Token) × (m.toks ≡ l.toks ++ ts) × Laid u (here l) l.rest ts

  nothing_left : (s : Text) → is_nil s ≡ true → s ≡ []
  nothing_left [] h = refl
  nothing_left (_ ∷ s) h = cc

  -- Trivia are skipped before something is added.
  Skipped-Adds : (l m n : Lexer) → Quiet l m → Skipped u l m → Adds m n → Adds l n
  Skipped-Adds l m n q (g, e, w) (ts, a, laid) =
      let places : here m ≡ walk g (here l) =
        q.walked ∙ ap (λ c. walk c (here l)) (consumed_text q g e) in
      (
        ts,
        a ∙ ap (λ k. k ++ ts) q.kept,
        subst (λ s. Laid u (here l) s ts) (sym e)
            (behind_gap (here l) g m.rest ts w (subst (λ p. Laid u p m.rest ts) places laid)),
      )

  end-Adds : (l : Lexer) → at_end l ≡ true → Adds l (emit eof [] (here l) l)
  unfolding emit
  end-Adds l e = (
    record { kind = eof; lit = []; pos = here l } ∷ [],
    refl,
    subst (λ s. Laid u (here l) s (record { kind = eof; lit = []; pos = here l } ∷ []))
        (sym (nothing_left l.rest e)) (ending (here l) [] nothing),
  )

  Scanned-Adds : (l m n : Lexer) → Scanned u (here l) l m → Adds m n → Adds l n
  Scanned-Adds l m n s (ts, a, laid) =
      let moved = subst (λ p. Laid u p m.rest ts) s.walked laid in
      elim s.emits [
        | inl (kept, r, one, bad) ↦ (
          ts,
          a ∙ ap (λ k. k ++ ts) kept,
          subst (λ x. Laid u (here l) x ts) (sym s.splits)
              (behind_gap (here l) s.consumed m.rest ts
                (subst (Gap u m.rest) (sym one) (invalid r [] bad nothing)) moved),
        )
        | inr (t, e, p, _, spelled) ↦ (
          t ∷ ts,
          a ∙ ap (λ k. k ++ ts) e ∙ append_assoc l.toks (t ∷ []) ts,
          subst (λ x. Laid u (here l) x (t ∷ ts)) (sym s.splits)
              (token (here l) [] s.consumed m.rest t ts nothing p spelled moved),
        )
      ]

  pub run-Laid : (f : ℕ) (l : Lexer) → length l.rest < f → Returns (Adds l) (run u f l)
  unfolding run
  run-Laid zero l h = absurd (omega arith)
  run-Laid (suc f) l h =
      Returns-bind (Returns-both (skip_trivia-Quiet l) (skip_trivia-Skipped u l)) λ m (q, w).
        Returns-if (at_end m)
          (λ e. returns (Skipped-Adds l m (emit eof [] (here m) m) q w (end-Adds m e)))
          λ e. Returns-bind (lex_one-Scanned u (here m) m (nonempty_of_not_nil m.rest e)) λ n s.
            Returns-mono (run-Laid f n (omega (arith, Quiet-le q, s.progress)))
              λ k a. Skipped-Adds l m k q w (Scanned-Adds m n k s a)
