-- ===== src/Lexer/Trivia.antt =====
-- lexer/lexer.go: what `skipTrivia` leaves out.
use domainscript.Prelude.{
  ℕ, zero, suc, ◌<◌, ◌≡◌, refl, sym, ap, ◌∙◌, true, ◌&&◌, [], ◌∷◌, ◌++◌, append_assoc, Text, ◌==◌,
  nat_eq, length, arith, Returns, returns, Returns-bind, Returns-if, Returns-mono, Bool-cases, inl,
  inr, subst,
}
use domainscript.Lexer.State.{Lexer, at_end, peek, peek2, consume}
use domainscript.Lexer.Scan.{Unicode, is_blank, skip_comment, skip_trivia_loop, skip_trivia}
use domainscript.Lexer.Lexemes.{NoBreak, LineEnds, Gap, nothing, blank, comment, opens_comment}
use domainscript.Lexer.Moves.{consume-rest, advance-TakesOne, nonempty_of_not_nil}
use domainscript.Lexer.Steps.{skip_comment_progress}

-- The runes of a comment, up to the end of its line.
record Line (s rest : Text) : Type 0 where
  runes : Text
  splits : s ≡ runes ++ rest
  unbroken : NoBreak runes
  ends : LineEnds rest

skip_comment-Line : (s : Text) (l : Lexer) → l.rest ≡ s → Line s (skip_comment s l).rest
unfolding skip_comment
skip_comment-Line [] l e = record { runes = []; splits = sym e; unbroken = tt; ends = rw e tt }
skip_comment-Line (r ∷ rs) l e = elim (Bool-cases (r == b'\n')) [
  | inl h ↦ rw h (record { runes = []; splits = sym e; unbroken = tt; ends = rw e h })
  | inr h ↦
      let k = skip_comment-Line rs (consume r rs l) (consume-rest r rs l) in
      rw h (record {
        runes = r ∷ k.runes;
        splits = ap (◌∷◌ r) k.splits;
        unbroken = (h, k.unbroken);
        ends = k.ends;
      })
]

-- Trivia stand in front of what is left.
abbrev pub Skipped : Unicode → Lexer → Lexer → Type 0
Skipped u l l' = (g : Text) × (l.rest ≡ g ++ l'.rest) × Gap u l'.rest g

skip_trivia_loop-Skipped :
    (u : Unicode) (f : ℕ) (l : Lexer)
    → length l.rest < f
    → Returns (Skipped u l) (skip_trivia_loop f l)
unfolding skip_trivia_loop
skip_trivia_loop-Skipped u zero l h = absurd (omega arith)
skip_trivia_loop-Skipped u (suc f) l h =
    let stay : Skipped u l l = ([], refl, nothing) in
    Returns-if (at_end l) (λ _. returns stay)
      λ more.
        Returns-if (is_blank (peek l))
          (λ b. Returns-bind (advance-TakesOne l (nonempty_of_not_nil l.rest more)) λ (r, l') t.
            let blank_rune = rw t.2 at b in
            Returns-mono (skip_trivia_loop-Skipped u f l' (omega (arith, t.1)))
              λ m (g, e, w). (r ∷ g, t.2 ∙ ap (◌∷◌ r) e, blank r g blank_rune w))
          λ _.
            Returns-if (peek l == b'/' && peek2 l == b'/')
              (λ c.
                let k = skip_comment-Line l.rest l refl in
                let p = skip_comment_progress l.rest l refl (ground arith) in
                Returns-mono (skip_trivia_loop-Skipped u f (skip_comment l.rest l) (omega arith))
                  λ m (g, e, w).
                    let split = k.splits ∙ ap (λ s. k.runes ++ s) e in
                    (
                      k.runes ++ g,
                      split ∙ sym (append_assoc k.runes g m.rest),
                      comment k.runes g (subst (λ s. opens_comment s ≡ true) split c) k.unbroken
                          (subst LineEnds e k.ends) w,
                    ))
              (λ _. returns stay)

pub skip_trivia-Skipped : (u : Unicode) (l : Lexer) → Returns (Skipped u l) (skip_trivia l)
unfolding skip_trivia
skip_trivia-Skipped u l = skip_trivia_loop-Skipped u (suc (length l.rest)) l (omega arith)
