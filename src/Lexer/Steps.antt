-- ===== src/Lexer/Steps.antt =====
-- lexer/lexer.go: what the scanning loops consume.
use domainscript.Prelude.{
  ℕ, zero, suc, ◌<◌, ◌≡◌, refl, ap, Bool, true, [], ◌∷◌, Text, ◌==◌, nat_eq, get_or, length, arith,
  if_cases, Bool-cases, inl, inr, sym, ◌∙◌, ◌++◌, Returns, returns, Returns-bind, Returns-if,
  Returns-mono, ◌&&◌, not,
}
use domainscript.Lexer.State.{Lexer, at_end, peek, peek2, consume, advance_n, take_while_on}
use domainscript.Lexer.Scan.{is_blank, skip_comment, skip_trivia_loop, skip_trivia}
use domainscript.Lexer.Moves.{
  consume-rest, Quiet, Quiet-refl, Quiet-trans, Quiet-le, advance-TakesOne, nonempty_of_not_nil,
  consume-Quiet,
}

pub skip_comment-Quiet : (s : Text) (l : Lexer) → l.rest ≡ s → Quiet l (skip_comment s l)
unfolding skip_comment
skip_comment-Quiet [] l e = Quiet-refl l
skip_comment-Quiet (r ∷ rs) l e =
    let q = consume-Quiet r rs l e in
    if_cases (Quiet l) (not (r == b'\n'))
      (λ _. Quiet-trans q (skip_comment-Quiet rs (consume r rs l) (consume-rest r rs l)))
      (λ _. Quiet-refl l)

-- From a rune that does not end the line, it consumes at least that.
pub skip_comment_progress :
    (s : Text) (l : Lexer)
    → l.rest ≡ s
    → (get_or s 0 0 == b'/') ≡ true
    → length (skip_comment s l).rest < length l.rest
unfolding skip_comment
skip_comment_progress [] l e h = ground arith
skip_comment_progress (r ∷ rs) l e h =
    if_cases (λ (m : Lexer). length m.rest < length l.rest) (not (r == b'\n'))
      (λ _. omega (
        arith,
        ap length e,
        ap length (consume-rest r rs l),
        Quiet-le (skip_comment-Quiet rs (consume r rs l) (consume-rest r rs l)),
      ))
      (λ n. absurd (ground arith))

-- Where fuel is left, the loop ends at a rune that is no blank and starts no comment, or at the end.
skip_trivia_loop-Quiet :
    (f : ℕ) (l : Lexer) → length l.rest < f → Returns (Quiet l) (skip_trivia_loop f l)
unfolding skip_trivia_loop
skip_trivia_loop-Quiet zero l h = absurd (omega arith)
skip_trivia_loop-Quiet (suc f) l h =
    Returns-if (at_end l) (λ _. returns (Quiet-refl l))
      λ more.
        Returns-if (is_blank (peek l))
          (λ b. Returns-bind (advance-TakesOne l (nonempty_of_not_nil l.rest more)) λ (_, l') t.
            Returns-mono (skip_trivia_loop-Quiet f l' (omega (arith, t.1)))
              λ m q. Quiet-trans t.0 q)
          λ _.
            Returns-if (peek l == b'/' && peek2 l == b'/')
              (λ c.
                let q = skip_comment-Quiet l.rest l refl in
                let p = skip_comment_progress l.rest l refl (ground arith) in
                Returns-mono (skip_trivia_loop-Quiet f (skip_comment l.rest l) (omega arith))
                  λ m r. Quiet-trans q r)
              (λ _. returns (Quiet-refl l))

pub skip_trivia-Quiet : (l : Lexer) → Returns (Quiet l) (skip_trivia l)
unfolding skip_trivia
skip_trivia-Quiet l = skip_trivia_loop-Quiet (suc (length l.rest)) l (omega arith)

-- `takeWhile` consumes what it gives, and at least one rune where the first passes the test.
pub take_while_on-Quiet :
    (pred : ℕ → Bool) (s : Text) (l : Lexer) → l.rest ≡ s → Quiet l (take_while_on pred s l).1
unfolding take_while_on
take_while_on-Quiet pred [] l e = Quiet-refl l
take_while_on-Quiet pred (r ∷ rs) l e =
    let q = consume-Quiet r rs l e in
    if_cases (λ (x : Text × Lexer). Quiet l x.1) (pred r)
      (λ _. Quiet-trans q (take_while_on-Quiet pred rs (consume r rs l) (consume-rest r rs l)))
      (λ _. Quiet-refl l)

pub take_while_on_progress :
    (pred : ℕ → Bool) (s : Text) (l : Lexer)
    → l.rest ≡ s
    → pred (get_or s 0 0) ≡ true
    → 0 < length s
    → length (take_while_on pred s l).1.rest < length l.rest
unfolding take_while_on
take_while_on_progress pred [] l e h p = absurd (omega arith)
take_while_on_progress pred (r ∷ rs) l e h p = rw h (
    omega (
      arith,
      ap length e,
      ap length (consume-rest r rs l),
      Quiet-le (take_while_on-Quiet pred rs (consume r rs l) (consume-rest r rs l)),
    ))

-- What `takeWhile` gives stands in front of what it leaves.
pub take_while_on-splits :
    (pred : ℕ → Bool) (s : Text) (l : Lexer)
    → l.rest ≡ s
    → l.rest ≡ (take_while_on pred s l).0 ++ (take_while_on pred s l).1.rest
unfolding take_while_on
take_while_on-splits pred [] l e = refl
take_while_on-splits pred (r ∷ rs) l e = elim (Bool-cases (pred r)) [
  | inl h ↦ rw h (
      e
      ∙ ap (◌∷◌ r) (
          sym (consume-rest r rs l)
          ∙ take_while_on-splits pred rs (consume r rs l) (consume-rest r rs l)))
  | inr h ↦ rw h refl
]

-- `advanceN` takes a text that stands at the cursor.
pub advance_n-takes :
    (c rest : Text) (l : Lexer)
    → l.rest ≡ c ++ rest
    → Returns (λ l'. Quiet l l' × (l'.rest ≡ rest)) (advance_n (length c) l)
unfolding advance_n
advance_n-takes [] rest l e = returns (Quiet-refl l, e)
advance_n-takes (r ∷ c) rest l e =
    Returns-bind (advance-TakesOne l (omega (arith, ap length e))) λ (n, l') t.
      let tails : l'.rest ≡ c ++ rest = cc (t.2, e) in
      Returns-mono (advance_n-takes c rest l' tails) λ m q. (Quiet-trans t.0 q.0, q.1)
