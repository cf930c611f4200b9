-- ===== src/Lexer/Run.antt =====
-- lexer/lexer.go: `Lex` as a whole: its end, its tokens and their positions.
use domainscript.Prelude.{
  ℕ, zero, suc, ◌<◌, ◌≡◌, inl, inr, refl, sym, ap, ◌∙◌, subst, true, false, List, [], ◌∷◌, ◌++◌,
  append_assoc, append-nil, Text, ◌==◌, nat_eq, length, length-append, arith, Returns, returns,
  Returns-bind, Returns-if, Returns-both, All, All-append, All-map,
}
use domainscript.Token.{Pos, Token, eof, less, kind_eq}
use domainscript.Token.Order.{less_trans}
use domainscript.Lexer.State.{Lexer, here, is_nil, at_end, emit}
use domainscript.Lexer.Scan.{Unicode, run, initial, lex}
use domainscript.Lexer.Lexemes.{step_pos, walk, origin, Laid}
use domainscript.Lexer.One.{lex_one-Scanned}
use domainscript.Lexer.Places.{run-Laid}
use domainscript.Lexer.Moves.{walk-append, Quiet, Scanned, Quiet-le, nonempty_of_not_nil}
use domainscript.Lexer.Steps.{skip_trivia-Quiet}

-- A rune further on is further on in the order of positions.
less-step_pos : (r : ℕ) (p : Pos) → less p (step_pos r p) ≡ true
unfolding less
less-step_pos r p = ground arith

walk_mono : (s : Text) (p q : Pos) → less p q ≡ true → less p (walk s q) ≡ true
walk_mono [] p q h = h
walk_mono (r ∷ s) p q h =
    walk_mono s p (step_pos r q) (less_trans p q (step_pos r q) h (less-step_pos r q))

walk_progress : (s : Text) (p : Pos) → 0 < length s → less p (walk s p) ≡ true
walk_progress [] p h = absurd (omega arith)
walk_progress (r ∷ s) p h = walk_mono s p (step_pos r p) (less-step_pos r p)

-- Each token stands before the next.
abbrev pub Increasing : List Token → Type 0
Increasing [] = Unit
Increasing (t ∷ ts) = All (λ s. less t.pos s.pos ≡ true) ts × Increasing ts

abbrev NotEof : Token → Type 0
NotEof t = (t.kind == eof) ≡ false

Increasing-concat :
    (ts : List Token) (t : Token)
    → Increasing ts
    → All (λ s. less s.pos t.pos ≡ true) ts
    → Increasing (ts ++ t ∷ [])
Increasing-concat [] t h k = (tt, tt)
Increasing-concat (s ∷ ts) t h k = (
  All-append (λ r. less s.pos r.pos ≡ true) ts (t ∷ []) h.0 (k.0, tt),
  Increasing-concat ts t h.1 k.1,
)

-- What holds at the head of the loop of `run`: the cursor stands behind what has been read.
record Inv (src : Text) (l : Lexer) : Type 0 where
  done : Text
  splits : src ≡ done ++ l.rest
  reached : here l ≡ walk done origin
  increasing : Increasing l.toks
  before : All (λ t. less t.pos (here l) ≡ true) l.toks
  no_eof : All NotEof l.toks

-- The tokens of a source end with one EOF, and each stands before the next.
record Ordered (src : Text) (toks : List Token) : Type 0 where
  body : List Token
  ends : toks ≡ body ++ (record { kind = eof; lit = []; pos = walk src origin } ∷ [])
  no_eof : All (λ t. (t.kind == eof) ≡ false) body
  increasing : Increasing toks

-- The tokens of a source: they lie in it, each where its own text begins; one EOF, at the end of the
-- source and of the list; and each token before the next.
pub record IsLexed (u : Unicode) (src : Text) (toks : List Token) : Type 0 where
  pub body : List Token
  pub ends : toks ≡ body ++ (record { kind = eof; lit = []; pos = walk src origin } ∷ [])
  pub no_eof : All (λ t. (t.kind == eof) ≡ false) body
  pub increasing : Increasing toks
  pub laid : Laid u origin src toks

nil_of_is_nil : (s : Text) → is_nil s ≡ true → s ≡ []
nil_of_is_nil [] h = refl
nil_of_is_nil (_ ∷ s) h = cc

initial-Inv : (src : Text) → Inv src (initial src)
initial-Inv src = record {
  done = [];
  splits = refl;
  reached = refl;
  increasing = tt;
  before = tt;
  no_eof = tt;
}

All-toks {ℓ} : (P : Token → Type ℓ) {ts us : List Token} → ts ≡ us → All P us → All P ts
All-toks P e h = subst (All P) (sym e) h

-- Nothing that was before the cursor is overtaken when runes are read.
before_walk :
    (s : Text) (p q : Pos) (ts : List Token)
    → q ≡ walk s p
    → All (λ t. less t.pos p ≡ true) ts
    → All (λ t. less t.pos q ≡ true) ts
before_walk s p q ts e h =
    All-map ts (λ t k. subst (λ r. less t.pos r ≡ true) (sym e) (walk_mono s t.pos p k)) h

module _ (src : Text) (l l' : Lexer) (i : Inv src l) where
  moved-splits : (c : Text) → l.rest ≡ c ++ l'.rest → src ≡ (i.done ++ c) ++ l'.rest
  moved-splits c e = i.splits ∙ ap (λ r. i.done ++ r) e ∙ sym (append_assoc i.done c l'.rest)

  moved-reached : (c : Text) → here l' ≡ walk c (here l) → here l' ≡ walk (i.done ++ c) origin
  moved-reached c e = e ∙ ap (walk c) i.reached ∙ sym (walk-append i.done c origin)

  Quiet-Inv : Quiet l l' → Inv src l'
  Quiet-Inv q = record {
    done = i.done ++ q.consumed;
    splits = moved-splits q.consumed q.splits;
    reached = moved-reached q.consumed q.walked;
    increasing = subst Increasing (sym q.kept) i.increasing;
    before =
        All-toks (λ r. less r.pos (here l') ≡ true) q.kept
          (before_walk q.consumed (here l) (here l') l.toks q.walked i.before);
    no_eof = All-toks NotEof q.kept i.no_eof;
  }

  here_before :
      (t : Token) (c : Text)
      → 0 < length c
      → here l' ≡ walk c (here l)
      → t.pos ≡ here l
      → less t.pos (here l') ≡ true
  here_before t c h w p = rw (p, w) (walk_progress c (here l) h)

  concat-Increasing : (t : Token) → t.pos ≡ here l → Increasing (l.toks ++ t ∷ [])
  concat-Increasing t p =
      Increasing-concat l.toks t i.increasing (All-map l.toks (λ s k. rw p k) i.before)

  Scanned-Inv : (u : Unicode) → Scanned u (here l) l l' → Inv src l'
  Scanned-Inv u s = elim s.emits [
    | inl (e, _, _, _) ↦
        Quiet-Inv (record { consumed = s.consumed; splits = s.splits; walked = s.walked; kept = e })
    | inr (t, e, p, n, _) ↦ record {
      done = i.done ++ s.consumed;
      splits = moved-splits s.consumed s.splits;
      reached = moved-reached s.consumed s.walked;
      increasing = subst Increasing (sym e) (concat-Increasing t p);
      before =
          All-toks (λ r. less r.pos (here l') ≡ true) e
            (All-append (λ r. less r.pos (here l') ≡ true) l.toks (t ∷ [])
              (before_walk s.consumed (here l) (here l') l.toks s.walked i.before)
              (here_before t s.consumed moved s.walked p, tt));
      no_eof = All-toks NotEof e (All-append NotEof l.toks (t ∷ []) i.no_eof (n, tt));
    }
  ]
    where
      moved : 0 < length s.consumed
      moved = omega (arith, ap length s.splits, length-append s.consumed l'.rest, s.progress)

-- The last step: EOF is emitted at the end of the source.
eof-Ordered :
    (src : Text) (l : Lexer)
    → Inv src l
    → at_end l ≡ true
    → Ordered src (emit eof [] (here l) l).toks
unfolding emit
eof-Ordered src l i e = record {
  body = l.toks;
  ends = ap (λ p. l.toks ++ (record { kind = eof; lit = []; pos = p } ∷ [])) at_src_end;
  no_eof = i.no_eof;
  increasing = concat-Increasing src l l i t refl;
}
  where
    t : Token
    t = record { kind = eof; lit = []; pos = here l }

    whole : src ≡ i.done
    whole = i.splits ∙ ap (λ r. i.done ++ r) (nil_of_is_nil l.rest e) ∙ append-nil i.done

    at_src_end : here l ≡ walk src origin
    at_src_end = i.reached ∙ ap (λ s. walk s origin) (sym whole)

run-Ordered :
    (u : Unicode) (src : Text) (f : ℕ) (l : Lexer)
    → Inv src l
    → length l.rest < f
    → Returns (λ m. Ordered src m.toks) (run u f l)
unfolding run
run-Ordered u src zero l i h = absurd (omega arith)
run-Ordered u src (suc f) l i h = Returns-bind (skip_trivia-Quiet l) λ m q.
    let j = Quiet-Inv src l m i q in
    Returns-if (at_end m) (λ e. returns (eof-Ordered src m j e))
      λ e. Returns-bind (lex_one-Scanned u (here m) m (nonempty_of_not_nil m.rest e)) λ n s.
        run-Ordered u src f n (Scanned-Inv src m n j u s) (omega (arith, Quiet-le q, s.progress))

-- `Lex` gives a result on every source, whatever the tables of `unicode` are: it neither panics
-- nor runs for ever. The tokens lie in the source in their order: each is at the line and the
-- column, counted from 1, of the first rune of the text that it is read from, which is its literal,
-- the spelling of its kind or, of a string, begins with a quote; between two of them are only blanks,
-- comments up to the end of their line, and runes that no token begins with in that place. One EOF
-- closes them, at the end of the source; there is no other; and each token stands before the next.
pub lex-IsLexed :
    (u : Unicode) (src : Text) → Returns (λ (toks, diags). IsLexed u src toks) (lex u src)
unfolding lex
lex-IsLexed u src =
    let l = initial src in
    let ordered = run-Ordered u src (suc (length src)) l (initial-Inv src) (omega arith) in
    Returns-bind (Returns-both ordered (run-Laid u (suc (length src)) l (omega arith)))
      λ m (o, (ts, e, w)). returns (record {
        body = o.body;
        ends = o.ends;
        no_eof = o.no_eof;
        increasing = o.increasing;
        laid = subst (Laid u origin src) (sym e) w;
      })
