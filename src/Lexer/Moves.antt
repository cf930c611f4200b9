-- ===== src/Lexer/Moves.antt =====
-- lexer/lexer.go: what a scanning step does to the cursor, the position and the tokens.
use domainscript.Prelude.{
  ℕ, zero, suc, ◌<◌, ◌≤◌, ◌≡◌, ◌⊎◌, inr, refl, sym, ap, ◌∙◌, true, false, [], ◌∷◌, ◌++◌,
  append_assoc, Text, ◌==◌, nat_eq, get_or, length, length-append, arith, Returns, returns, subst,
}
use domainscript.Token.{Kind, Pos, Token, eof, kind_eq}
use domainscript.Lexer.Scan.{Unicode}
use domainscript.Lexer.Lexemes.{step_pos, walk, Spells, Invalid}
use domainscript.Lexer.State.{
  Lexer, here, is_nil, peek, peek2, consume, advance_on, advance, emit, errorf,
}

pub walk-append : (s t : Text) (p : Pos) → walk (s ++ t) p ≡ walk t (walk s p)
walk-append [] t p = refl
walk-append (r ∷ s) t p = walk-append s t (step_pos r p)

-- The step consumes runes, and emits no token.
pub record Quiet (l l' : Lexer) : Type 0 where
  pub consumed : Text
  pub splits : l.rest ≡ consumed ++ l'.rest
  pub walked : here l' ≡ walk consumed (here l)
  pub kept : l'.toks ≡ l.toks

-- The step consumes runes, at least one, and emits one token, which stands at `start` and is read from
-- what is consumed; or it consumes one invalid rune.
pub record Scanned (u : Unicode) (start : Pos) (l l' : Lexer) : Type 0 where
  pub consumed : Text
  pub splits : l.rest ≡ consumed ++ l'.rest
  pub walked : here l' ≡ walk consumed (here l)
  pub progress : length l'.rest < length l.rest
  pub emits :
      ((l'.toks ≡ l.toks) × (r : ℕ) × (consumed ≡ r ∷ []) × Invalid u l'.rest r)
      ⊎ ((t : Token) × (l'.toks ≡ l.toks ++ t ∷ [])
          × (t.pos ≡ start)
          × ((t.kind == eof) ≡ false)
          × Spells t consumed)

pub Quiet-refl : (l : Lexer) → Quiet l l
Quiet-refl l = record { consumed = []; splits = refl; walked = refl; kept = refl }

pub Quiet-trans : {k l m : Lexer} → Quiet k l → Quiet l m → Quiet k m
Quiet-trans {k} p q = record {
  consumed = p.consumed ++ q.consumed;
  splits = p.splits ∙ ap (λ s. p.consumed ++ s) q.splits ∙ sym (append_assoc p.consumed _ _);
  walked =
      q.walked ∙ ap (walk q.consumed) p.walked ∙ sym (walk-append p.consumed q.consumed (here k));
  kept = q.kept ∙ p.kept;
}

pub Quiet-le : {l l' : Lexer} → Quiet l l' → length l'.rest ≤ length l.rest
Quiet-le {l} {l'} q = omega (arith, ap length q.splits, length-append q.consumed l'.rest)

pub consume-rest : (r : ℕ) (rs : Text) (l : Lexer) → (consume r rs l).rest ≡ rs
unfolding consume
consume-rest r rs l = ground arith

pub consume-Quiet : (r : ℕ) (rs : Text) (l : Lexer) → l.rest ≡ r ∷ rs → Quiet l (consume r rs l)
consume-Quiet r rs l e = record {
  consumed = r ∷ [];
  splits = e ∙ ap (◌∷◌ r) (sym (consume-rest r rs l));
  walked = walked;
  kept = kept;
}
  where
    walked : here (consume r rs l) ≡ step_pos r (here l)
    walked = unfold consume in ground arith

    kept : (consume r rs l).toks ≡ l.toks
    kept = unfold consume in ground arith

-- Where runes are left, `advance` takes one of them.
abbrev pub TakesOne : Lexer → ℕ × Lexer → Type 0
TakesOne l (r, l') = Quiet l l' × (length l.rest ≡ suc (length l'.rest)) × (l.rest ≡ r ∷ l'.rest)

advance_on-TakesOne :
    (s : Text) (l : Lexer) → l.rest ≡ s → 0 < length l.rest → Returns (TakesOne l) (advance_on s l)
unfolding advance_on
advance_on-TakesOne [] l e h = absurd (omega (arith, ap length e))
advance_on-TakesOne (r ∷ rs) l e h =
    let split = e ∙ ap (◌∷◌ r) (sym (consume-rest r rs l)) in
    returns (consume-Quiet r rs l e, ap length split, split)

pub advance-TakesOne : (l : Lexer) → 0 < length l.rest → Returns (TakesOne l) (advance l)
unfolding advance
advance-TakesOne l h = advance_on-TakesOne l.rest l refl h

-- A rune other than 0 is seen only in range.
get_or_in_range : (s : Text) (i c : ℕ) → 0 < c → (get_or s i 0 == c) ≡ true → i < length s
get_or_in_range [] i c p h = ground arith
get_or_in_range (x ∷ s) zero c p h = omega arith
get_or_in_range (x ∷ s) (suc i) c p h = omega (arith, get_or_in_range s i c p h)

pub peek_nonempty : (l : Lexer) (c : ℕ) → 0 < c → (peek l == c) ≡ true → 0 < length l.rest
peek_nonempty l = get_or_in_range l.rest 0

pub peek2_nonempty : (l : Lexer) (c : ℕ) → 0 < c → (peek2 l == c) ≡ true → 1 < length l.rest
peek2_nonempty l = get_or_in_range l.rest 1

pub nonempty_of_not_nil : (s : Text) → is_nil s ≡ false → 0 < length s
nonempty_of_not_nil [] h = cc
nonempty_of_not_nil (_ ∷ s) h = omega arith

longer : (s : Text) (x : ℕ) (xs : Text) → [] ++ s ≡ (x ∷ xs) ++ s → ⊥
longer s x xs h = omega (arith, ap length h, length-append (x ∷ xs) s)

-- What stands in front of the same rest is the same.
pub append_cancel : (xs ys s : Text) → xs ++ s ≡ ys ++ s → xs ≡ ys
append_cancel [] [] s h = refl
append_cancel [] (y ∷ ys) s h = absurd (longer s y ys h)
append_cancel (x ∷ xs) [] s h = absurd (longer s x xs (sym h))
append_cancel (x ∷ xs) (y ∷ ys) s h =
    let heads : x ≡ y = cc h in
    let tails : xs ++ s ≡ ys ++ s = cc h in rw (heads, append_cancel xs ys s tails) refl

-- A step consumes the text that stands in front of what it leaves.
pub consumed_text :
    {l l' : Lexer} (q : Quiet l l') (c : Text) → l.rest ≡ c ++ l'.rest → q.consumed ≡ c
consumed_text {l' = l'} q c e = append_cancel q.consumed c l'.rest (sym q.splits ∙ e)

pub emit-Scanned :
    {u : Unicode} {l l' : Lexer} (k : Kind) (lit : Text) (start : Pos) (c : Text)
    → Quiet l l'
    → length l'.rest < length l.rest
    → (k == eof) ≡ false
    → l.rest ≡ c ++ l'.rest
    → Spells (record { kind = k; lit = lit; pos = start }) c
    → Scanned u start l (emit k lit start l')
unfolding emit
emit-Scanned k lit start c q h n e w = record {
  consumed = q.consumed;
  splits = q.splits;
  walked = q.walked;
  progress = h;
  emits =
      inr (
        t,
        ap (λ ts. ts ++ t ∷ []) q.kept,
        refl,
        n,
        subst (Spells t) (sym (consumed_text q c e)) w,
      );
}
  where
    t : Token
    t = record { kind = k; lit = lit; pos = start }

pub errorf-Quiet :
    {l l' : Lexer} (pos : Pos) (msg : Text) → Quiet l l' → Quiet l (errorf pos msg l')
unfolding errorf
errorf-Quiet pos msg q = record {
  consumed = q.consumed;
  splits = q.splits;
  walked = q.walked;
  kept = q.kept;
}

pub errorf-rest : (pos : Pos) (msg : Text) (l : Lexer) → (errorf pos msg l).rest ≡ l.rest
unfolding errorf
errorf-rest pos msg l = refl
