-- ===== src/Parser/Recovery.antt =====
-- parser/parser.go: what `newParser` reads, and where `synchronize` stops.
use domainscript.Prelude.{
  ◌≡◌, refl, sym, ap, ◌∙◌, Bool, true, false, ◌||◌, ◌==◌, List, [], ◌∷◌, ◌++◌, if◌then◌else◌,
  if_cases, All, arith,
}
use domainscript.Token.{Kind, Token, kind_eq, eof, rbrace}
use domainscript.Diag.{DiagnosticBag}
use domainscript.Parser.Cursor.{
  Ahead, closing, more, head, tail, Parser, close, close_last, cur, at_end, advance, contains,
  synchronize_on, synchronize, new_parser,
}

-- The tokens, the closing EOF among them.
abbrev pub tokens : Ahead → List Token
tokens (closing lit pos) = record { kind = eof; lit = lit; pos = pos } ∷ []
tokens (more t a) = t ∷ tokens a

abbrev pub ends_with_eof : List Token → Bool
ends_with_eof [] = false
ends_with_eof (t ∷ []) = t.kind == eof
ends_with_eof (t ∷ s ∷ ts) = ends_with_eof (s ∷ ts)

abbrev pub empty_eof : Token
empty_eof = record { kind = eof; lit = []; pos = record { line = 0; col = 0 } }

close_last-tokens :
    (t : Token) (b : Bool)
    → (t.kind == eof) ≡ b
    → tokens (close_last t b) ≡ (if b then t ∷ [] else t ∷ empty_eof ∷ [])
close_last-tokens t true h =
    ap (λ k. record { kind = k; lit = t.lit; pos = t.pos } ∷ [])
      (sym ((kind_eq.beq_iff t.kind eof).0 h))
close_last-tokens t false h = refl

close-tokens :
    (ts : List Token) → tokens (close ts) ≡ (if ends_with_eof ts then ts else ts ++ empty_eof ∷ [])
close-tokens [] = refl
close-tokens (t ∷ []) = close_last-tokens t (t.kind == eof) refl
close-tokens (t ∷ s ∷ ts) =
    ap (λ us. t ∷ us) (close-tokens (s ∷ ts)) ∙ pushed (ends_with_eof (s ∷ ts))
  where
    pushed :
        (b : Bool)
        → t ∷ (if b then s ∷ ts else (s ∷ ts) ++ empty_eof ∷ [])
          ≡ (if b then t ∷ s ∷ ts else (t ∷ s ∷ ts) ++ empty_eof ∷ [])
    pushed true = refl
    pushed false = refl

-- The parser reads the tokens that it is given, all of them, and an EOF behind them if they do not
-- end with one.
pub new_parser-tokens :
    (toks : List Token) (bag : DiagnosticBag)
    → tokens (new_parser toks bag).ahead
      ≡ (if ends_with_eof toks then toks else toks ++ empty_eof ∷ [])
unfolding new_parser
new_parser-tokens toks bag = close-tokens toks

-- A token that `synchronize` does not go beyond.
abbrev pub is_anchor : List Kind → Token → Bool
is_anchor stop t = t.kind == eof || (t.kind == rbrace || contains stop t.kind)

abbrev pub SkipsTo : List Kind → Parser → Parser → Type 0
SkipsTo stop p q =
    (skipped : List Token) × (tokens p.ahead ≡ skipped ++ tokens q.ahead)
    × All (λ t. is_anchor stop t ≡ false) skipped
    × (is_anchor stop (cur q) ≡ true)

advance_ahead : (p : Parser) → at_end p ≡ false → (advance p).ahead ≡ tail p.ahead
unfolding advance
advance_ahead p h = rw h refl

advance_bag : (p : Parser) → (advance p).bag ≡ p.bag
unfolding advance
advance_bag p = if_cases (λ (q : Parser). q.bag ≡ p.bag) (at_end p) (λ h. refl) (λ h. refl)

synchronize_on-SkipsTo :
    (a : Ahead) (stop : List Kind) (p : Parser)
    → p.ahead ≡ a
    → SkipsTo stop p (synchronize_on a stop p)
unfolding synchronize_on
synchronize_on-SkipsTo (closing lit pos) stop p h =
    ([], refl, tt, ap (λ b. is_anchor stop (head b)) h)
synchronize_on-SkipsTo (more t a) stop p h =
    if_cases (SkipsTo stop p) (is_anchor stop t)
      (λ e. ([], refl, tt, ap (λ b. is_anchor stop (head b)) h ∙ e))
      (λ e.
        let live : at_end p ≡ false = ap (λ b. (head b).kind == eof) h ∙ ground arith in
        let ahead : (advance p).ahead ≡ a = advance_ahead p live ∙ ap tail h in
        let (skipped, split, free, last) = synchronize_on-SkipsTo a stop (advance p) ahead in
        (
          t ∷ skipped,
          ap tokens h ∙ ap (λ us. t ∷ us) (sym (ap tokens ahead) ∙ split),
          (e, free),
          last,
        ))

synchronize_on-bag :
    (a : Ahead) (stop : List Kind) (p : Parser) → (synchronize_on a stop p).bag ≡ p.bag
unfolding synchronize_on
synchronize_on-bag (closing lit pos) stop p = refl
synchronize_on-bag (more t a) stop p =
    if_cases (λ (q : Parser). q.bag ≡ p.bag) (is_anchor stop t) (λ e. refl)
      (λ e. synchronize_on-bag a stop (advance p) ∙ advance_bag p)

-- In panic the parser skips to the first token, from the current one on, that is in the stop set,
-- closes a block or ends the file, and goes no further; and it reports nothing.
pub synchronize-SkipsTo :
    (stop : List Kind) (p : Parser)
    → SkipsTo stop p (synchronize stop p) × ((synchronize stop p).bag ≡ p.bag)
unfolding synchronize
synchronize-SkipsTo stop p =
    (synchronize_on-SkipsTo p.ahead stop p refl, synchronize_on-bag p.ahead stop p)
