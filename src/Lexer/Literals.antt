-- ===== src/Lexer/Literals.antt =====
-- lexer/lexer.go: numbers with their suffixes, and strings with their escapes.
use domainscript.Prelude.{
  ℕ, sym, append_assoc, append-nil, inl, inr, Bool-cases, ◌<◌, ◌≡◌, refl, ap, ◌∙◌, Bool, true,
  false, Option, [], ◌∷◌, ◌++◌, Text, ◌==◌, nat_eq, length, arith, if_cases, Returns, returns,
  Returns-bind, Returns-if, ◌&&◌, ◌>>=◌, none, some,
}
use domainscript.Token.{
  Kind, Pos, eof, kind_eq, duration, size, rate, string, int, float, is_literal,
}
use domainscript.Lexer.State.{
  Lexer, here, peek, peek2, consume, advance, advance_n, take_while_on, errorf, emit,
}
use domainscript.Lexer.Scan.{
  lex_number, emit_number, lex_string_loop, lex_string, end_unterminated, note_escape, is_escape,
  unescape, Unicode, is_ident_start, is_ident_part, ident_run, behind, scan_number_suffix,
  lex_fraction, is_duration_unit, is_size_unit, is_digit,
}
use domainscript.Lexer.Moves.{
  consume-rest, Quiet, Scanned, Quiet-refl, Quiet-trans, Quiet-le, advance-TakesOne, consume-Quiet,
  peek_nonempty, emit-Scanned, errorf-Quiet,
}
use domainscript.Lexer.Steps.{
  take_while_on-Quiet, take_while_on_progress, take_while_on-splits, advance_n-takes,
}
use domainscript.Lexer.Tokens.{taken_rune}

-- Behind an opening quote and what follows it, with no token emitted.
abbrev Past : Lexer → Lexer → Type 0
Past k l =
    Quiet k l × (length l.rest < length k.rest) × ((c : Text) × (k.rest ≡ b'"' ∷ (c ++ l.rest)))

-- A string that ends here is read from what opens with the quote.
string-Scanned :
    {u : Unicode} {k l : Lexer} (sb : Text) (start : Pos)
    → Past k l
    → Scanned u start k (emit string sb start l)
string-Scanned sb start (q, p, (c, e)) =
    emit-Scanned string sb start (b'"' ∷ c) q p refl e (inr (inr (refl, c, refl)))

-- A kind of literals other than strings.
abbrev LiteralKind : Kind → Type 0
LiteralKind k = ((k == eof) ≡ false) × ((is_literal k ≡ true) × ((k == string) ≡ false))

literal_kind :
    (k : Kind) → (k == eof) ≡ false → is_literal k ≡ true → (k == string) ≡ false → LiteralKind k
literal_kind k e l s = (e, (l, s))

-- What `scanNumberSuffix` gives, with the state behind it.
abbrev SuffixRead : Lexer → Option (Kind × Text) × Lexer → Type 0
SuffixRead l (some (k, suffix), l') = Quiet l l' × LiteralKind k × (l.rest ≡ suffix ++ l'.rest)
SuffixRead l (none, l') = Quiet l l' × (l.rest ≡ l'.rest)

-- A literal that is emitted is spelled as it is.
literal-Scanned :
    {u : Unicode} {l l' : Lexer} (k : Kind) (lit : Text) (start : Pos)
    → Quiet l l'
    → length l'.rest < length l.rest
    → LiteralKind k
    → l.rest ≡ lit ++ l'.rest
    → Scanned u start l (emit k lit start l')
literal-Scanned k lit start q p (e, (w, s)) split =
    emit-Scanned k lit start lit q p e split (inl (w, s, refl))

module _ (u : Unicode) where
  ident_run-splits : (s : Text) → (rest : Text) × (s ≡ ident_run u s ++ rest)
  unfolding ident_run
  ident_run-splits [] = ([], refl)
  ident_run-splits (r ∷ rs) = elim (Bool-cases (is_ident_part u r)) [
    | inl h ↦ let (rest, e) = ident_run-splits rs in rw h (rest, ap (◌∷◌ r) e)
    | inr h ↦ rw h (r ∷ rs, refl)
  ]

  suffix_taken :
      (k : Kind) (l : Lexer)
      → LiteralKind k
      → let unit = ident_run u l.rest in
        Returns (SuffixRead l) (advance_n (length unit) l >>= λ l'. some (some (k, unit), l'))
  suffix_taken k l n =
      let (rest, e) = ident_run-splits l.rest in
      Returns-bind (advance_n-takes (ident_run u l.rest) rest l e)
        λ l' q. returns (q.0, n, e ∙ ap (λ r. ident_run u l.rest ++ r) (sym q.1))

  rate_taken :
      (l : Lexer)
      → (peek l == b'/') ≡ true
      → 0 < length l.rest
      → let unit = ident_run u (behind u l.rest) in
        Returns (SuffixRead l) (
          advance l >>= λ (_, l').
          advance_n (length unit) l' >>= λ l''. some (some (rate, b'/' ∷ unit), l''))
  unfolding is_literal
  rate_taken l seen more = Returns-bind (advance-TakesOne l more) λ (x, l') t.
      let unit = ident_run u (behind u l.rest) in
      let (rest, e) = ident_run-splits (behind u l.rest) in
      let tails : behind u l.rest ≡ l'.rest = ap (behind u) t.2 in
      Returns-bind (advance_n-takes unit rest l' (sym tails ∙ e)) λ l'' q. returns (
        Quiet-trans t.0 q.0,
        literal_kind rate refl refl refl,
        taken_rune l x b'/' l'.rest t.2 seen
            ∙ ap (◌∷◌ b'/') (sym tails ∙ e ∙ ap (λ r. unit ++ r) (sym q.1)),
      )

  -- The suffix that is read ahead is there to be consumed.
  scan_number_suffix-SuffixRead : (l : Lexer) → Returns (SuffixRead l) (scan_number_suffix u l)
  unfolding scan_number_suffix is_literal
  scan_number_suffix-SuffixRead l =
      let unit = ident_run u l.rest in
      let stay : Returns (SuffixRead l) (some (none, l)) = returns (Quiet-refl l, refl) in
      Returns-if (is_ident_start u (peek l))
        (λ _.
          Returns-if (is_duration_unit unit)
            (λ _. suffix_taken duration l (literal_kind duration refl refl refl))
            (λ _.
              Returns-if (is_size_unit unit)
                (λ _. suffix_taken size l (literal_kind size refl refl refl)) (λ _. stay)))
        (λ _.
          Returns-if (peek l == b'/')
            (λ s.
              Returns-if (is_duration_unit (ident_run u (behind u l.rest)))
                (λ _. rate_taken l s (peek_nonempty l b'/' (omega arith) s)) (λ _. stay))
            (λ _. stay))

  -- The fraction is read behind `lit`.
  abbrev FractionRead : Text → Lexer → Kind × Text × Lexer → Type 0
  FractionRead lit l (k, lit', l') =
      Quiet l l' × LiteralKind k × ((a : Text) × (lit' ≡ lit ++ a) × (l.rest ≡ a ++ l'.rest))

  lex_fraction-FractionRead :
      (lit : Text) (l : Lexer) → Returns (FractionRead lit l) (lex_fraction u lit l)
  unfolding lex_fraction is_literal
  lex_fraction-FractionRead lit l =
      Returns-if (peek l == b'.' && is_digit (peek2 l))
        (λ s.
          let dot : (peek l == b'.') ≡ true = ground arith in
          Returns-bind (advance-TakesOne l (peek_nonempty l b'.' (omega arith) dot)) λ (x, l') t.
            let digits = (take_while_on is_digit l'.rest l').0 in
            returns (
              Quiet-trans t.0 (take_while_on-Quiet is_digit l'.rest l' refl),
              literal_kind float refl refl refl,
              (
                b'.' ∷ digits,
                refl,
                taken_rune l x b'.' l'.rest t.2 dot
                    ∙ ap (◌∷◌ b'.') (take_while_on-splits is_digit l'.rest l' refl),
              ),
            ))
        (λ _.
          returns (Quiet-refl l, literal_kind int refl refl refl, ([], sym (append-nil lit), refl)))

  emit_number-Scanned :
      (start : Pos) (kind : Kind) (lit : Text) (l l' : Lexer) (r : Option (Kind × Text) × Lexer)
      → Quiet l l'
      → length l'.rest < length l.rest
      → LiteralKind kind
      → l.rest ≡ lit ++ l'.rest
      → SuffixRead l' r
      → Scanned u start l (emit_number u start kind lit r)
  unfolding emit_number
  emit_number-Scanned start kind lit l l' (some (k, suffix), m) q p n e s =
      literal-Scanned k (lit ++ suffix) start (Quiet-trans q s.0) (omega (arith, p, Quiet-le s.0))
        s.1 (e ∙ ap (λ r. lit ++ r) s.2 ∙ sym (append_assoc lit suffix m.rest))
  emit_number-Scanned start kind lit l l' (none, m) q p n e s =
      literal-Scanned kind lit start (Quiet-trans q s.0) (omega (arith, p, Quiet-le s.0)) n
        (e ∙ ap (λ r. lit ++ r) s.1)

  pub lex_number-Scanned :
      (start : Pos) (l : Lexer)
      → is_digit (peek l) ≡ true
      → 0 < length l.rest
      → Returns (Scanned u start l) (lex_number u start l)
  unfolding lex_number
  lex_number-Scanned start l h more =
      let digits = take_while_on is_digit l.rest l in
      let q = take_while_on-Quiet is_digit l.rest l refl in
      let e = take_while_on-splits is_digit l.rest l refl in
      let p = take_while_on_progress is_digit l.rest l refl h more in
      Returns-bind (lex_fraction-FractionRead digits.0 digits.1) λ (kind, lit, m) f.
        let (a, grown, split) = f.2 in
        let whole : l.rest ≡ lit ++ m.rest =
          e
          ∙ ap (λ r. digits.0 ++ r) split
          ∙ sym (append_assoc digits.0 a m.rest)
          ∙ ap (λ x. x ++ m.rest) (sym grown) in
        Returns-bind (scan_number_suffix-SuffixRead m) λ r s. returns (
          emit_number-Scanned start kind lit l m r (Quiet-trans q f.0)
            (omega (arith, p, Quiet-le f.0)) f.1 whole s)

  end_unterminated-Scanned :
      (start : Pos) (sb : Text) (at_eof : Bool) {l l' : Lexer}
      → Past l l'
      → Scanned u start l (end_unterminated u start sb at_eof l')
  unfolding end_unterminated errorf
  end_unterminated-Scanned start sb at_eof (q, p, (c, e)) =
      string-Scanned sb start (errorf-Quiet start _ q, p, (c, e))

  note_escape-Quiet :
      (at : Pos) (e : ℕ) {l l' : Lexer} → Quiet l l' → Quiet l (note_escape u at e l')
  unfolding note_escape
  note_escape-Quiet at e {l} q =
      if_cases (Quiet l) (is_escape e) (λ _. q) (λ _. errorf-Quiet at _ q)

  note_escape-rest : (at : Pos) (e : ℕ) (l : Lexer) → (note_escape u at e l).rest ≡ l.rest
  unfolding note_escape errorf
  note_escape-rest at e l =
      if_cases (λ (m : Lexer). m.rest ≡ l.rest) (is_escape e) (λ _. refl) (λ _. refl)

  -- One more rune is consumed.
  consume_more :
      (r : ℕ) (rs : Text) {k l : Lexer} → l.rest ≡ r ∷ rs → Past k l → Past k (consume r rs l)
  consume_more r rs e (q, p, (c, split)) =
      let one = consume-Quiet r rs _ e in
      (
        Quiet-trans q one,
        omega (arith, Quiet-le one),
        (
          c ++ r ∷ [],
          split
              ∙ ap (λ s. b'"' ∷ (c ++ s)) (e ∙ ap (◌∷◌ r) (sym (consume-rest r rs _)))
              ∙ ap (◌∷◌ b'"') (sym (append_assoc c (r ∷ []) _)),
        ),
      )

  note_escape-Past : (at : Pos) (e : ℕ) {k l : Lexer} → Past k l → Past k (note_escape u at e l)
  note_escape-Past at e {l = l} (q, p, (c, split)) =
      let same = note_escape-rest at e l in
      (
        note_escape-Quiet at e q,
        omega (arith, ap length same),
        (c, split ∙ ap (λ s. b'"' ∷ (c ++ s)) (sym same)),
      )

  -- Whatever has been read, the loop ends the string with one token.
  lex_string_loop-Scanned :
      (s : Text) (start : Pos) (sb : Text) (k l : Lexer)
      → l.rest ≡ s
      → Past k l
      → Scanned u start k (lex_string_loop u s start sb l)
  unfolding lex_string_loop
  lex_string_loop-Scanned [] start sb k l e p = end_unterminated-Scanned start sb true p
  lex_string_loop-Scanned (r ∷ []) start sb k l e p =
      let p1 = consume_more r [] e p in
      if_cases (Scanned u start k) (r == b'\n') (λ _. end_unterminated-Scanned start sb false p)
        λ _.
          if_cases (Scanned u start k) (r == b'"') (λ _. string-Scanned sb start p1)
            λ _.
              if_cases (Scanned u start k) (r == b'\\')
                (λ _. end_unterminated-Scanned start sb true p1)
                λ _.
                  lex_string_loop-Scanned [] start (sb ++ r ∷ []) k (consume r [] l)
                    (consume-rest r [] l) p1
  lex_string_loop-Scanned (r ∷ e ∷ es) start sb k l h p =
      let l1 = consume r (e ∷ es) l in
      let h1 = consume-rest r (e ∷ es) l in
      let p1 = consume_more r (e ∷ es) h p in
      let l2 = note_escape u (here l) e (consume e es l1) in
      let h2 = note_escape-rest (here l) e (consume e es l1) ∙ consume-rest e es l1 in
      let p2 = note_escape-Past (here l) e (consume_more e es h1 p1) in
      if_cases (Scanned u start k) (r == b'\n') (λ _. end_unterminated-Scanned start sb false p)
        λ _.
          if_cases (Scanned u start k) (r == b'"') (λ _. string-Scanned sb start p1)
            λ _.
              if_cases (Scanned u start k) (r == b'\\')
                (λ _.
                  if_cases (Scanned u start k) (e == b'\n')
                    (λ _. end_unterminated-Scanned start sb false p1)
                    (λ _. lex_string_loop-Scanned es start (sb ++ unescape e ∷ []) k l2 h2 p2))
                (λ _. lex_string_loop-Scanned (e ∷ es) start (sb ++ r ∷ []) k l1 h1 p1)

  pub lex_string-Scanned :
      (start : Pos) (l : Lexer)
      → (peek l == b'"') ≡ true
      → 0 < length l.rest
      → Returns (Scanned u start l) (lex_string u start l)
  unfolding lex_string
  lex_string-Scanned start l seen more = Returns-bind (advance-TakesOne l more) λ (x, l') t.
      let opened : (c : Text) × (l.rest ≡ b'"' ∷ (c ++ l'.rest)) =
        ([], taken_rune l x b'"' l'.rest t.2 seen) in
      returns (lex_string_loop-Scanned l'.rest start [] l l' refl (t.0, omega (arith, t.1), opened))
