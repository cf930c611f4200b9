-- ===== src/Lexer/Tokens.antt =====
-- lexer/lexer.go: what the scanning functions consume and emit.
use domainscript.Prelude.{
  ℕ, ◌&&◌, ◌<◌, ◌∷◌, sym, ap, ◌∙◌, nat_beq_iff, All, ◌≡◌, ◌⊎◌, inl, inr, refl, Bool, true, false,
  Option, [], Text, ◌==◌, nat_eq, length, arith, if◌then◌else◌, if_cases, Returns, returns,
  Returns-bind, Returns-if, not,
}
use domainscript.Token.{
  Kind, Pos, eof, kind_eq, versionid, lbrace, rbrace, lparen, rparen, lbrack, rbrack, comma, dot,
  colon, arrow, plus, minus, star, slash, assign, eq, neq, lt, gt, le, ge, ident, lookup_ident,
  is_keyword, kinds, is_literal,
}
use domainscript.Token.Keywords.{lookup_ident_member, lookup_ident_exact}
use domainscript.Lexer.State.{Lexer, peek, peek2, take_while_on}
use domainscript.Lexer.Operators.{operator1, operator2, operator_neq, lex_operator}
use domainscript.Lexer.Scan.{
  Unicode, is_ident_start, is_ident_part, is_version_id, lex_ident_or_keyword,
}
use domainscript.Lexer.Moves.{
  Scanned, Quiet-trans, advance-TakesOne, peek_nonempty, peek2_nonempty, emit-Scanned,
}
use domainscript.Lexer.Lexemes.{operator_runes}
use domainscript.Lexer.Steps.{take_while_on-splits, take_while_on-Quiet, take_while_on_progress}

start_is_part : (u : Unicode) (r : ℕ) → is_ident_start u r ≡ true → is_ident_part u r ≡ true
unfolding is_ident_start is_ident_part
start_is_part u r h = ground arith

-- The head of the text is none of the runes.
abbrev pub NotAmong : Lexer → Text → Type 0
NotAmong l = All (λ s. (peek l == s) ≡ false)

-- No `!=` begins here.
abbrev pub NoNeq : Lexer → Type 0
NoNeq l = (peek l == b'!' && peek2 l == b'=') ≡ false

-- An operator was scanned; or nothing has happened, and none begins here.
abbrev pub Tried : Unicode → Pos → Lexer → Bool × Lexer → Type 0
Tried u start l (known, l') =
    ((known ≡ true) × Scanned u start l l')
    ⊎ ((known ≡ false) × (l' ≡ l) × NotAmong l operator_runes × NoNeq l)

and_false : (c : Bool) {d : Bool} → d ≡ false → (c && d) ≡ false
and_false true h = h
and_false false h = refl

false_and : {c : Bool} (d : Bool) → c ≡ false → (c && d) ≡ false
false_and d h = rw h refl

-- The rune that is taken is the one that was seen.
pub taken_rune :
    (l : Lexer) (n r : ℕ) (rest : Text)
    → l.rest ≡ n ∷ rest
    → (peek l == r) ≡ true
    → l.rest ≡ r ∷ rest
taken_rune l n r rest e h =
    let seen : n == r ≡ true = rw e at h in e ∙ ap (λ k. k ∷ rest) ((nat_beq_iff n r).0 seen)

module _ (u : Unicode) (start : Pos) (l : Lexer) (more : 0 < length l.rest) where
  operator1-Tried :
      (k : Kind) (r : ℕ)
      → (k == eof) ≡ false
      → kinds k ≡ r ∷ []
      → (peek l == r) ≡ true
      → Returns (Tried u start l) (operator1 k start l)
  unfolding operator1
  operator1-Tried k r n spelled seen = Returns-bind (advance-TakesOne l more) λ (x, l') t. returns (
      inl (
        refl,
        emit-Scanned k [] start (r ∷ []) t.0 (omega (arith, t.1)) n
            (taken_rune l x r l'.rest t.2 seen) (inr (inl (refl, sym spelled))),
      ))

  operator2-Tried :
      (r c : ℕ) (long short : Kind)
      → 0 < c
      → (long == eof) ≡ false
      → (short == eof) ≡ false
      → kinds long ≡ r ∷ c ∷ []
      → kinds short ≡ r ∷ []
      → (peek l == r) ≡ true
      → Returns (Tried u start l) (operator2 c long short start l)
  unfolding operator2
  operator2-Tried r c long short p n m both one seen =
      Returns-bind (advance-TakesOne l more) λ (x, l') t.
        let head = taken_rune l x r l'.rest t.2 seen in
        Returns-if (peek l' == c)
          (λ s. Returns-bind (advance-TakesOne l' (peek_nonempty l' c p s)) λ (y, l'') t'. returns (
            inl (
              refl,
              emit-Scanned long [] start (r ∷ c ∷ []) (Quiet-trans t.0 t'.0)
                  (omega (arith, t.1, t'.1)) n
                  (head ∙ ap (◌∷◌ r) (taken_rune l' y c l''.rest t'.2 s))
                  (inr (inl (refl, sym both))),
            )))
          (λ _. returns (
            inl (
              refl,
              emit-Scanned short [] start (r ∷ []) t.0 (omega (arith, t.1)) m head
                  (inr (inl (refl, sym one))),
            )))

  operator_neq-Tried :
      (peek l == b'!') ≡ true
      → NotAmong l operator_runes
      → Returns (Tried u start l) (operator_neq start l)
  unfolding operator_neq
  operator_neq-Tried seen other =
      Returns-if (peek2 l == b'=')
        (λ s. Returns-bind (advance-TakesOne l more) λ (x, l') t.
          let head = taken_rune l x b'!' l'.rest t.2 seen in
          let next : (peek l' == b'=') ≡ true = rw t.2 at s in
          Returns-bind
            (advance-TakesOne l' (omega (arith, t.1, peek2_nonempty l b'=' (omega arith) s)))
            λ (y, l'') t'. returns (
              inl (
                refl,
                emit-Scanned neq [] start (b'!' ∷ b'=' ∷ []) (Quiet-trans t.0 t'.0)
                    (omega (arith, t.1, t'.1)) refl
                    (head ∙ ap (◌∷◌ b'!') (taken_rune l' y b'=' l''.rest t'.2 next))
                    (inr (inl (refl, refl))),
              )))
        (λ alone. returns (inr (refl, refl, other, and_false (peek l == b'!') alone)))

  -- One test of the ladder; where it fails, the next one knows.
  one :
      (k : Kind) (r : ℕ) {x : Option (Bool × Lexer)}
      → (k == eof) ≡ false
      → kinds k ≡ r ∷ []
      → ((peek l == r) ≡ false → Returns (Tried u start l) x)
      → Returns (Tried u start l) (if peek l == r then operator1 k start l else x)
  one k r n spelled h = Returns-if (peek l == r) (operator1-Tried k r n spelled) h

  two :
      (r s : ℕ) (long short : Kind) {x : Option (Bool × Lexer)}
      → 0 < s
      → (long == eof) ≡ false
      → (short == eof) ≡ false
      → kinds long ≡ r ∷ s ∷ []
      → kinds short ≡ r ∷ []
      → ((peek l == r) ≡ false → Returns (Tried u start l) x)
      → Returns (Tried u start l) (if peek l == r then operator2 s long short start l else x)
  two r s long short p n m both single h =
      Returns-if (peek l == r) (operator2-Tried r s long short p n m both single) h

  -- Another rune is not the one that is seen.
  other_rune : (r s : ℕ) → (peek l == r) ≡ true → (r == s) ≡ false → (peek l == s) ≡ false
  other_rune r s h d = rw ((nat_beq_iff (peek l) r).0 h) d

  pub lex_operator-Tried : Returns (Tried u start l) (lex_operator start l)
  unfolding lex_operator
  lex_operator-Tried = one lbrace b'{' refl refl λ n0. one rbrace b'}' refl refl λ n1.
      one lparen b'(' refl refl λ n2. one rparen b')' refl refl λ n3.
        one lbrack b'[' refl refl λ n4. one rbrack b']' refl refl λ n5.
          one comma b',' refl refl λ n6. one dot b'.' refl refl λ n7. one colon b':' refl refl λ n8.
            one plus b'+' refl refl λ n9. one star b'*' refl refl λ n10.
              one slash b'/' refl refl λ n11.
                two b'-' b'>' arrow minus (omega arith) refl refl refl refl λ n12.
                  two b'=' b'=' eq assign (omega arith) refl refl refl refl λ n13.
                    let past : (peek l == b'<') ≡ false
                        → (peek l == b'>') ≡ false
                        → NotAmong l operator_runes =
                      λ n14 n15. (
                        n0,
                        (
                          n1,
                          (
                            n2,
                            (
                              n3,
                              (
                                n4,
                                (
                                  n5,
                                  (
                                    n6,
                                    (n7, (n8, (n9, (n10, (n11, (n12, (n13, (n14, (n15, tt))))))))),
                                  ),
                                ),
                              ),
                            ),
                          ),
                        ),
                      ) in
                    Returns-if (peek l == b'!')
                      (λ s.
                        operator_neq-Tried s
                          (past (other_rune b'!' b'<' s refl) (other_rune b'!' b'>' s refl)))
                      λ no_bang. two b'<' b'=' le lt (omega arith) refl refl refl refl λ n14.
                        two b'>' b'=' ge gt (omega arith) refl refl refl refl
                          λ n15. returns (inr (refl, refl, past n14 n15, false_and _ no_bang))

keyword-ne-eof : (k : Kind) → is_keyword k ≡ true → (k == eof) ≡ false
unfolding is_keyword
keyword-ne-eof k h = ground arith

lookup_ident-ne-eof : (s : Text) → (lookup_ident s == eof) ≡ false
lookup_ident-ne-eof s = elim (lookup_ident_member s) [
  | inl e ↦ rw e refl
  | inr k ↦ keyword-ne-eof (lookup_ident s) k
]

-- A keyword is spelled as it is looked up.
spelled_keyword : (s : Text) → not (lookup_ident s == ident) ≡ true → s ≡ kinds (lookup_ident s)
spelled_keyword s h = elim (lookup_ident_member s) [
  | inl e ↦ absurd (cc (rw e at h))
  | inr k ↦ (lookup_ident_exact s (lookup_ident s) k).0.0 refl
]

module _ (u : Unicode) (start : Pos) (l : Lexer) where
  pub lex_ident_or_keyword-Scanned :
      is_ident_start u (peek l) ≡ true
      → 0 < length l.rest
      → Scanned u start l (lex_ident_or_keyword u start l)
  unfolding lex_ident_or_keyword is_literal
  lex_ident_or_keyword-Scanned h more =
      let text = (take_while_on (is_ident_part u) l.rest l).0 in
      let q = take_while_on-Quiet (is_ident_part u) l.rest l refl in
      let e = take_while_on-splits (is_ident_part u) l.rest l refl in
      let p =
        take_while_on_progress (is_ident_part u) l.rest l refl (start_is_part u (peek l) h) more in
      if_cases (Scanned u start l) (is_version_id text)
        (λ _. emit-Scanned versionid text start text q p refl e (inl (refl, refl, refl)))
        (λ _.
          if_cases (Scanned u start l) (not (lookup_ident text == ident))
            (λ k.
              emit-Scanned (lookup_ident text) [] start text q p (lookup_ident-ne-eof text) e
                (inr (inl (refl, spelled_keyword text k))))
            (λ _. emit-Scanned ident text start text q p refl e (inl (refl, refl, refl))))
