-- ===== src/Parser/Decls/Fields/RoundTrip.antt =====
-- parser/parse_decl.go: types that are written out as tokens, and what `parseTypeRef` reads of them.
use domainscript.Prelude.{
  ℕ, zero, suc, ◌+◌, ◌≤◌, ◌<◌, ◌≡◌, refl, ap, ◌∙◌, false, List, [], ◌∷◌, some, Text, ◌==◌, nat_eq,
  arith,
}
use domainscript.Token.{Token, Pos, Kind, kind_eq, ident, lt, gt, comma}
use domainscript.Ast.{nowhere}
use domainscript.Ast.Decls.{TypeRef, TypeRefs, type_ref, no_types, type_cons}
use domainscript.Parser.Cursor.{
  Ahead, more, head, count, Parser, accept, expect, advance, ensure_progress,
}
use domainscript.Parser.Operands.{Parse}
use domainscript.Parser.Sequence.{
  pure, run, gets, ◌⟶◌∣◌, ◌>>=◌, mark, close_span, skip, take_lit, comma_loop, comma_list,
}
use domainscript.Parser.Decls.Fields.{
  parse_name, types_of, type_level, type_grammar, parse_type_ref,
}

-- The type without its places.
abbrev mutual
  pub unspanned : TypeRef → TypeRef
  unspanned (type_ref s n ts) = type_ref nowhere n (unspanned_all ts)

  pub unspanned_all : TypeRefs → TypeRefs
  unspanned_all no_types = no_types
  unspanned_all (type_cons t ts) = type_cons (unspanned t) (unspanned_all ts)

-- The tokens of a type, all at one place, in front of what follows: its name, and its arguments in
-- angle brackets, with commas between them.
module _ (pos : Pos) where
  abbrev token : Kind → Text → Token
  token k lit = record { kind = k; lit = lit; pos = pos }

  abbrev mutual
    pub write : TypeRef → Ahead → Ahead
    write (type_ref s n no_types) a = more (token ident n) a
    write (type_ref s n (type_cons t ts)) a =
        more (token ident n) (more (token lt []) (write t (write_more ts a)))

    pub write_more : TypeRefs → Ahead → Ahead
    write_more no_types a = more (token gt []) a
    write_more (type_cons t ts) a = more (token comma []) (write t (write_more ts a))

-- How many tokens these are.
abbrev mutual
  weight : TypeRef → ℕ
  weight (type_ref s n no_types) = 1
  weight (type_ref s n (type_cons t ts)) = 2 + weight t + weight_more ts

  weight_more : TypeRefs → ℕ
  weight_more no_types = 1
  weight_more (type_cons t ts) = 1 + weight t + weight_more ts

abbrev over : Parser → Ahead → Parser
over p a = record p { ahead = a }

-- The function reads the type off the tokens and leaves what follows, with nothing to report.
record Read {A : Type 0} (m : Parse A) (p : Parser) (a rest : Ahead) (P : A → Type 0) : Type 0 where
  value : A
  end : Parser
  gives : m (over p a) ≡ some (value, over end rest)
  right : P value
  quiet : end.bag ≡ p.bag
  moved : p.pos < end.pos

abbrev IsType : TypeRef → TypeRef → Type 0
IsType t u = unspanned u ≡ unspanned t

abbrev AreTypes : TypeRefs → List TypeRef → Type 0
AreTypes ts us = unspanned_all (types_of us) ≡ unspanned_all ts

mutual
  count-write : (pos : Pos) (t : TypeRef) (a : Ahead) → count (write pos t a) ≡ weight t + count a
  count-write pos (type_ref s n no_types) a = omega arith
  count-write pos (type_ref s n (type_cons t ts)) a =
      omega (arith, count-write pos t (write_more pos ts a), count-write_more pos ts a)

  count-write_more :
      (pos : Pos) (ts : TypeRefs) (a : Ahead)
      → count (write_more pos ts a) ≡ weight_more ts + count a
  count-write_more pos no_types a = omega arith
  count-write_more pos (type_cons t ts) a =
      omega (arith, count-write pos t (write_more pos ts a), count-write_more pos ts a)

write-ident : (pos : Pos) (t : TypeRef) (a : Ahead) → (head (write pos t a)).kind ≡ ident
write-ident pos (type_ref s n no_types) a = refl
write-ident pos (type_ref s n (type_cons t ts)) a = refl

later : (a b : ℕ) → b < a → ((a + 1) == b) ≡ false
later a b h = ground arith

module _ (pos : Pos) where
  -- The parser behind a token of that place.
  abbrev past : Parser → Parser
  past p = record p { pos = p.pos + 1; last_pos = pos; since_error = p.since_error + 1 }

  -- A type with no argument, in front of what is no `<`.
  bare-Read :
      (nested : Parse TypeRef) (s : _) (name : Text) (p : Parser) (rest : Ahead)
      → ((head rest).kind == lt) ≡ false
      → Read
          (type_level nested)
          p
          (write pos (type_ref s name no_types) rest)
          rest
          (IsType (type_ref s name no_types))
  unfolding type_level parse_name take_lit run ◌⟶◌∣◌ ◌>>=◌ mark gets close_span pure skip advance
  bare-Read nested s name p rest k = record {
    value = type_ref (record { start = pos; end = pos }) name no_types;
    end = past p;
    gives = rw k refl;
    right = refl;
    quiet = refl;
    moved = omega arith;
  }

  -- A type with arguments, once the list of them is read.
  applied-Read :
      (nested : Parse TypeRef) (s : _) (name : Text) (t : TypeRef) (ts : TypeRefs) (p : Parser)
      (rest : Ahead)
      → Read
          (comma_list gt nested)
          (past (past p))
          (write pos t (write_more pos ts rest))
          (more (token pos gt []) rest)
          (AreTypes (type_cons t ts))
      → Read
          (type_level nested)
          p
          (write pos (type_ref s name (type_cons t ts)) rest)
          rest
          (IsType (type_ref s name (type_cons t ts)))
  unfolding type_level parse_name take_lit run ◌⟶◌∣◌ ◌>>=◌ mark gets close_span pure skip expect
      advance
  applied-Read nested s name t ts p rest r = record {
    value = type_ref (record { start = pos; end = pos }) name (types_of r.value);
    end = past r.end;
    gives = rw r.gives refl;
    right = ap (type_ref nowhere name) r.right;
    quiet = r.quiet;
    moved = omega (arith, r.moved);
  }

  module _ (item : Parse TypeRef) (f : ℕ) (t : TypeRef) (p : Parser) (rest : Ahead) where
    -- The last item of a list.
    last-Read :
        Read item p
          (write pos t (more (token pos gt []) rest))
          (more (token pos gt []) rest)
          (IsType t)
        → Read
            (comma_loop gt item (suc f))
            p
            (write pos t (more (token pos gt []) rest))
            (more (token pos gt []) rest)
            (AreTypes (type_cons t no_types))
    unfolding comma_loop accept
    last-Read r = record {
      value = r.value ∷ [];
      end = r.end;
      gives = rw (write-ident pos t (more (token pos gt []) rest), r.gives) refl;
      right = ap (λ u. type_cons u no_types) r.right;
      quiet = r.quiet;
      moved = r.moved;
    }

    -- An item, the comma behind it, and the items after that.
    more-Read :
        (u : TypeRef) (us : TypeRefs)
        → Read item p
            (write pos t (write_more pos (type_cons u us) rest))
            (write_more pos (type_cons u us) rest)
            (IsType t)
        → ((q : Parser)
            → Read
                (comma_loop gt item f)
                q
                (write pos u (write_more pos us rest))
                (more (token pos gt []) rest)
                (AreTypes (type_cons u us)))
        → Read
            (comma_loop gt item (suc f))
            p
            (write pos t (write_more pos (type_cons u us) rest))
            (more (token pos gt []) rest)
            (AreTypes (type_cons t (type_cons u us)))
    unfolding comma_loop accept ensure_progress advance
    more-Read u us r next =
        let q = past r.end in
        let l = next q in
        record {
          value = r.value ∷ l.value;
          end = l.end;
          gives =
              rw
                (
                  write-ident pos t (write_more pos (type_cons u us) rest),
                  r.gives,
                  later r.end.pos p.pos r.moved,
                  l.gives,
                )
                refl;
          right = λ i. type_cons (r.right i) (l.right i);
          quiet = l.quiet ∙ r.quiet;
          moved = omega (arith, r.moved, l.moved);
        }

  level-Read :
      (n : ℕ) (P : TypeRef → Type 0) (p : Parser) (a rest : Ahead)
      → Read (type_level (type_grammar n)) p a rest P
      → Read (type_grammar (suc n)) p a rest P
  unfolding type_grammar
  level-Read n P p a rest r = r

  list-Read :
      (n : ℕ) (P : List TypeRef → Type 0) (p : Parser) (a rest : Ahead)
      → Read (comma_loop gt (type_grammar n) (suc (count a))) p a rest P
      → Read (comma_list gt (type_grammar n)) p a rest P
  unfolding comma_list
  list-Read n P p a rest r = record {
    value = r.value;
    end = r.end;
    gives = r.gives;
    right = r.right;
    quiet = r.quiet;
    moved = r.moved;
  }

  -- With a level for each token, the type is read in front of whatever is no `<`.
  abbrev Reader : ℕ → TypeRef → Type 0
  Reader n t =
      (p : Parser) (rest : Ahead)
      → ((head rest).kind == lt) ≡ false
      → Read (type_grammar n) p (write pos t rest) rest (IsType t)

  mutual
    grammar-Reader : (t : TypeRef) (n : ℕ) → weight t ≤ n → Reader n t
    grammar-Reader (type_ref s name no_types) zero h p rest k = absurd (omega arith)
    grammar-Reader (type_ref s name no_types) (suc n) h p rest k =
        level-Read n _ p _ _ (bare-Read (type_grammar n) s name p rest k)
    grammar-Reader (type_ref s name (type_cons t ts)) zero h p rest k = absurd (omega arith)
    grammar-Reader (type_ref s name (type_cons t ts)) (suc n) h p rest k = level-Read n _ p _ _ (
        applied-Read (type_grammar n) s name t ts p rest (
          list-Read n _ _ _ _ (
            loop-Read ts t n _ (grammar-Reader t n (omega (arith, h))) (omega (arith, h))
              (omega
                (arith, count-write pos t (write_more pos ts rest), count-write_more pos ts rest))
              (past (past p)) rest)))

    loop-Read :
        (ts : TypeRefs) (t : TypeRef) (n f : ℕ)
        → Reader n t
        → weight_more ts ≤ n
        → weight_more ts ≤ f
        → (p : Parser) (rest : Ahead)
        → Read
            (comma_loop gt (type_grammar n) f)
            p
            (write pos t (write_more pos ts rest))
            (more (token pos gt []) rest)
            (AreTypes (type_cons t ts))
    loop-Read no_types t n zero read h k p rest = absurd (omega arith)
    loop-Read no_types t n (suc f) read h k p rest =
        last-Read (type_grammar n) f t p rest (read p (more (token pos gt []) rest) refl)
    loop-Read (type_cons u us) t n zero read h k p rest = absurd (omega arith)
    loop-Read (type_cons u us) t n (suc f) read h k p rest =
        more-Read (type_grammar n) f t p rest u us
          (read p (write_more pos (type_cons u us) rest) refl)
          λ q.
            loop-Read us u n f (grammar-Reader u n (omega (arith, h))) (omega (arith, h))
              (omega (arith, k)) q rest

-- `parseTypeRef` reads a type that is written out, however its arguments nest, off the front of any
-- tokens that do not go on with a `<`: it gives that type, up to the places, leaves what follows, and
-- reports nothing.
pub parse_type_ref-write :
    (pos : Pos) (t : TypeRef) (p : Parser) (rest : Ahead)
    → ((head rest).kind == lt) ≡ false
    → (u : TypeRef) × (q : Parser) × (parse_type_ref (record p { ahead = write pos t rest })
        ≡ some (u, q))
      × (unspanned u ≡ unspanned t)
      × (q.ahead ≡ rest)
      × (q.bag ≡ p.bag)
unfolding parse_type_ref
parse_type_ref-write pos t p rest k =
    let n = suc (count (write pos t rest)) in
    let r = grammar-Reader pos t n (omega (arith, count-write pos t rest)) p rest k in
    (r.value, over r.end rest, r.gives, r.right, refl, r.quiet)
