-- ===== src/Parser/Moves.antt =====
-- parser/parser.go: what the operations of the cursor do to the place, the tokens and the reports.
use domainscript.Prelude.{
  ℕ, suc, ◌+◌, ◌*◌, ◌≤◌, ◌<◌, ◌≡◌, refl, sym, ap, ◌∙◌, Bool, true, false, not, ◌&&◌, ◌||◌, ◌==◌,
  nat_eq, Text, List, [], ◌∷◌, length, length-append, if_cases, inl, inr, Bool-cases, All, arith,
  ltb, if◌then◌else◌,
}
use domainscript.Token.{Kind, Pos, kind_eq, eof, ident, rbrace}
use domainscript.Diag.{DiagnosticBag, Diagnostic, Severity, add, has_errors}
use domainscript.Diag
use domainscript.Diag.Invariant.{add_cases, Inv, add-Inv}
use domainscript.Diag.Collect.{add-has_errors}
use domainscript.Parser.Cursor.{
  Ahead, closing, more, head, tail, count, Parser, cur, peek, at, at_end, at_fat_arrow, advance,
  errorf, accept, expect, ensure_progress, match_any, expect_fat_arrow, parse_ident_name, contains,
  synchronize_on, synchronize,
}

-- An error that the window of silence may hold back was told before.
pub record Heard (p : Parser) : Type 0 where
  pub sound : Inv p.bag
  pub told : p.since_error < 2 → has_errors p.bag ≡ true

-- What of the window of silence still counts: behind two tokens, it is open.
abbrev pub window : Parser → ℕ
window p = if ltb p.since_error 2 then p.since_error else 2

-- No EOF stands before the closing one.
abbrev pub EofLast : Ahead → Type 0
EofLast (closing lit pos) = Unit
EofLast (more t a) = ((t.kind == eof) ≡ false) × EofLast a

-- From `p` the cursor has come to `q`: forward over the tokens, reporting at most once for every two
-- of them and of those that the window counts at `p`. No error is forgotten.
pub record Moved (p q : Parser) : Type 0 where
  pub left : count q.ahead ≤ count p.ahead
  pub same : count q.ahead ≡ count p.ahead → q.ahead ≡ p.ahead
  pub kept : q.pos + count q.ahead ≡ p.pos + count p.ahead
  pub quiet : 2 * length q.bag.items + window q + p.pos ≤ 2 * length p.bag.items + window p + q.pos
  pub clean : EofLast p.ahead → EofLast q.ahead
  pub heard : Heard p → Heard q
  pub louder : Heard p → has_errors p.bag ≡ true → has_errors q.bag ≡ true

-- The result of a function of the parser, with the parser that it leaves.
abbrev pub Ends {ℓ} : {A : Type ℓ} → Parser → A × Parser → Type 0
Ends p r = Moved p r.1

pub Moved-refl : (p : Parser) → Moved p p
Moved-refl p = record {
  left = omega arith;
  same = λ h. refl;
  kept = refl;
  quiet = omega arith;
  clean = λ h. h;
  heard = λ h. h;
  louder = λ h e. e;
}

pub Moved-trans : {p q r : Parser} → Moved p q → Moved q r → Moved p r
Moved-trans {p} {q} {r} m n = record {
  left = omega (arith, m.left, n.left);
  same = λ h. n.same (omega (arith, m.left, n.left, h)) ∙ m.same (omega (arith, m.left, n.left, h));
  kept = n.kept ∙ m.kept;
  quiet = omega (arith, m.quiet, n.quiet);
  clean = λ h. n.clean (m.clean h);
  heard = λ h. n.heard (m.heard h);
  louder = λ h e. n.louder (m.heard h) (m.louder h e);
}

count-tail : (a : Ahead) → ((head a).kind == eof) ≡ false → suc (count (tail a)) ≡ count a
count-tail (closing lit pos) h = absurd (ground arith)
count-tail (more t a) h = refl

EofLast-tail : (a : Ahead) → EofLast a → EofLast (tail a)
EofLast-tail (closing lit pos) h = tt
EofLast-tail (more t a) h = h.1

pub advance_strict : (p : Parser) → at_end p ≡ false → count (advance p).ahead < count p.ahead
unfolding advance
advance_strict p h = rw h (omega (arith, count-tail p.ahead h))

pub advance-Moved : (p : Parser) → Moved p (advance p)
unfolding advance
advance-Moved p =
    if_cases (Moved p) (at_end p) (λ h. Moved-refl p)
      λ h.
        let c = count-tail p.ahead h in
        record {
          left = omega (arith, c);
          same = λ e. absurd (omega (arith, c, e));
          kept = omega (arith, c);
          quiet = ground arith;
          clean = EofLast-tail p.ahead;
          heard = λ w. record { sound = w.sound; told = λ e. w.told (omega arith) };
          louder = λ w e. e;
        }

length-add : (b : DiagnosticBag) (d : Diagnostic) → length (add b d).items ≤ length b.items + 1
length-add b d =
    add_cases (λ c. length c.items ≤ length b.items + 1) b d (λ _. omega arith) (λ _ _. omega arith)
      (λ _ _ _. omega arith) (λ _ _ _. omega (arith, length-append b.items (d ∷ [])))

or_true : (b : Bool) → (b || true) ≡ true
or_true b = ground arith

length-errorf :
    (b : DiagnosticBag) (pos : Pos) (msg : Text)
    → length (Diag.errorf b pos msg).items ≤ length b.items + 1
unfolding Diag.errorf
length-errorf b pos msg = length-add b _

errorf-Inv : (b : DiagnosticBag) (pos : Pos) (msg : Text) → Inv b → Inv (Diag.errorf b pos msg)
unfolding Diag.errorf
errorf-Inv b pos msg i = add-Inv b _ i

pub errorf-has_errors :
    (b : DiagnosticBag) (pos : Pos) (msg : Text) → Inv b → has_errors (Diag.errorf b pos msg) ≡ true
unfolding Diag.errorf
errorf-has_errors b pos msg i =
    add-has_errors b (record { severity = Severity.error; pos = pos; msg = msg; code = [] }) i
    ∙ or_true (has_errors b)

pub errorf-Moved : (pos : Pos) (msg : Text) (p : Parser) → Moved p (errorf pos msg p)
unfolding errorf
errorf-Moved pos msg p =
    if_cases (Moved p) (ltb p.since_error 2) (λ h. Moved-refl p)
      λ h. record {
        left = omega arith;
        same = λ e. refl;
        kept = refl;
        quiet = ground (arith, length-errorf p.bag pos msg);
        clean = λ e. e;
        heard = λ w. record {
          sound = errorf-Inv p.bag pos msg w.sound;
          told = λ e. errorf-has_errors p.bag pos msg w.sound;
        };
        louder = λ w e. errorf-has_errors p.bag pos msg w.sound;
      }

-- The parser is not at its end where it is at another kind.
pub at-not_end : (k : Kind) (p : Parser) → (k == eof) ≡ false → at k p ≡ true → at_end p ≡ false
at-not_end k p h e = ap (λ j. j == eof) ((kind_eq.beq_iff (cur p).kind k).0 e) ∙ h

pub accept-Moved : (k : Kind) (p : Parser) → Moved p (accept k p).1
unfolding accept
accept-Moved k p = if_cases (Ends p) (at k p) (λ h. advance-Moved p) (λ h. Moved-refl p)

pub accept_strict :
    (k : Kind) (p : Parser)
    → (k == eof) ≡ false
    → (accept k p).0 ≡ true
    → count (accept k p).1.ahead < count p.ahead
unfolding accept
accept_strict k p n h = elim (Bool-cases (at k p)) [
  | inl e ↦ rw e (advance_strict p (at-not_end k p n e))
  | inr e ↦ absurd (let f = (rw e at h) in ground arith)
]

pub expect-Moved : (k : Kind) (p : Parser) → Moved p (expect k p).1
unfolding expect
expect-Moved k p =
    if_cases (Ends p) (at k p) (λ h. advance-Moved p)
      λ h.
        if_cases (Ends p) ((peek p).kind == k)
          (λ e. Moved-trans (errorf-Moved _ _ p) (Moved-trans (advance-Moved _) (advance-Moved _)))
          (λ e. errorf-Moved _ _ p)

pub expect_strict :
    (k : Kind) (p : Parser)
    → (k == eof) ≡ false
    → at k p ≡ true
    → count (expect k p).1.ahead < count p.ahead
unfolding expect
expect_strict k p n h = rw h (advance_strict p (at-not_end k p n h))

pub ensure_progress-Moved : (before : ℕ) (p : Parser) → Moved p (ensure_progress before p)
unfolding ensure_progress
ensure_progress-Moved before p =
    if_cases (Moved p) (p.pos == before && not (at_end p)) (λ h. advance-Moved p)
      (λ h. Moved-refl p)

-- At the end of a step of a loop, fewer tokens are left than at its start.
pub ensure_progress_strict :
    (p q : Parser)
    → Moved p q
    → at_end p ≡ false
    → count (ensure_progress p.pos q).ahead < count p.ahead
unfolding ensure_progress
ensure_progress_strict p q m h =
    if_cases (λ (r : Parser). count r.ahead < count p.ahead) (q.pos == p.pos && not (at_end q))
      (λ e. omega (arith, m.left, advance_strict q (ground arith)))
      (λ e. elim (Bool-cases (q.pos == p.pos)) [
        | inl s ↦
            let a : q.ahead ≡ p.ahead = m.same (ground (arith, m.kept)) in
            absurd (stuck (ground arith) a)
        | inr s ↦ ground (arith, m.left, m.kept)
      ])
  where
    stuck : at_end q ≡ true → q.ahead ≡ p.ahead → ⊥
    stuck e a = let f : true ≡ false = sym e ∙ ap (λ b. (head b).kind == eof) a ∙ h in ground arith

pub match_any-not_end :
    (ops : List Kind) (p : Parser)
    → All (λ k. (k == eof) ≡ false) ops
    → match_any ops p ≡ true
    → at_end p ≡ false
match_any-not_end [] p n h = absurd (ground arith)
match_any-not_end (o ∷ ops) p n h = elim (Bool-cases (at o p)) [
  | inl e ↦ at-not_end o p n.0 e
  | inr e ↦ match_any-not_end ops p n.1 (rw e at h)
]

pub expect_fat_arrow-Moved : (p : Parser) → Moved p (expect_fat_arrow p).1
unfolding expect_fat_arrow
expect_fat_arrow-Moved p =
    if_cases (Ends p) (at_fat_arrow p) (λ h. Moved-trans (advance-Moved p) (advance-Moved _))
      (λ h. errorf-Moved _ _ p)

pub parse_ident_name-Moved : (p : Parser) → Moved p (parse_ident_name p).1
unfolding parse_ident_name
parse_ident_name-Moved p =
    if_cases (Ends p) (at ident p) (λ h. advance-Moved p) (λ h. errorf-Moved _ _ p)

synchronize_on-Moved :
    (a : Ahead) (stop : List Kind) (p : Parser) → Moved p (synchronize_on a stop p)
unfolding synchronize_on
synchronize_on-Moved (closing lit pos) stop p = Moved-refl p
synchronize_on-Moved (more t a) stop p =
    if_cases (Moved p) (t.kind == eof || (t.kind == rbrace || contains stop t.kind))
      (λ h. Moved-refl p)
      (λ h. Moved-trans (advance-Moved p) (synchronize_on-Moved a stop (advance p)))

pub synchronize-Moved : (stop : List Kind) (p : Parser) → Moved p (synchronize stop p)
unfolding synchronize
synchronize-Moved stop p = synchronize_on-Moved p.ahead stop p
