-- ===== src/Parser/Decls/Files/Totality.antt =====
-- parser/parse_decl.go: that every file parses, and where its parser ends.
use domainscript.Prelude.{
  ℕ, zero, suc, ◌+◌, ◌*◌, ◌≤◌, ◌<◌, ◌≡◌, refl, ◌||◌, ◌==◌, Bool, true, false, not, ◌&&◌, List, [],
  ◌∷◌, Option, some, none, length, arith, subst, sym, Returns, returns, Returns-bind, Returns-mono,
  Returns-if, Returns-value, if_cases, text_eq, codes, Bool-cases, inl, inr,
}
use domainscript.Prelude
use domainscript.Token.{
  Token, Kind, kind_eq, eof, valueobject, enum, error, event, publicevent, upcast, aggregate,
  command, usecase, view, projection, query, policy, worker, notification, adapter, foreign, saga,
  metric, module_kw, interface, topology, version, test, fixture,
}
use domainscript.Diag.{DiagnosticBag}
use domainscript.Ast.Files.{Decl, File}
use domainscript.Parser.Cursor.{
  Parser, count, at, at_end, close, close_last, new_parser, synchronize, top_level_stop,
}
use domainscript.Parser.Operands.{Parse}
use domainscript.Parser.Moves.{Ends, synchronize-Moved}
use domainscript.Parser.Sequence.{
  at_ident_lit, loop, members, mark, close_span, gets, pure, ◌⟶◌∣◌, ◌>>=◌,
}
use domainscript.Parser.Sequence.Reads.{Reads, Reads-run, Reads-case, read_rules}
use domainscript.Parser.Decls.Domain.{
  parse_value_object-Reads, parse_enum-Reads, parse_error_type-Reads, parse_event-Reads,
  parse_command-Reads, parse_notification-Reads,
}
use domainscript.Parser.Decls.Behaviour.{parse_aggregate-Reads, parse_use_case-Reads}
use domainscript.Parser.Decls.ReadSide.{parse_view-Reads, parse_projection-Reads, parse_query-Reads}
use domainscript.Parser.Decls.Reactions.{parse_policy-Reads, parse_worker-Reads, parse_saga-Reads}
use domainscript.Parser.Decls.Integration.{
  parse_adapter-Reads, parse_foreign-Reads, parse_metric-Reads, parse_upcast-Reads,
}
use domainscript.Parser.Decls.Infrastructure.{
  parse_module-Reads, parse_interface-Reads, parse_topology-Reads, parse_rate_limit_tier-Reads,
}
use domainscript.Parser.Decls.Versions.{parse_version_decl-Reads}
use domainscript.Parser.Decls.TestFiles.Endings.{parse_test-Reads, parse_fixture-Reads}
use domainscript.Parser.Decls.Files.{recover_decl, parse_decl, file_member, parse_file, parse}

module _ {n : ℕ} where
  infixr 2 ◌⟹◌∣◌
  abbrev ◌⟹◌∣◌ :
      {A : Type 0} (c : Parser → Bool) {x y : Parse A} → Reads n x → Reads n y → Reads n (c ⟶ x ∣ y)
  c ⟹ rx ∣ ry = Reads-case c _ _ rx ry

  recover_decl-Reads : Reads n recover_decl
  unfolding recover_decl
  recover_decl-Reads =
      search
        (
          read_rules,
          Reads-run (λ p. (tt {0}, synchronize top_level_stop p))
              (synchronize-Moved top_level_stop),
        )
        depth 40

  parse_decl-Reads : Reads n parse_decl
  unfolding parse_decl
  parse_decl-Reads =
      at valueobject
      ⟹ parse_value_object-Reads ∣ at enum
      ⟹ parse_enum-Reads ∣ at error
      ⟹ parse_error_type-Reads ∣ (λ p. at event p || at publicevent p)
      ⟹ parse_event-Reads ∣ at aggregate
      ⟹ parse_aggregate-Reads ∣ at command
      ⟹ parse_command-Reads ∣ at usecase
      ⟹ parse_use_case-Reads ∣ at view
      ⟹ parse_view-Reads ∣ at projection
      ⟹ parse_projection-Reads ∣ at query
      ⟹ parse_query-Reads ∣ at policy
      ⟹ parse_policy-Reads ∣ at worker
      ⟹ parse_worker-Reads ∣ at notification
      ⟹ parse_notification-Reads ∣ at adapter
      ⟹ parse_adapter-Reads ∣ at foreign
      ⟹ parse_foreign-Reads ∣ at saga
      ⟹ parse_saga-Reads ∣ at metric
      ⟹ parse_metric-Reads ∣ at upcast
      ⟹ parse_upcast-Reads ∣ at module_kw
      ⟹ parse_module-Reads ∣ at interface
      ⟹ parse_interface-Reads ∣ at topology
      ⟹ parse_topology-Reads ∣ at version
      ⟹ parse_version_decl-Reads ∣ at_ident_lit "RateLimitTier"
      ⟹ parse_rate_limit_tier-Reads ∣ at test
      ⟹ parse_test-Reads ∣ at fixture
      ⟹ parse_fixture-Reads ∣ recover_decl-Reads

  file_member-Reads : (ds : List Decl) → Reads n (file_member ds)
  unfolding file_member
  file_member-Reads ds = search (read_rules, parse_decl-Reads) depth 40

  pub parse_file-Reads : Reads n parse_file
  unfolding parse_file
  parse_file-Reads = search (read_rules, file_member-Reads) depth 40

-- Every declaration parses, further on.
pub parse_decl-Ends : (p : Parser) → Returns (Ends p) (parse_decl p)
parse_decl-Ends p = (parse_decl-Reads {n = suc (count p.ahead)}).fits p (omega arith)

pub bind_some :
    {A B : Type 0} (o : Option A) (f : A → Option B) {b : B}
    → Prelude.◌>>=◌ o f ≡ some b
    → (a : A) × (o ≡ some a) × (f a ≡ some b)
bind_some none f h = cc
bind_some (some a) f h = (a, refl, h)

-- A loop leaves where its test fails.
loop-exit :
    {S : Type 0} (stop : Kind) (body : S → Parse S) (f : ℕ) (s : S) (p : Parser) (r : S × Parser)
    → loop stop body f s p ≡ some r
    → (not (at stop r.1) && not (at_end r.1)) ≡ false
unfolding loop
loop-exit stop body zero s p r h = cc
loop-exit stop body (suc f) s p r h = elim (Bool-cases (not (at stop p) && not (at_end p))) [
  | inl e ↦
      let (x, ran, rest) = bind_some (body s p) _ (rw e at h) in loop-exit stop body f x.0 _ r rest
  | inr e ↦
      let left : some (s, p) ≡ some r = rw e at h in
      let same : (s, p) ≡ r = cc left in
      subst (λ (x : _). (not (at stop x.1) && not (at_end x.1)) ≡ false) same e
]

both_not : (b : Bool) → (not b && not b) ≡ false → b ≡ true
both_not true h = refl
both_not false h = cc

-- `parseFile` stops at an EOF.
pub parse_file-at_end : (p : Parser) (r : File × Parser) → parse_file p ≡ some r → at_end r.1 ≡ true
unfolding parse_file ◌>>=◌ mark gets members close_span pure
parse_file-at_end p r h =
    let (x, found, rest) = bind_some (loop eof file_member (suc (count p.ahead)) [] p) _ h in
    let stop = loop-exit eof file_member (suc (count p.ahead)) [] p x found in
    let left : x.1 ≡ r.1 = cc rest in subst (λ (q : Parser). at_end q ≡ true) left (both_not _ stop)

count-close_last : (t : Token) (b : Bool) → count (close_last t b) ≤ 1
count-close_last t true = omega arith
count-close_last t false = omega arith

pub count-close : (toks : List Token) → count (close toks) ≤ length toks
count-close [] = omega arith
count-close (t ∷ []) = count-close_last t (t.kind == eof)
count-close (t ∷ s ∷ ts) = omega (arith, count-close (s ∷ ts))

-- `Parse` returns on every list of tokens, well formed or not; the parser has then come to an EOF,
-- which need not be the last token of the list; and it has added at most one diagnostic to the bag,
-- and one more for every two tokens of the list: errors of syntax do not cascade.
pub parse_total :
    (toks : List Token) (bag : DiagnosticBag)
    → Returns
        (λ r.
          (at_end r.1 ≡ true) × (2 * length r.1.bag.items ≤ 2 * length bag.items + 2 + length toks))
        (parse toks bag)
unfolding parse new_parser
parse_total toks bag =
    let p = new_parser toks bag in
    let (r, e, m) =
      Returns-value ((parse_file-Reads {n = suc (count p.ahead)}).fits p (omega arith)) in
    subst (Returns _) (sym e)
      (returns (parse_file-at_end p r e, omega (arith, m.quiet, m.kept, count-close toks)))
