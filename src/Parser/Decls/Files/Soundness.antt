-- ===== src/Parser/Decls/Files/Soundness.antt =====
-- parser/parse_decl.go: where the file has a node of error.
use domainscript.Prelude.{
  ℕ, zero, suc, ◌≡◌, sym, ap, ◌∙◌, Bool, true, false, not, ◌&&◌, ◌||◌, List, [], ◌∷◌, ◌++◌, ltb,
  ltb→lt, nat_eq, text_eq, Text, codes, some, if_cases, Bool-cases, inl, inr, arith, subst,
  Returns-value,
}
use domainscript.Token.{
  Token, Pos, kind_eq, kind_string, eof, valueobject, enum, error, event, publicevent, upcast,
  aggregate, command, usecase, view, projection, query, policy, worker, notification, adapter,
  foreign, saga, metric, module_kw, interface, topology, version, test, fixture,
}
use domainscript.Diag.{DiagnosticBag, has_errors}
use domainscript.Diag
use domainscript.Diag.Invariant.{new-Inv}
use domainscript.Ast.Files.{Decl, error_decl, File}
use domainscript.Parser.Cursor.{Parser, cur, at, errorf, synchronize, top_level_stop, new_parser}
use domainscript.Parser.Operands.{Parse}
use domainscript.Parser.Sequence.{
  pure, run, ◌⟶◌∣◌, ◌>>=◌, mark, close_span, complain, at_ident_lit, members, append,
}
use domainscript.Parser.Decls.Domain.{
  parse_value_object, parse_enum, parse_error_type, parse_event, parse_command, parse_notification,
}
use domainscript.Parser.Decls.Behaviour.{parse_aggregate, parse_use_case}
use domainscript.Parser.Decls.ReadSide.{parse_view, parse_projection, parse_query}
use domainscript.Parser.Decls.Reactions.{parse_policy, parse_worker, parse_saga}
use domainscript.Parser.Decls.Integration.{parse_adapter, parse_foreign, parse_metric, parse_upcast}
use domainscript.Parser.Decls.Infrastructure.{
  parse_module, parse_interface, parse_topology, parse_rate_limit_tier,
}
use domainscript.Parser.Decls.Versions.{parse_version_decl}
use domainscript.Parser.Decls.TestFiles.{parse_test, parse_fixture}
use domainscript.Parser.Cursor.{ensure_progress, default_silence_window, at_end, count}
use domainscript.Parser.Sequence.{gets, loop}
use domainscript.Parser.Moves.{
  Moved, Ends, Heard, errorf-Moved, errorf-has_errors, synchronize-Moved, ensure_progress-Moved,
}
use domainscript.Parser.Decls.Files.{recover_decl, parse_decl, file_member, parse_file, parse}
use domainscript.Parser.Decls.Files.Totality.{parse_decl-Ends, bind_some}

abbrev pub is_error_decl : Decl → Bool
is_error_decl (error_decl s) = true
is_error_decl d = false

abbrev pub any_error_decl : List Decl → Bool
any_error_decl [] = false
any_error_decl (d ∷ ds) = is_error_decl d || any_error_decl ds

-- What `m` gives is no node of error.
record Declares (m : Parse Decl) : Type 0 where
  declared : (p : Parser) (r : Decl × Parser) → m p ≡ some r → is_error_decl r.0 ≡ false

Declares-pure : (d : Decl) → is_error_decl d ≡ false → Declares (pure d)
unfolding pure
Declares-pure d h = record {
  declared = λ p r e. subst (λ (x : Decl). is_error_decl x ≡ false) (cc e) h;
}

Declares-bind :
    {A : Type 0} (m : Parse A) (f : A → Parse Decl)
    → ((a : A) → Declares (f a))
    → Declares (m >>= f)
unfolding ◌>>=◌
Declares-bind m f df = record {
  declared = λ p r e. let (x, ran, rest) = bind_some (m p) _ e in (df x.0).declared x.1 r rest;
}

ruleset declare_rules = (Declares-pure, Declares-bind)

parse_value_object-Declares : Declares parse_value_object
unfolding parse_value_object
parse_value_object-Declares = search declare_rules depth 40

parse_enum-Declares : Declares parse_enum
unfolding parse_enum
parse_enum-Declares = search declare_rules depth 40

parse_error_type-Declares : Declares parse_error_type
unfolding parse_error_type
parse_error_type-Declares = search declare_rules depth 40

parse_event-Declares : Declares parse_event
unfolding parse_event
parse_event-Declares = search declare_rules depth 40

parse_aggregate-Declares : Declares parse_aggregate
unfolding parse_aggregate
parse_aggregate-Declares = search declare_rules depth 40

parse_command-Declares : Declares parse_command
unfolding parse_command
parse_command-Declares = search declare_rules depth 40

parse_use_case-Declares : Declares parse_use_case
unfolding parse_use_case
parse_use_case-Declares = search declare_rules depth 40

parse_view-Declares : Declares parse_view
unfolding parse_view
parse_view-Declares = search declare_rules depth 40

parse_projection-Declares : Declares parse_projection
unfolding parse_projection
parse_projection-Declares = search declare_rules depth 40

parse_query-Declares : Declares parse_query
unfolding parse_query
parse_query-Declares = search declare_rules depth 40

parse_policy-Declares : Declares parse_policy
unfolding parse_policy
parse_policy-Declares = search declare_rules depth 40

parse_worker-Declares : Declares parse_worker
unfolding parse_worker
parse_worker-Declares = search declare_rules depth 40

parse_notification-Declares : Declares parse_notification
unfolding parse_notification
parse_notification-Declares = search declare_rules depth 40

parse_adapter-Declares : Declares parse_adapter
unfolding parse_adapter
parse_adapter-Declares = search declare_rules depth 40

parse_foreign-Declares : Declares parse_foreign
unfolding parse_foreign
parse_foreign-Declares = search declare_rules depth 40

parse_saga-Declares : Declares parse_saga
unfolding parse_saga
parse_saga-Declares = search declare_rules depth 40

parse_metric-Declares : Declares parse_metric
unfolding parse_metric
parse_metric-Declares = search declare_rules depth 40

parse_upcast-Declares : Declares parse_upcast
unfolding parse_upcast
parse_upcast-Declares = search declare_rules depth 40

parse_module-Declares : Declares parse_module
unfolding parse_module
parse_module-Declares = search declare_rules depth 40

parse_interface-Declares : Declares parse_interface
unfolding parse_interface
parse_interface-Declares = search declare_rules depth 40

parse_topology-Declares : Declares parse_topology
unfolding parse_topology
parse_topology-Declares = search declare_rules depth 40

parse_version_decl-Declares : Declares parse_version_decl
unfolding parse_version_decl
parse_version_decl-Declares = search declare_rules depth 40

parse_rate_limit_tier-Declares : Declares parse_rate_limit_tier
unfolding parse_rate_limit_tier
parse_rate_limit_tier-Declares = search declare_rules depth 40

parse_test-Declares : Declares parse_test
unfolding parse_test
parse_test-Declares = search declare_rules depth 40

parse_fixture-Declares : Declares parse_fixture
unfolding parse_fixture
parse_fixture-Declares = search declare_rules depth 40

-- A node of error comes with an error in the bag, told before or now.
record Reports (m : Parse Decl) : Type 0 where
  reported :
      (p : Parser) (r : Decl × Parser)
      → Heard p
      → m p ≡ some r
      → is_error_decl r.0 ≡ true
      → has_errors r.1.bag ≡ true

Reports-case : (c : Parser → Bool) (x y : Parse Decl) → Declares x → Reports y → Reports (c ⟶ x ∣ y)
unfolding ◌⟶◌∣◌
Reports-case c x y dx ry = record {
  reported = λ p r w e b. elim (Bool-cases (c p)) [
    | inl t ↦ absurd (clash (sym b ∙ dx.declared p r (rw t at e)))
    | inr f ↦ ry.reported p r w (rw f at e) b
  ];
}
  where
    clash : true ≡ false → ⊥
    clash h = cc

infixr 2 ◌⟹◌∣◌
abbrev ◌⟹◌∣◌ : (c : Parser → Bool) {x y : Parse Decl} → Declares x → Reports y → Reports (c ⟶ x ∣ y)
◌⟹◌∣◌ c {x} {y} dx ry = Reports-case c x y dx ry

-- Reporting in a window of silence, or out of it, leaves an error in the bag.
errorf_loud :
    (pos : Pos) (msg : Text) (p : Parser) → Heard p → has_errors (errorf pos msg p).bag ≡ true
unfolding errorf
errorf_loud pos msg p w =
    if_cases (λ (q : Parser). has_errors q.bag ≡ true) (ltb p.since_error default_silence_window)
      (λ t. w.told (ltb→lt _ _ t)) (λ f. errorf-has_errors p.bag pos msg w.sound)

recover_decl-Reports : Reports recover_decl
unfolding recover_decl ◌>>=◌ mark gets complain run close_span pure
recover_decl-Reports = record {
  reported = λ p r w e b.
      let pos = (cur p).pos in
      let msg = codes "esperava uma declaração de topo, encontrei " ++ kind_string (cur p).kind in
      let loud = errorf_loud pos msg p w in
      let end = synchronize-Moved top_level_stop (errorf pos msg p) in
      let after_all = end.louder ((errorf-Moved pos msg p).heard w) loud in
      let same : synchronize top_level_stop (errorf pos msg p) ≡ r.1 = cc e in
      subst (λ (q : Parser). has_errors q.bag ≡ true) same after_all;
}

parse_decl-Reports : Reports parse_decl
unfolding parse_decl
parse_decl-Reports =
    at valueobject
    ⟹ parse_value_object-Declares ∣ at enum
    ⟹ parse_enum-Declares ∣ at error
    ⟹ parse_error_type-Declares ∣ (λ p. at event p || at publicevent p)
    ⟹ parse_event-Declares ∣ at aggregate
    ⟹ parse_aggregate-Declares ∣ at command
    ⟹ parse_command-Declares ∣ at usecase
    ⟹ parse_use_case-Declares ∣ at view
    ⟹ parse_view-Declares ∣ at projection
    ⟹ parse_projection-Declares ∣ at query
    ⟹ parse_query-Declares ∣ at policy
    ⟹ parse_policy-Declares ∣ at worker
    ⟹ parse_worker-Declares ∣ at notification
    ⟹ parse_notification-Declares ∣ at adapter
    ⟹ parse_adapter-Declares ∣ at foreign
    ⟹ parse_foreign-Declares ∣ at saga
    ⟹ parse_saga-Declares ∣ at metric
    ⟹ parse_metric-Declares ∣ at upcast
    ⟹ parse_upcast-Declares ∣ at module_kw
    ⟹ parse_module-Declares ∣ at interface
    ⟹ parse_interface-Declares ∣ at topology
    ⟹ parse_topology-Declares ∣ at version
    ⟹ parse_version_decl-Declares ∣ at_ident_lit "RateLimitTier"
    ⟹ parse_rate_limit_tier-Declares ∣ at test
    ⟹ parse_test-Declares ∣ at fixture
    ⟹ parse_fixture-Declares ∣ recover_decl-Reports

-- What the loop of `parseFile` keeps: the bag knows of every node of error.
record Known (ds : List Decl) (p : Parser) : Type 0 where
  heard : Heard p
  known : any_error_decl ds ≡ true → has_errors p.bag ≡ true

any_error_decl-append :
    (ds : List Decl) (d : Decl)
    → any_error_decl (append ds d) ≡ (any_error_decl ds || is_error_decl d)
any_error_decl-append [] d = ground arith
any_error_decl-append (e ∷ ds) d = rw (any_error_decl-append ds d) (ground arith)

Known-append :
    (ds : List Decl) (d : Decl) (p q : Parser)
    → Known ds p
    → Moved p q
    → (is_error_decl d ≡ true → has_errors q.bag ≡ true)
    → Known (append ds d) (ensure_progress p.pos q)
Known-append ds d p q k m reported =
    let last = ensure_progress-Moved p.pos q in
    record {
      heard = last.heard (m.heard k.heard);
      known = λ e. last.louder (m.heard k.heard) (elim (Bool-cases (is_error_decl d)) [
        | inl t ↦ reported t
        | inr f ↦
            let before = rw (any_error_decl-append ds d, f) at e in
            m.louder k.heard (k.known (ground (arith, before)))
      ]);
    }

file_member-Known :
    (ds : List Decl) (p : Parser) (r : List Decl × Parser)
    → Known ds p
    → file_member ds p ≡ some r
    → Known r.0 (ensure_progress p.pos r.1)
unfolding file_member ◌>>=◌ pure
file_member-Known ds p r k e =
    let (x, ran, rest) = bind_some (parse_decl p) _ e in
    let (y, found, m) = Returns-value (parse_decl-Ends p) in
    let one : y ≡ x = cc (found, ran) in
    let moved : Moved p x.1 = subst (Ends p) one m in
    let same : (append ds x.0, x.1) ≡ r = cc rest in
    subst (λ (z : List Decl × Parser). Known z.0 (ensure_progress p.pos z.1)) same
      (Known-append ds x.0 p x.1 k moved (parse_decl-Reports.reported p x k.heard ran))

loop-Known :
    (f : ℕ) (ds : List Decl) (p : Parser) (r : List Decl × Parser)
    → Known ds p
    → loop eof file_member f ds p ≡ some r
    → Known r.0 r.1
unfolding loop
loop-Known zero ds p r k e = cc
loop-Known (suc f) ds p r k e = elim (Bool-cases (not (at eof p) && not (at_end p))) [
  | inl t ↦
      let (x, ran, rest) = bind_some (file_member ds p) _ (rw t at e) in
      loop-Known f x.0 _ r (file_member-Known ds p x k ran) rest
  | inr t ↦
      let left : some (ds, p) ≡ some r = rw t at e in
      let same : (ds, p) ≡ r = cc left in subst (λ (x : List Decl × Parser). Known x.0 x.1) same k
]

-- A file with a node of error, in place of a declaration that could not be parsed, comes with an
-- error in the bag: the window of silence never hides the only report.
pub parse-reports_error :
    (toks : List Token) (n : ℕ) (r : File × Parser)
    → parse toks (Diag.new_with_max n) ≡ some r
    → any_error_decl r.0.decls ≡ true
    → has_errors r.1.bag ≡ true
unfolding parse parse_file ◌>>=◌ mark gets members close_span pure new_parser
parse-reports_error toks n r e b =
    let p = new_parser toks (Diag.new_with_max n) in
    let heard : Heard p = record { sound = new-Inv n; told = λ h. absurd (omega (arith, h)) } in
    let start : Known [] p = record { heard = heard; known = λ h. cc h } in
    let (x, ran, rest) = bind_some (loop eof file_member (suc (count p.ahead)) [] p) _ e in
    let k = loop-Known (suc (count p.ahead)) [] p x start ran in
    let decls : x.0 ≡ r.0.decls = cc rest in
    let last : x.1 ≡ r.1 = cc rest in
    subst (λ (q : Parser). has_errors q.bag ≡ true) last (k.known (ap any_error_decl decls ∙ b))
