-- ===== src/Resolver/Bodies/Free/Reports.antt =====
-- resolver/resolve_body.go: a body's reports are those of its free names in its root scope.
use domainscript.Prelude.{
  ◌≡◌, refl, sym, ap, ◌∙◌, Bool, true, false, not, ◌&&◌, ◌||◌, Option, none, some, List, [], ◌∷◌,
  ◌++◌, append_assoc, append-nil, Text, codes, text_eq, text_beq_iff, ◌==◌, if◌then◌else◌,
  Bool-cases, arith, ◌⊎◌, inl, inr, subst,
}
use domainscript.Token.{Pos}
use domainscript.Diag.{Diagnostic}
use domainscript.Ast.{Clauses, no_clauses, clause}
use domainscript.Ast.Files.{Decl}
use domainscript.Symbols.{SymbolTable}
use domainscript.Resolver.Scope.{
  BindingKind, bind_local, Binding, Scope, root, child_of, child, define, lookup,
}
use domainscript.Resolver.Scope.Shadowing.{lookup-define}
use domainscript.Resolver.References.{is_some}
use domainscript.Resolver.Bodies.{bind, define_bare, define_named, define_joins, resolve_ident}
use domainscript.Resolver.Bodies.Free.{Occurrence, hide, hide_joins, bare_before}

passes :
    (a b r c d : Bool) (ds : List Diagnostic)
    → (a ≡ true) ⊎ (r ≡ true)
    → (if a || b || r || c || d then [] else ds) ≡ []
passes true b r c d ds h = refl
passes false true r c d ds h = refl
passes false false true c d ds h = refl
passes false false false c d ds h = ground arith

not_bound :
    (x y : Bool) (b : Binding) (o : Option Binding) → y ≡ false → (if x && y then some b else o) ≡ o
not_bound true true b o h = ground arith
not_bound true false b o h = refl
not_bound false y b o h = refl

-- What a definition shows under its own name.
bound :
    (s : Scope) (n : Text) (b : Binding)
    → (n == [] ≡ true) ⊎ (is_some (lookup (define s n b) n) ≡ true)
bound s n b = elim (Bool-cases (n == [])) [
  | inl z ↦ inl z
  | inr z ↦ inr (rw (lookup-define s n n b, z, (text_beq_iff n n).1 refl) refl)
]

define_named-define :
    (k : BindingKind) (n : Text) (sc : Scope) → define_named k n sc ≡ define sc n (bind k n)
unfolding define
define_named-define k n (root names) = elim (Bool-cases (n == [])) [
  | inl e ↦ rw e refl
  | inr e ↦ rw e refl
]
define_named-define k n (child_of p names) = elim (Bool-cases (n == [])) [
  | inl e ↦ rw e refl
  | inr e ↦ rw e refl
]

module _ (quote : Text → Text) (t : SymbolTable Decl) (m : Text) where
  -- The reports of resolving each occurrence in one scope.
  unfoldable pub reports_of : Scope → List Occurrence → List Diagnostic
  unfolding resolve_ident
  reports_of sc [] = []
  reports_of sc (o ∷ os) = resolve_ident quote t m sc o.pos o.name ++ reports_of sc os

  resolve_ident-define :
      (sc : Scope) (n : Text) (b : Binding) (pos : Pos) (name : Text)
      → resolve_ident quote t m (define sc n b) pos name
        ≡ (if n == name then [] else resolve_ident quote t m sc pos name)
  unfolding resolve_ident
  resolve_ident-define sc n b pos name = elim (Bool-cases (n == name)) [
    | inl e ↦ rw e (
        passes _ _ _ _ _ _ (
          subst (λ x. (x == [] ≡ true) ⊎ (is_some (lookup (define sc n b) x) ≡ true))
            ((text_beq_iff n name).0 e) (bound sc n b)))
    | inr e ↦
        rw
          (lookup-define sc n name b, not_bound (not (n == [])) (n == name) b (lookup sc name) e, e)
          refl
  ]

  pub reports_of-define :
      (sc : Scope) (n : Text) (b : Binding) (os : List Occurrence)
      → reports_of (define sc n b) os ≡ reports_of sc (hide n os)
  unfolding reports_of hide
  reports_of-define sc n b [] = refl
  reports_of-define sc n b (o ∷ os) = elim (Bool-cases (n == o.name)) [
    | inl e ↦ rw (resolve_ident-define sc n b o.pos o.name, e) (reports_of-define sc n b os)
    | inr e ↦
        rw (resolve_ident-define sc n b o.pos o.name, e)
          (ap (λ r. resolve_ident quote t m sc o.pos o.name ++ r) (reports_of-define sc n b os))
  ]

  pub reports_of-child :
      (sc : Scope) (os : List Occurrence) → reports_of (child sc) os ≡ reports_of sc os
  unfolding reports_of resolve_ident lookup
  reports_of-child sc [] = refl
  reports_of-child sc (o ∷ os) =
      ap (λ r. resolve_ident quote t m sc o.pos o.name ++ r) (reports_of-child sc os)

  reports_of-append :
      (sc : Scope) (os ps : List Occurrence)
      → reports_of sc (os ++ ps) ≡ reports_of sc os ++ reports_of sc ps
  unfolding reports_of
  reports_of-append sc [] ps = refl
  reports_of-append sc (o ∷ os) ps =
      ap (λ r. resolve_ident quote t m sc o.pos o.name ++ r) (reports_of-append sc os ps)
      ∙ sym (
          append_assoc (resolve_ident quote t m sc o.pos o.name) (reports_of sc os)
            (reports_of sc ps))

  pub joined :
      (sc : Scope) {r q : List Diagnostic} (os ps : List Occurrence)
      → r ≡ reports_of sc os
      → q ≡ reports_of sc ps
      → r ++ q ≡ reports_of sc (os ++ ps)
  joined sc os ps h k = rw (h, k) (sym (reports_of-append sc os ps))

  pub nothing : (sc : Scope) → [] ≡ reports_of sc []
  unfolding reports_of
  nothing sc = refl

  pub alone :
      (sc : Scope) (pos : Pos) (n : Text)
      → resolve_ident quote t m sc pos n ≡ reports_of sc (record { pos = pos; name = n } ∷ [])
  unfolding reports_of
  alone sc pos n = sym (append-nil (resolve_ident quote t m sc pos n))

  -- A part that gives reports and a scope, and `rest` resolved in that scope.
  abbrev pub Reports : Scope → List Diagnostic × Scope → List Occurrence → List Occurrence → Type 0
  Reports sc p rest os = p.0 ++ reports_of p.1 rest ≡ reports_of sc os

  -- A part after which the scope is as it was.
  pub resolved :
      (sc : Scope) {r : List Diagnostic} (rest os : List Occurrence)
      → r ≡ reports_of sc os
      → Reports sc (r, sc) rest (os ++ rest)
  resolved sc rest os h = joined sc os rest h refl

  -- A part in the scope of an expression that comes before it.
  pub behind :
      (sc : Scope) {r : List Diagnostic} (p : List Diagnostic × Scope)
      (rest os ps : List Occurrence)
      → r ≡ reports_of sc os
      → Reports sc p rest ps
      → Reports sc (r ++ p.0, p.1) rest (os ++ ps)
  behind sc {r} p rest os ps h k = append_assoc r p.0 (reports_of p.1 rest) ∙ joined sc os ps h k

  -- Two parts, the second in the scope that the first leaves.
  pub in_turn :
      (sc : Scope) (p q : List Diagnostic × Scope) (rest mid os : List Occurrence)
      → Reports sc p mid os
      → Reports p.1 q rest mid
      → Reports sc (p.0 ++ q.0, q.1) rest os
  in_turn sc p q rest mid os h k =
      append_assoc p.0 q.0 (reports_of q.1 rest) ∙ ap (λ r. p.0 ++ r) k ∙ h

  pub reports_of-named :
      (k : BindingKind) (n : Text) (sc : Scope) (os : List Occurrence)
      → reports_of (define_named k n sc) os ≡ reports_of sc (hide n os)
  reports_of-named k n sc os =
      ap (λ s. reports_of s os) (define_named-define k n sc) ∙ reports_of-define sc n (bind k n) os

  pub reports_of-joins :
      (sc : Scope) (cs : Clauses) (os : List Occurrence)
      → reports_of (define_joins sc cs) os ≡ reports_of sc (hide_joins cs os)
  unfolding define_joins hide_joins
  reports_of-joins sc no_clauses os = refl
  reports_of-joins sc (clause kw x extra cs) os = elim (Bool-cases (kw == codes "join")) [
    | inl e ↦ rw e (
        reports_of-joins (define_named bind_local extra sc) cs os
        ∙ reports_of-named bind_local extra sc (hide_joins cs os))
    | inr e ↦ rw e (reports_of-joins sc cs os)
  ]

  -- A name bound in a child of the scope.
  pub inside :
      (sc : Scope) (n : Text) (b : Binding) {r : List Diagnostic} (os : List Occurrence)
      → r ≡ reports_of (define (child sc) n b) os
      → r ≡ reports_of sc (hide n os)
  inside sc n b os h = h ∙ reports_of-define (child sc) n b os ∙ reports_of-child sc (hide n os)

  pub define_bare-Reports :
      (sc : Scope) (o : Option Text) {r : List Diagnostic} (here rest : List Occurrence)
      → r ≡ reports_of sc here
      → Reports sc (define_bare o r sc) rest (bare_before o here rest)
  unfolding define_bare bare_before
  define_bare-Reports sc (some n) here rest h = reports_of-define sc n (bind bind_local n) rest
  define_bare-Reports sc none here rest h = resolved sc rest here h

  -- The reports of an arm: its patterns, and what they bind in.
  pub arm_reports :
      (sc : Scope) (p : List Diagnostic × Scope) {r : List Diagnostic} (inner os : List Occurrence)
      → Reports (child sc) p inner os
      → r ≡ reports_of p.1 inner
      → p.0 ++ r ≡ reports_of sc os
  arm_reports sc p inner os h k = rw k (h ∙ reports_of-child sc os)

  -- Where nothing follows.
  pub ended :
      (sc : Scope) (p : List Diagnostic × Scope) (os : List Occurrence)
      → Reports sc p [] os
      → p.0 ≡ reports_of sc os
  unfolding reports_of
  ended sc p os h = sym (append-nil p.0) ∙ h
