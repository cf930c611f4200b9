-- ===== src/Resolver/Collect/First.antt =====
-- resolver/resolver.go: the symbol that the collection leaves under each name.
use domainscript.Prelude.{
  ◌≡◌, refl, sym, ap, ◌∙◌, inl, inr, Bool, true, false, ◌&&◌, ◌||◌, Option, none, some, List, [],
  ◌∷◌, Text, text_eq, text_beq_iff, ◌==◌, if◌then◌else◌, Option-cases, Bool-cases, &&-eq-true,
  subst,
}
use domainscript.Token.{Pos}
use domainscript.Ast.Files.{Decl}
use domainscript.Symbols
use domainscript.Symbols.{Symbol, SymbolKind, SymbolTable, or_else}
use domainscript.Symbols.Laws.{declared, define_duplicate, define_fresh}
use domainscript.Resolver.Collect.{
  SourceUnit, decl_span, declared_as, is_notification_adapter_pair, collected, collect_as, collect,
  collect_all, add_units,
}

-- The symbol, if it is the one of a module and a name.
abbrev pub matching : Text → Text → Symbol Decl → Option (Symbol Decl)
matching m n s = if s.module_name == m && s.name == n then some s else none

-- The symbol of a declaration in module `u`, if it is the one of `m` and `n`.
abbrev pub symbol_as :
    Text → Decl → Option (Text × SymbolKind × Bool) → Text → Text → Option (Symbol Decl)
symbol_as u d none m n = none
symbol_as u d (some (name, kind, public)) m n =
    if name == []
    then none
    else matching m n
        (record { name = name; kind = kind; module_name = u; decl = d; public = public })

-- The first declaration of a module and a name, in the order of the text.
abbrev pub first_in : Text → List Decl → Text → Text → Option (Symbol Decl)
first_in u [] m n = none
first_in u (d ∷ ds) m n = or_else (symbol_as u d (declared_as d) m n) (first_in u ds m n)

abbrev pub first_of : List SourceUnit → Text → Text → Option (Symbol Decl)
first_of [] m n = none
first_of (u ∷ us) m n = or_else (first_in u.module_name u.file.decls m n) (first_of us m n)

or_else-none : (o : Option (Symbol Decl)) → o ≡ or_else o none
or_else-none (some s) = refl
or_else-none none = refl

or_else_assoc : (o p q : Option (Symbol Decl)) → or_else (or_else o p) q ≡ or_else o (or_else p q)
or_else_assoc (some s) p q = refl
or_else_assoc none p q = refl

-- Two steps after each of which a name has what it had, or else what the step brings.
in_turn :
    {y z : Option (Symbol Decl)} (x o p : Option (Symbol Decl))
    → y ≡ or_else x o
    → z ≡ or_else y p
    → z ≡ or_else x (or_else o p)
in_turn x o p h k = k ∙ ap (λ w. or_else w p) h ∙ or_else_assoc x o p

module _ (m n : Text) where
  -- A fresh symbol, seen under a name of a module.
  taken :
      (t : SymbolTable Decl) (s : Symbol Decl) (c : Bool)
      → (c ≡ true → declared t m n ≡ none)
      → (if c then some s else declared t m n)
        ≡ or_else (declared t m n) (if c then some s else none)
  taken t s true f = sym (ap (λ w. or_else w (some s)) (f refl))
  taken t s false f = or_else-none (declared t m n)

  -- A symbol that is refused.
  kept :
      (t : SymbolTable Decl) (s e : Symbol Decl) (c : Bool)
      → (c ≡ true → declared t m n ≡ some e)
      → declared t m n ≡ or_else (declared t m n) (if c then some s else none)
  kept t s e true f = f refl ∙ sym (ap (λ w. or_else w (some s)) (f refl))
  kept t s e false f = or_else-none (declared t m n)

  same_place :
      (t : SymbolTable Decl) (s : Symbol Decl) {o : Option (Symbol Decl)}
      → declared t s.module_name s.name ≡ o
      → s.module_name == m && s.name == n ≡ true
      → declared t m n ≡ o
  same_place t s {o} h c =
      let (p, q) = &&-eq-true (s.module_name == m) (s.name == n) c in
      subst (λ k. declared t k n ≡ o) ((text_beq_iff s.module_name m).0 p)
        (subst (λ k. declared t s.module_name k ≡ o) ((text_beq_iff s.name n).0 q) h)

  declared-define :
      (t : SymbolTable Decl) (s : Symbol Decl)
      → declared (Symbols.define t s).2 m n ≡ or_else (declared t m n) (matching m n s)
  declared-define t s = elim (Option-cases (declared t s.module_name s.name)) [
    | inl fresh ↦
        (define_fresh t s fresh).1 m n
        ∙ taken t s (s.module_name == m && s.name == n) (same_place t s fresh)
    | inr (e, h) ↦
        ap (λ (r : Symbol Decl × Bool × SymbolTable Decl). declared r.2 m n)
          (define_duplicate t s e h)
        ∙ kept t s e (s.module_name == m && s.name == n) (same_place t s h)
  ]

  module _ (quote : Text → Text) where
    -- What `collect` makes of the answer of `Define` leaves the table.
    table_collected :
        (pos : Pos) (kind : SymbolKind) (name : Text) (r : Symbol Decl × Bool × SymbolTable Decl)
        → (collected quote pos kind name r).1 ≡ r.2
    table_collected pos kind name r =
        elim (Bool-cases (r.1 || is_notification_adapter_pair kind r.0.kind)) [
          | inl e ↦ rw e refl
          | inr e ↦ rw e refl
        ]

    declared-collect_as :
        (u : Text) (d : Decl) (o : Option (Text × SymbolKind × Bool)) (t : SymbolTable Decl)
        → declared (collect_as quote u d o t).1 m n ≡ or_else (declared t m n) (symbol_as u d o m n)
    declared-collect_as u d none t = or_else-none (declared t m n)
    declared-collect_as u d (some (name, kind, public)) t = elim (Bool-cases (name == [])) [
      | inl e ↦ rw e (or_else-none (declared t m n))
      | inr e ↦
          let s : Symbol Decl = record {
            name = name;
            kind = kind;
            module_name = u;
            decl = d;
            public = public;
          } in
          rw e (
            ap (λ r. declared r m n)
              (table_collected (decl_span d).start kind name (Symbols.define t s))
            ∙ declared-define t s)
    ]

    declared-collect_all :
        (u : Text) (ds : List Decl) (t : SymbolTable Decl)
        → declared (collect_all quote u ds t).1 m n ≡ or_else (declared t m n) (first_in u ds m n)
    unfolding collect_all collect
    declared-collect_all u [] t = or_else-none (declared t m n)
    declared-collect_all u (d ∷ ds) t =
        in_turn (declared t m n) (symbol_as u d (declared_as d) m n) (first_in u ds m n)
          (declared-collect_as u d (declared_as d) t)
          (declared-collect_all u ds (collect quote u d t).1)

    declared-add_units :
        (us : List SourceUnit) (t : SymbolTable Decl)
        → declared (add_units quote us t).1 m n ≡ or_else (declared t m n) (first_of us m n)
    unfolding add_units
    declared-add_units [] t = or_else-none (declared t m n)
    declared-add_units (u ∷ us) t =
        in_turn (declared t m n) (first_in u.module_name u.file.decls m n) (first_of us m n)
          (declared-collect_all u.module_name u.file.decls t)
          (declared-add_units us (collect_all quote u.module_name u.file.decls t).1)

-- Once the units of a program are collected, a module has under a name the first declaration of that
-- name in the order of the units and of their text, of whatever kind, and nothing if there is none.
pub add_units-first :
    (quote : Text → Text) (us : List SourceUnit) (m n : Text)
    → declared (add_units quote us Symbols.empty).1 m n ≡ first_of us m n
add_units-first quote us m n = declared-add_units m n quote us Symbols.empty
