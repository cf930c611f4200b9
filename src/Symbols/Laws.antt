-- ===== src/Symbols/Laws.antt =====
-- symbols/table.go: what `Define` changes, and what it keeps.
use domainscript.Prelude.{
  ◌≡◌, refl, sym, ap, ◌∙◌, ◌↔◌, ◌⊎◌, inl, inr, Bool, true, false, ◌&&◌, Option, none, some, List,
  [], ◌∷◌, Text, Map, text_eq, text_beq_iff, ◌==◌, arith, if◌then◌else◌, Option-cases, Bool-cases,
  if_some, &&-eq-true, subst, ==_refl,
}
use domainscript.Prelude
use domainscript.Symbols.{
  Symbol, SymbolTable, empty, or_empty, declare, module_symbols, define, define_by, lookup_public,
}

module _ {D : Type 0} where
  -- What a module itself declares under a name.
  abbrev pub declared : SymbolTable D → Text → Text → Option (Symbol D)
  declared t m name = Prelude.lookup name (module_symbols m t)

  -- A name that its module has declared already is refused: the table stays as it is, and the
  -- symbol that stands there is handed back.
  pub define_duplicate :
      (t : SymbolTable D) (s e : Symbol D)
      → declared t s.module_name s.name ≡ some e
      → define t s ≡ (e, false, t)
  unfolding define define_by
  define_duplicate t s e h = rw (h, define_by) refl

  declared-or_empty :
      (m n : Text) (t : SymbolTable D) (s : Symbol D) (c : Bool)
      → (c ≡ true → s.module_name ≡ m)
      → Prelude.lookup n (
          or_empty (
            if c
            then some (Prelude.insert s.name s (module_symbols s.module_name t))
            else Prelude.lookup m t.by_module))
        ≡ (if c && s.name == n then some s else declared t m n)
  declared-or_empty m n t s true e =
      Prelude.lookup-insert s.name n s (module_symbols s.module_name t)
      ∙ ap (λ k. if s.name == n then some s else declared t k n) (e refl)
  declared-or_empty m n t s false e = refl

  declared-declare :
      (t : SymbolTable D) (s : Symbol D) (m n : Text)
      → declared (declare t s) m n
        ≡ (if s.module_name == m && s.name == n then some s else declared t m n)
  declared-declare t s m n =
      ap (λ o. Prelude.lookup n (or_empty o))
        (Prelude.lookup-insert s.module_name m
          (Prelude.insert s.name s (module_symbols s.module_name t)) t.by_module)
      ∙ declared-or_empty m n t s (s.module_name == m) (λ h. (text_beq_iff s.module_name m).0 h)

  lookup_public-if :
      (n : Text) (s : Symbol D) (m : Map Text (Symbol D)) (c : Bool)
      → Prelude.lookup n (if c then Prelude.insert s.name s m else m)
        ≡ (if c && s.name == n then some s else Prelude.lookup n m)
  lookup_public-if n s m true = Prelude.lookup-insert s.name n s m
  lookup_public-if n s m false = refl

  lookup_public-declare :
      (t : SymbolTable D) (s : Symbol D) (n : Text)
      → lookup_public (declare t s) n
        ≡ (if s.public && s.name == n then some s else lookup_public t n)
  lookup_public-declare t s n = lookup_public-if n s t.public s.public

  -- A fresh name is taken: the symbol is declared in its module and, if it is public, at the public
  -- level; no other declaration of the table changes.
  pub define_fresh :
      (t : SymbolTable D) (s : Symbol D)
      → declared t s.module_name s.name ≡ none
      → let t' = (define t s).2 in
        (define t s ≡ (s, true, t'))
        × ((m n : Text)
            → declared t' m n
              ≡ (if s.module_name == m && s.name == n then some s else declared t m n))
        × ((n : Text)
            → lookup_public t' n ≡ (if s.public && s.name == n then some s else lookup_public t n))
  unfolding define define_by
  define_fresh t s h = rw (h, define_by) (refl, declared-declare t s, lookup_public-declare t s)

  -- What a table holds is filed under its own names, and what is public is declared in its module.
  pub record IsFiled (t : SymbolTable D) : Type 0 where
    pub filed :
        (m n : Text) (s : Symbol D) → declared t m n ≡ some s → (s.module_name ≡ m) × (s.name ≡ n)
    pub shared :
        (n : Text) (s : Symbol D)
        → lookup_public t n ≡ some s
        → (s.public ≡ true) × (s.name ≡ n) × (declared t s.module_name n ≡ some s)

  pub empty-IsFiled : IsFiled empty
  empty-IsFiled = record { filed = λ m n s h. cc; shared = λ n s h. cc }

  module _ (t : SymbolTable D) (s : Symbol D) (w : IsFiled t) where
    declare-filed :
        (m n : Text) (r : Symbol D)
        → declared (declare t s) m n ≡ some r
        → (r.module_name ≡ m) × (r.name ≡ n)
    declare-filed m n r h =
        elim (if_some (s.module_name == m && s.name == n) (declared t m n)
          (sym (declared-declare t s m n) ∙ h)) [
            | inl (c, e) ↦
                let (p, q) = &&-eq-true (s.module_name == m) (s.name == n) c in
                (
                  ap (λ (x : Symbol D). x.module_name) (sym e) ∙ (text_beq_iff s.module_name m).0 p,
                  ap (λ (x : Symbol D). x.name) (sym e) ∙ (text_beq_iff s.name n).0 q,
                )
            | inr (c, e) ↦ w.filed m n r e
          ]

    -- What was declared before stays.
    declared_before :
        (m n : Text) (r : Symbol D)
        → declared t s.module_name s.name ≡ none
        → declared t m n ≡ some r
        → declared (declare t s) m n ≡ some r
    declared_before m n r fresh h =
        declared-declare t s m n ∙ elim (Bool-cases (s.module_name == m && s.name == n)) [
          | inl c ↦
              let (p, q) = &&-eq-true (s.module_name == m) (s.name == n) c in
              absurd
                (cc ((text_beq_iff s.module_name m).0 p, (text_beq_iff s.name n).0 q, fresh, h))
          | inr c ↦ rw c h
        ]

    declare-shared :
        declared t s.module_name s.name ≡ none
        → (n : Text) (r : Symbol D) → lookup_public (declare t s) n ≡ some r
        → (r.public ≡ true) × (r.name ≡ n) × (declared (declare t s) r.module_name n ≡ some r)
    declare-shared fresh n r h =
        elim (if_some (s.public && s.name == n) (lookup_public t n)
          (sym (lookup_public-declare t s n) ∙ h)) [
            | inl (c, e) ↦
                let (p, q) = &&-eq-true s.public (s.name == n) c in
                subst
                  (λ (x : Symbol D).
                    (x.public ≡ true)
                    × (x.name ≡ n)
                    × (declared (declare t s) x.module_name n ≡ some x))
                  e
                  (
                    p,
                    (text_beq_iff s.name n).0 q,
                    declared-declare t s s.module_name n ∙ rw (==_refl s.module_name, q) refl,
                  )
            | inr (c, e) ↦
                let (p, q, d) = w.shared n r e in (p, q, declared_before r.module_name n r fresh d)
          ]

  -- `Define` keeps the table filed, whether it takes the symbol or refuses it: every symbol stands
  -- under its own module and name, and whatever is public is declared in its module.
  pub define-IsFiled : (t : SymbolTable D) (s : Symbol D) → IsFiled t → IsFiled (define t s).2
  unfolding define define_by
  define-IsFiled t s w = elim (Option-cases (declared t s.module_name s.name)) [
    | inl fresh ↦
        rw (fresh, define_by)
          (record { filed = declare-filed t s w; shared = declare-shared t s w fresh })
    | inr (e, h) ↦ rw (h, define_by) w
  ]
