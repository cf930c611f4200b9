-- ===== src/Sema/Flow/Exhaustive.antt =====
-- sema/rules_flow.go: what `checkMatch` accepts, told on the patterns of the arms alone.
use domainscript.Prelude.{
  ◌≡◌, ◌≢◌, refl, sym, ap, ◌∙◌, ◌⊎◌, inl, inr, ◌↔◌, Bool, true, false, ◌&&◌, ◌||◌, List, [], ◌∷◌,
  Text, codes, text_eq, text_beq_iff, ◌==◌, ==_refl, ==_sym, Option, none, some, Map, All, All-map,
  if◌then◌else◌, Bool-cases, arith,
}
use domainscript.Prelude
use domainscript.Diag.{seen_at}
use domainscript.Symbols.{Symbol, SymbolTable, enum}
use domainscript.Symbols
use domainscript.Token.{Pos}
use domainscript.Ast.{Span, ident, member}
use domainscript.Ast.Decls.{EnumDecl}
use domainscript.Ast.Files.{Decl}
use domainscript.Sema.Flow.{
  member_names, ArmInfo, scan_start, scan_arms, missing, missing_error, match_error,
}
use domainscript.Sema.Flow.Scans.{
  some_case, some_guard, is_wildcard, is_qualified, is_case, On, AllPatterns, case_arm,
  has_guard_arms, has_wild_arms, enum_name_arms, covered_arms,
}

-- Nothing is missing when every member has its case.
missing-covered :
    (q : Text → Text) (en : Text) (covered : Map Text Bool) (ms : List Text)
    → (missing_error q en (missing covered ms) ≡ none) ↔ All (λ m. seen_at m covered ≡ true) ms
unfolding missing
missing-covered q en covered [] = (λ h. tt, λ h. refl)
missing-covered q en covered (m ∷ ms) = elim (Bool-cases (seen_at m covered)) [
  | inl e ↦ rw e (
    λ h. (refl, (missing-covered q en covered ms).0 h),
    λ h. (missing-covered q en covered ms).1 h.1,
  )
  | inr e ↦ rw e (ground arith)
]

-- A wildcard is an error before anything else is.
after_wildcard {ℓ} :
    {P : Type ℓ} (w : Bool) (forbidden : Text) (o : Option Text)
    → (o ≡ none) ↔ P
    → ((if w then some forbidden else o) ≡ none) ↔ ((w ≡ false) × P)
after_wildcard true forbidden o h = (λ k. ground arith, λ k. ground (arith, k.0))
after_wildcard false forbidden o h = (λ k. (refl, h.0 k), λ k. h.1 k.1)

module _ (quote : Text → Text) (tab : SymbolTable Decl) (module_name : Text) where
  -- A match in which some arm has a guard is accepted exactly if some pattern is the wildcard.
  pub match_error-guarded :
      (arms : List ArmInfo)
      → some_guard arms ≡ true
      → (match_error quote tab module_name arms ≡ none) ↔ (some_case is_wildcard arms ≡ true)
  unfolding match_error
  match_error-guarded arms h =
      rw (has_guard_arms scan_start arms, h, has_wild_arms arms) (ground arith)

  -- A match without guards, whose qualified patterns, at least one, all name the enum `e` that the
  -- module sees, is accepted exactly if no pattern is the wildcard and every member of `e` has
  -- its case.
  pub match_error-exhaustive :
      (arms : List ArmInfo) (e home : Text) (d : EnumDecl) (public : Bool)
      → some_guard arms ≡ false
      → AllPatterns (On e) arms
      → some_case is_qualified arms ≡ true
      → Symbols.lookup tab module_name e
        ≡ some (record {
          name = e;
          kind = enum;
          module_name = home;
          decl = Decl.enum d;
          public = public;
        })
      → (match_error quote tab module_name arms ≡ none) ↔ (
          (some_case is_wildcard arms ≡ false)
          × All (λ m. some_case (is_case e m) arms ≡ true) (member_names d.members))
  unfolding match_error
  match_error-exhaustive arms e home d public h on q known =
      rw (has_guard_arms scan_start arms, h, enum_name_arms e arms on q, known, has_wild_arms arms)
        (after_wildcard (some_case is_wildcard arms) _ _ every_member)
    where
      every_member :
          (missing_error quote
              (scan_arms scan_start arms).enum_name
              (missing (scan_arms scan_start arms).covered (member_names d.members))
            ≡ none)
          ↔ All (λ m. some_case (is_case e m) arms ≡ true) (member_names d.members)
      every_member = (
        λ k.
            All-map (member_names d.members) (λ m c. sym (covered_arms e m arms on) ∙ c)
              ((missing-covered quote (scan_arms scan_start arms).enum_name
                  (scan_arms scan_start arms).covered (member_names d.members)).0
                k),
        λ k.
            (missing-covered quote (scan_arms scan_start arms).enum_name
                (scan_arms scan_start arms).covered (member_names d.members)).1
              (All-map (member_names d.members) (λ m c. covered_arms e m arms on ∙ c) k),
      )

  -- A match of two arms without guards, each with one pattern, the first the case `a.m` of an enum `a`
  -- and the second the case `e.k` of another enum `e` that the module sees, where `e` has exactly the
  -- members `m` and `k`, is accepted although the member `m` of `e` has no case: the member of `a`
  -- counts as the one of `e` with the same name.
  pub match_error-mixed :
      (s : Span) (p : Pos) (a e home m k : Text) (d : EnumDecl) (public : Bool)
      → (a == e) ≡ false
      → (k == m) ≡ false
      → member_names d.members ≡ m ∷ k ∷ []
      → Symbols.lookup tab module_name e
        ≡ some (record {
          name = e;
          kind = enum;
          module_name = home;
          decl = Decl.enum d;
          public = public;
        })
      → let arms = case_arm (member s (ident s a) m p) ∷ case_arm (member s (ident s e) k p) ∷ [] in
        (match_error quote tab module_name arms ≡ none) × (some_case (is_case e m) arms ≡ false)
  unfolding match_error scan_arms
  match_error-mixed s p a e home m k d public other apart names known =
      rw
        (
          known,
          names,
          Prelude.lookup-insert k m true (Prelude.insert m true []),
          Prelude.lookup-insert m m true [],
          ==_refl m,
          Prelude.lookup-insert k k true (Prelude.insert m true []),
          ==_refl k,
          apart,
          other,
          ==_refl e,
        )
        (refl, refl)
