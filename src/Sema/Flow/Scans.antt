-- ===== src/Sema/Flow/Scans.antt =====
-- sema/rules_flow.go: what the loop of `checkMatch` gathers, told on the patterns of the arms alone.
use domainscript.Prelude.{
  ◌≡◌, ◌≢◌, refl, sym, ap, ◌∙◌, ◌⊎◌, inl, inr, ◌↔◌, Bool, true, false, ◌&&◌, ◌||◌, List, [], ◌∷◌,
  Text, codes, text_eq, text_beq_iff, ◌==◌, ==_refl, ==_sym, Option, none, some, Map, All, All-map,
  if◌then◌else◌, Bool-cases, arith,
}
use domainscript.Prelude
use domainscript.Diag.{seen_at}
use domainscript.Ast.{Expr, ident, member}
use domainscript.Sema.Flow.{
  ArmInfo, MatchScan, scan_start, scan_pattern, scan_patterns, scan_guard, scan_arms,
}

abbrev pub some_pattern : (Expr → Bool) → List Expr → Bool
some_pattern f [] = false
some_pattern f (p ∷ ps) = f p || some_pattern f ps

-- Some pattern of some arm passes the test.
abbrev pub some_case : (Expr → Bool) → List ArmInfo → Bool
some_case f [] = false
some_case f (a ∷ as') = some_pattern f a.patterns || some_case f as'

abbrev pub some_guard : List ArmInfo → Bool
some_guard [] = false
some_guard (a ∷ as') = a.has_guard || some_guard as'

abbrev pub is_wildcard : Expr → Bool
is_wildcard (ident s n) = n == codes "_"
is_wildcard p = false

abbrev pub is_qualified : Expr → Bool
is_qualified (member s (ident t e) m q) = true
is_qualified p = false

-- The pattern `e.m`
abbrev pub is_case : Text → Text → Expr → Bool
is_case e m (member s (ident t n) k q) = n == e && k == m
is_case e m p = false

-- A qualified pattern names the enum `e`.
abbrev pub On : Text → Expr → Type 0
On e (member s (ident t n) k q) = n ≡ e
On e p = Unit

abbrev pub AllPatterns : (Expr → Type 0) → List ArmInfo → Type 0
AllPatterns P [] = Unit
AllPatterns P (a ∷ as') = All P a.patterns × AllPatterns P as'

-- An arm of one pattern, without a guard.
abbrev pub case_arm : Expr → ArmInfo
case_arm p = record { patterns = p ∷ []; has_guard = false }

-- A quantity of the loop that each pattern adds to, whatever the guards.
module _ (f : MatchScan → Bool) (g : Expr → Bool) (P : Expr → Type 0)
    (guards : (s : MatchScan) (b : Bool) → f (scan_guard s b) ≡ f s)
    (patterns : (s : MatchScan) (p : Expr) → P p → f (scan_pattern s p) ≡ f s || g p) where
  gathered_patterns :
      (s : MatchScan) (ps : List Expr)
      → All P ps
      → f (scan_patterns s ps) ≡ f s || some_pattern g ps
  unfolding scan_patterns
  gathered_patterns s [] h = ground arith
  gathered_patterns s (p ∷ ps) h =
      ground (arith, gathered_patterns (scan_pattern s p) ps h.1, patterns s p h.0)

  gathered :
      (s : MatchScan) (as' : List ArmInfo)
      → AllPatterns P as'
      → f (scan_arms s as') ≡ f s || some_case g as'
  unfolding scan_arms
  gathered s [] h = ground arith
  gathered s (a ∷ as') h = ground (
    arith,
    gathered (scan_patterns (scan_guard s a.has_guard) a.patterns) as' h.1,
    gathered_patterns (scan_guard s a.has_guard) a.patterns h.0,
    guards s a.has_guard,
  )

abbrev Anything : Expr → Type 0
Anything p = Unit

anything : (ps : List Expr) → All Anything ps
anything [] = tt
anything (p ∷ ps) = (tt, anything ps)

any_arms : (as' : List ArmInfo) → AllPatterns Anything as'
any_arms [] = tt
any_arms (a ∷ as') = (anything a.patterns, any_arms as')

wild_pattern :
    (s : MatchScan) (p : Expr)
    → Anything p
    → (scan_pattern s p).has_wild ≡ s.has_wild || is_wildcard p
unfolding scan_pattern
wild_pattern s (ident t n) h = elim (Bool-cases (n == codes "_")) [
  | inl e ↦ rw e (ground arith)
  | inr e ↦ rw e (ground arith)
]
wild_pattern s (member t (ident u n) k q) h = ground arith
wild_pattern s p h = ground arith

guard_pattern : (s : MatchScan) (p : Expr) → (scan_pattern s p).has_guard ≡ s.has_guard
unfolding scan_pattern
guard_pattern s (ident t n) = elim (Bool-cases (n == codes "_")) [
  | inl e ↦ rw e refl
  | inr e ↦ rw e refl
]
guard_pattern s (member t (ident u n) k q) = refl
guard_pattern s p = refl

name_pattern :
    (e : Text) (s : MatchScan) (p : Expr)
    → On e p
    → (scan_pattern s p).enum_name == e ≡ s.enum_name == e || is_qualified p
unfolding scan_pattern
name_pattern e s (ident t n) h = elim (Bool-cases (n == codes "_")) [
  | inl k ↦ rw k (ground arith)
  | inr k ↦ rw k (ground arith)
]
name_pattern e s (member t (ident u n) k q) h = rw (h, ==_refl e) (ground arith)
name_pattern e s p h = ground arith

covered_pattern :
    (e m : Text) (s : MatchScan) (p : Expr)
    → On e p
    → seen_at m (scan_pattern s p).covered ≡ seen_at m s.covered || is_case e m p
unfolding scan_pattern
covered_pattern e m s (ident t n) h = elim (Bool-cases (n == codes "_")) [
  | inl k ↦ rw k (ground arith)
  | inr k ↦ rw k (ground arith)
]
covered_pattern e m s (member t (ident u n) k q) h =
    rw (h, ==_refl e, Prelude.lookup-insert k m true s.covered)
      (elim (Bool-cases (k == m)) [ inl c ↦ rw c (ground arith) | inr c ↦ rw c (ground arith) ])
covered_pattern e m s p h = ground arith

guards_patterns : (s : MatchScan) (ps : List Expr) → (scan_patterns s ps).has_guard ≡ s.has_guard
unfolding scan_patterns
guards_patterns s [] = refl
guards_patterns s (p ∷ ps) = guards_patterns (scan_pattern s p) ps ∙ guard_pattern s p

pub has_guard_arms :
    (s : MatchScan) (as' : List ArmInfo)
    → (scan_arms s as').has_guard ≡ s.has_guard || some_guard as'
unfolding scan_arms
has_guard_arms s [] = ground arith
has_guard_arms s (a ∷ as') =
    has_guard_arms (scan_patterns (scan_guard s a.has_guard) a.patterns) as'
    ∙ ap (λ c. c || some_guard as') (guards_patterns (scan_guard s a.has_guard) a.patterns)
    ∙ noted s a.has_guard (some_guard as')
  where
    noted : (s : MatchScan) (b c : Bool) → (scan_guard s b).has_guard || c ≡ s.has_guard || (b || c)
    noted s true c = ground arith
    noted s false c = ground arith

-- No case of a guard changes what the loop gathers on the patterns.
wild_guard : (s : MatchScan) (b : Bool) → (scan_guard s b).has_wild ≡ s.has_wild
wild_guard s true = refl
wild_guard s false = refl

name_guard :
    (e : Text) (s : MatchScan) (b : Bool) → (scan_guard s b).enum_name == e ≡ s.enum_name == e
name_guard e s true = refl
name_guard e s false = refl

covered_guard :
    (m : Text) (s : MatchScan) (b : Bool) → seen_at m (scan_guard s b).covered ≡ seen_at m s.covered
covered_guard m s true = refl
covered_guard m s false = refl

pub has_wild_arms :
    (as' : List ArmInfo) → (scan_arms scan_start as').has_wild ≡ some_case is_wildcard as'
has_wild_arms as' =
    gathered (λ s. s.has_wild) is_wildcard Anything wild_guard wild_pattern scan_start as'
      (any_arms as')

pub enum_name_arms :
    (e : Text) (as' : List ArmInfo)
    → AllPatterns (On e) as'
    → some_case is_qualified as' ≡ true
    → (scan_arms scan_start as').enum_name ≡ e
enum_name_arms e as' h k = (text_beq_iff (scan_arms scan_start as').enum_name e).0 (
    ground (
      arith,
      k,
      gathered (λ s. s.enum_name == e) is_qualified (On e) (name_guard e) (name_pattern e)
          scan_start as' h,
    ))

pub covered_arms :
    (e m : Text) (as' : List ArmInfo)
    → AllPatterns (On e) as'
    → seen_at m (scan_arms scan_start as').covered ≡ some_case (is_case e m) as'
covered_arms e m as' h =
    gathered (λ s. seen_at m s.covered) (is_case e m) (On e) (covered_guard m) (covered_pattern e m)
      scan_start as' h
