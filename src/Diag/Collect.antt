-- ===== src/Diag/Collect.antt =====
-- diag/diagnostic.go: what a bag stores of the diagnostics that it was given, and what it reports.
use domainscript.Prelude.{
  ℕ, ◌≤◌, ◌≡◌, refl, sym, ap, ◌∙◌, inl, inr, Bool, true, false, ◌||◌, List, [], ◌∷◌, ◌++◌, nat_eq,
  Bool-cases, if◌then◌else◌, arith,
}
use domainscript.Diag.{is_error, Diagnostic, DiagnosticBag, new_with_max, add, add_all, has_errors}
use domainscript.Diag.Invariant.{
  add_cases, same, same_iff, occurs, Inv, count_errors, add-Inv, new-Inv,
}

-- The specification: the first of each kind of diagnostic, in the order of arrival.
abbrev pub distinct_onto : List Diagnostic → List Diagnostic → List Diagnostic
distinct_onto kept [] = kept
distinct_onto kept (d ∷ ds) = distinct_onto (if occurs d kept then kept else kept ++ d ∷ []) ds

abbrev pub any_error : List Diagnostic → Bool
any_error [] = false
any_error (d ∷ ds) = is_error d.severity || any_error ds

-- Once truncated, a bag does not change.
add_all_truncated :
    (ds : List Diagnostic) (b : DiagnosticBag) → b.truncated ≡ true → add_all b ds ≡ b
unfolding add_all add
add_all_truncated [] b t = refl
add_all_truncated (d ∷ ds) b t = ground (arith, add_all_truncated ds b)

-- One call of `Add` on a bag that is not truncated by it.
add-items :
    (b : DiagnosticBag) (d : Diagnostic)
    → Inv b
    → (add b d).truncated ≡ false
    → (add b d).items ≡ (if occurs d b.items then b.items else b.items ++ d ∷ [])
add-items b d i =
    add_cases
      (λ r.
        r.truncated ≡ false → r.items ≡ (if occurs d b.items then b.items else b.items ++ d ∷ []))
      b d (λ t u. cc) (λ t s u. rw (sym (i.seen_exact d) ∙ s) refl) (λ t e f u. cc)
      (λ t s f u. rw (sym (i.seen_exact d) ∙ s) refl)

add_all-distinct_from :
    (ds : List Diagnostic) (b : DiagnosticBag)
    → Inv b
    → (add_all b ds).truncated ≡ false
    → (add_all b ds).items ≡ distinct_onto b.items ds
unfolding add_all
add_all-distinct_from [] b i t = refl
add_all-distinct_from (d ∷ ds) b i t = elim (Bool-cases (add b d).truncated) [
  | inl u ↦ cc (add_all_truncated ds (add b d) u, t, u)
  | inr u ↦
      add_all-distinct_from ds (add b d) (add-Inv b d i) t
      ∙ ap (λ k. distinct_onto k ds) (add-items b d i u)
]

-- A bag that was not truncated stores the first of each kind of diagnostic, in order of arrival:
-- the deduplication loses nothing else.
pub add_all-distinct :
    (n : ℕ) (ds : List Diagnostic)
    → (add_all (new_with_max n) ds).truncated ≡ false
    → (add_all (new_with_max n) ds).items ≡ distinct_onto [] ds
add_all-distinct n ds = add_all-distinct_from ds (new_with_max n) (new-Inv n)

-- An error that is stored already shows in the counter.
occurs_error :
    (d : Diagnostic) (es : List Diagnostic)
    → occurs d es ≡ true
    → is_error d.severity ≡ true
    → 1 ≤ count_errors es
occurs_error d [] o e = cc
occurs_error d (x ∷ es) o e = elim (Bool-cases (same x d)) [
  | inl s ↦ rw (ap is_error ((same_iff x d).0 s).1 ∙ e) (omega arith)
  | inr s ↦ omega (arith, occurs_error d es (rw s at o) e)
]

pub add-has_errors :
    (b : DiagnosticBag) (d : Diagnostic)
    → Inv b
    → has_errors (add b d) ≡ (has_errors b || is_error d.severity)
unfolding has_errors
add-has_errors b d i =
    add_cases (λ r. has_errors r ≡ (has_errors b || is_error d.severity)) b d (λ t. ground arith)
      (λ t s. ground (arith, i.counted, i.seen_exact d, occurs_error d b.items))
      (λ t e f. ground arith) (λ t s f. ground arith)

has_errors-add_all_from :
    (ds : List Diagnostic) (b : DiagnosticBag)
    → Inv b
    → has_errors (add_all b ds) ≡ (has_errors b || any_error ds)
unfolding add_all
has_errors-add_all_from [] b i = ground arith
has_errors-add_all_from (d ∷ ds) b i =
    ground (arith, has_errors-add_all_from ds (add b d) (add-Inv b d i), add-has_errors b d i)

-- `HasErrors` is true exactly if an error was among the diagnostics added, whatever the ceiling
-- and however many were dropped as duplicates or beyond it.
pub has_errors-add_all :
    (n : ℕ) (ds : List Diagnostic) → has_errors (add_all (new_with_max n) ds) ≡ any_error ds
unfolding has_errors
has_errors-add_all n ds = has_errors-add_all_from ds (new_with_max n) (new-Inv n)
