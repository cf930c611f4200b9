-- ===== src/Diag/Invariant.antt =====
-- diag/diagnostic.go: what every bag that is built by `Add` satisfies.
use domainscript.Prelude.{
  ℕ, ◌+◌, ◌≤◌, ◌≡◌, refl, sym, ap, ◌∙◌, ◌↔◌, inl, inr, Bool, true, false, ◌&&◌, ◌||◌, List, [], ◌∷◌,
  ◌++◌, ◌==◌, nat_eq, text_eq, text_beq_iff, nat_beq_iff, leb, Bool-cases, if_cases, Bool_ext,
  if◌then◌else◌, arith, some, none, Option,
}
use domainscript.Prelude
use domainscript.Diag.{
  severity_number, is_error, Diagnostic, DiagnosticBag, new_with_max, key, or_false, seen_at, keep,
  add, add_all,
}
use domainscript.Diag.Key.{Same, key_exact, severity_number-injective}

-- The two cases of `Add` that return early, the truncation, and the end of the function.
pub add_cases {ℓ} :
    (P : DiagnosticBag → Type ℓ) (b : DiagnosticBag) (d : Diagnostic)
    → (b.truncated ≡ true → P b)
    → (b.truncated ≡ false → seen_at (key d) b.seen ≡ true → P b)
    → (b.truncated ≡ false
        → is_error d.severity ≡ true
        → leb b.max_errors b.errors ≡ true
        → P (record b { truncated = true }))
    → (b.truncated ≡ false
        → seen_at (key d) b.seen ≡ false
        → (is_error d.severity && leb b.max_errors b.errors) ≡ false
        → P (keep b d))
    → P (add b d)
unfolding add
add_cases P b d cut known full fresh = if_cases P b.truncated cut λ t.
    if_cases P (seen_at (key d) b.seen) (known t) λ s.
      if_cases P (is_error d.severity && leb b.max_errors b.errors)
        (λ f. full t (ground arith) (ground arith)) (fresh t s)

-- The same position, severity and message, as a test.
abbrev pub same : Diagnostic → Diagnostic → Bool
same d e =
    (d.pos.line == e.pos.line && d.pos.col == e.pos.col)
    && (severity_number d.severity == severity_number e.severity && d.msg == e.msg)

pub same_iff : (d e : Diagnostic) → (same d e ≡ true) ↔ Same d e
same_iff d e = (λ h. forward h, λ h. ground (arith, (text_beq_iff d.msg e.msg).1))
  where
    forward : same d e ≡ true → Same d e
    forward h = (
      ground arith,
      severity_number-injective d.severity e.severity (ground arith),
      (text_beq_iff d.msg e.msg).0 (ground arith),
    )

-- The map is asked by key; the answer is that of the fields.
pub key-same : (d e : Diagnostic) → (key d == key e) ≡ same d e
key-same d e =
    Bool_ext _ _ (λ h. (same_iff d e).1 ((key_exact d e).0 ((text_beq_iff _ _).0 h)))
      (λ h. (text_beq_iff _ _).1 ((key_exact d e).1 ((same_iff d e).0 h)))

-- A diagnostic the same as `d` stands in the list.
abbrev pub occurs : Diagnostic → List Diagnostic → Bool
occurs d [] = false
occurs d (e ∷ es) = same e d || occurs d es

-- No two entries of the list are the same.
abbrev pub Distinct : List Diagnostic → Type 0
Distinct [] = Unit
Distinct (d ∷ ds) = (occurs d ds ≡ false) × Distinct ds

abbrev pub count_errors : List Diagnostic → ℕ
count_errors [] = 0
count_errors (d ∷ ds) = (if is_error d.severity then 1 else 0) + count_errors ds

-- The counter is the number of errors stored and keeps to the ceiling, no diagnostic is stored
-- twice, a truncated bag is at its ceiling, and `seen` holds the keys of what is stored.
pub record Inv (b : DiagnosticBag) : Type 0 where
  pub counted : b.errors ≡ count_errors b.items
  pub bounded : b.errors ≤ b.max_errors
  pub distinct : Distinct b.items
  pub capped : b.truncated ≡ true → b.errors ≡ b.max_errors
  pub seen_exact : (d : Diagnostic) → seen_at (key d) b.seen ≡ occurs d b.items

pub occurs-concat :
    (d e : Diagnostic) (es : List Diagnostic) → occurs d (es ++ e ∷ []) ≡ (same e d || occurs d es)
occurs-concat d e [] = refl
occurs-concat d e (x ∷ es) = ground (arith, occurs-concat d e es)

same_sym : (d e : Diagnostic) → same d e ≡ same e d
same_sym d e =
    Bool_ext _ _ (λ h. (same_iff e d).1 (swap d e ((same_iff d e).0 h)))
      (λ h. (same_iff d e).1 (swap e d ((same_iff e d).0 h)))
  where
    swap : (x y : Diagnostic) → Same x y → Same y x
    swap x y (p, q, r) = (sym p, sym q, sym r)

Distinct-concat :
    (d : Diagnostic) (es : List Diagnostic)
    → Distinct es
    → occurs d es ≡ false
    → Distinct (es ++ d ∷ [])
Distinct-concat d [] h o = (refl, tt)
Distinct-concat d (e ∷ es) h o = (
  occurs-concat e d es ∙ ground (arith, h.0, same_sym d e),
  Distinct-concat d es h.1 (ground arith),
)

count_errors-concat :
    (d : Diagnostic) (es : List Diagnostic)
    → count_errors (es ++ d ∷ []) ≡ count_errors es + (if is_error d.severity then 1 else 0)
count_errors-concat d [] = omega arith
count_errors-concat d (e ∷ es) = omega (arith, count_errors-concat d es)

or_false-if :
    (c : Bool) (o : Option Bool) {x : Bool}
    → or_false o ≡ x
    → or_false (if c then some true else o) ≡ (c || x)
or_false-if true o h = refl
or_false-if false o h = h

keep-seen :
    (b : DiagnosticBag) (d e : Diagnostic)
    → seen_at (key e) b.seen ≡ occurs e b.items
    → seen_at (key e) (keep b d).seen ≡ occurs e (keep b d).items
keep-seen b d e h =
    ap or_false (Prelude.lookup-insert (key d) (key e) true b.seen)
    ∙ or_false-if (key d == key e) (Prelude.lookup (key e) b.seen) h
    ∙ ap (λ c. c || occurs e b.items) (key-same d e)
    ∙ sym (occurs-concat e d b.items)

keep-Inv :
    (b : DiagnosticBag) (d : Diagnostic)
    → Inv b
    → b.truncated ≡ false
    → seen_at (key d) b.seen ≡ false
    → (is_error d.severity && leb b.max_errors b.errors) ≡ false
    → Inv (keep b d)
keep-Inv b d i t s f = record {
  counted = ground (arith, i.counted, count_errors-concat d b.items);
  bounded = ground (arith, i.bounded);
  distinct = Distinct-concat d b.items i.distinct (sym (i.seen_exact d) ∙ s);
  capped = λ e. cc;
  seen_exact = λ e. keep-seen b d e (i.seen_exact e);
}

pub add-Inv : (b : DiagnosticBag) (d : Diagnostic) → Inv b → Inv (add b d)
add-Inv b d i =
    add_cases Inv b d (λ _. i) (λ _ _. i)
      (λ t e f. record {
        counted = i.counted;
        bounded = i.bounded;
        distinct = i.distinct;
        capped = λ _. ground (arith, i.bounded);
        seen_exact = i.seen_exact;
      })
      (keep-Inv b d i)

pub new-Inv : (n : ℕ) → Inv (new_with_max n)
new-Inv n = record {
  counted = refl;
  bounded = omega arith;
  distinct = tt;
  capped = λ e. cc;
  seen_exact = λ d. refl;
}

add_all-Inv_from : (ds : List Diagnostic) (b : DiagnosticBag) → Inv b → Inv (add_all b ds)
unfolding add_all
add_all-Inv_from [] b i = i
add_all-Inv_from (d ∷ ds) b i = add_all-Inv_from ds (add b d) (add-Inv b d i)

-- A bag that `Add` fills from empty, in any order and at any ceiling, counts its stored errors
-- exactly, keeps to the ceiling, stores nothing twice (position, severity and message), is
-- truncated only at its ceiling, and remembers exactly what it stores.
pub add_all-Inv : (n : ℕ) (ds : List Diagnostic) → Inv (add_all (new_with_max n) ds)
add_all-Inv n ds = add_all-Inv_from ds (new_with_max n) (new-Inv n)
