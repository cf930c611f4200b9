-- ===== src/Token/Keywords.antt =====
-- token/token.go: `Lookup` against the table `kinds`.
use domainscript.Prelude.{
  ◌≡◌, refl, sym, ◌∙◌, ap, subst, ◌↔◌, ◌⊎◌, inl, inr, Bool, true, false, not, ◌&&◌, ◌||◌, Option,
  none, some, List, [], ◌∷◌, ℕ, suc, zero, ◌<◌, Text, Map, text_eq, text_beq_iff, if◌then◌else◌,
  arith, get_or, length, All, Bool-cases, Option-cases, ◌==◌,
}
use domainscript.Prelude
use domainscript.Token.Kinds.{
  Kind, illegal, ident, all_kinds, is_keyword, kinds, ordinal, kind_beq, kind_beq_iff,
  get_or-all_kinds,
}
use domainscript.Token.Lookup.{select_keywords, init_keywords, keywords, or_ident, lookup_ident}

all_pass : (Kind → Bool) → List Kind → Bool
all_pass p [] = true
all_pass p (k ∷ ks) = p k && all_pass p ks

all_pass_at :
    (p : Kind → Bool) (ks : List Kind) (n : ℕ)
    → all_pass p ks ≡ true
    → n < length ks
    → p (get_or ks n illegal) ≡ true
unfolding all_pass
all_pass_at p [] n h l = absurd (omega arith)
all_pass_at p (k ∷ ks) zero h l = ground arith
all_pass_at p (k ∷ ks) (suc n) h l = ground (arith, all_pass_at p ks n)

ordinal_bound : (k : Kind) → ordinal k < length all_kinds
ordinal_bound illegal = omega arith
ordinal_bound _ = omega arith

-- A test that passes at each entry of the table of kinds passes at every kind.
every_kind : (p : Kind → Bool) → all_pass p all_kinds ≡ true → (k : Kind) → p k ≡ true
every_kind p h k =
    subst (λ j. p j ≡ true) (get_or-all_kinds k)
      (all_pass_at p all_kinds (ordinal k) h (ordinal_bound k))

found : Kind → Bool
found k = not (is_keyword k) || kind_beq (lookup_ident (kinds k)) k

found_table : all_pass found all_kinds ≡ true
unfolding all_pass found lookup_ident is_keyword
found_table = refl

abbrev IsEntry : Text × Kind → Type 0
IsEntry (t, k) = (kinds k ≡ t) × (is_keyword k ≡ true)

insert-All :
    (k : Kind) (m : Map Text Kind)
    → is_keyword k ≡ true
    → All IsEntry m
    → All IsEntry (Prelude.insert (kinds k) k m)
insert-All k [] h a = ((refl, h), tt)
insert-All k ((t, j) ∷ m) h a = elim (Bool-cases (t == kinds k)) [
  | inl same ↦ rw same ((refl, h), a.1)
  | inr other ↦ rw other (a.0, insert-All k m h a.1)
]

init_keywords-All :
    (m : Map Text Kind) (ks : List Kind)
    → All IsEntry m
    → All IsEntry (init_keywords m (select_keywords ks))
unfolding init_keywords is_keyword
init_keywords-All m [] a = a
init_keywords-All m (k ∷ ks) a = elim (Bool-cases (is_keyword k)) [
  | inl h ↦ rw h (init_keywords-All (Prelude.insert (kinds k) k m) ks (insert-All k m h a))
  | inr h ↦ rw h (init_keywords-All m ks a)
]

keywords-All : All IsEntry keywords
unfolding keywords
keywords-All = init_keywords-All [] all_kinds tt

lookup-IsEntry :
    (s : Text) (m : Map Text Kind) (k : Kind)
    → All IsEntry m
    → Prelude.lookup s m ≡ some k
    → (kinds k ≡ s) × (is_keyword k ≡ true)
lookup-IsEntry s [] k a h = cc
lookup-IsEntry s ((t, j) ∷ m) k a h = elim (Bool-cases (t == s)) [
  | inl same ↦
      let q : some j ≡ some k = rw same at h in
      let e : j ≡ k = cc in
      subst (λ i. (kinds i ≡ s) × (is_keyword i ≡ true)) e
        (a.0.0 ∙ (text_beq_iff t s).0 same, a.0.1)
  | inr other ↦ lookup-IsEntry s m k a.1 (rw other at h)
]

lookup_ident_found :
    (s : Text)
    → (lookup_ident s ≡ ident)
      ⊎ ((kinds (lookup_ident s) ≡ s) × (is_keyword (lookup_ident s) ≡ true))
unfolding lookup_ident
lookup_ident_found s = elim (Option-cases (Prelude.lookup s keywords)) [
  | inl e ↦ inl (ap or_ident e)
  | inr (k, e) ↦ inr (
      subst (λ o. (kinds (or_ident o) ≡ s) × (is_keyword (or_ident o) ≡ true)) (sym e)
        (lookup-IsEntry s keywords k keywords-All e))
]

-- Every keyword is found under its text.
pub lookup_ident-kinds : (k : Kind) → is_keyword k ≡ true → lookup_ident (kinds k) ≡ k
lookup_ident-kinds k h =
    let t : found k ≡ true = every_kind found found_table k in
    (kind_beq_iff _ k).0 (unfold found in (rw h at t))

ident_ne_keyword : is_keyword ident ≡ true → ⊥
unfolding is_keyword
ident_ne_keyword h = cc

pub lookup_ident_member :
    (s : Text) → (lookup_ident s ≡ ident) ⊎ (is_keyword (lookup_ident s) ≡ true)
lookup_ident_member s = elim (lookup_ident_found s) [ inl i ↦ inl i | inr (_, k) ↦ inr k ]

-- `Lookup` is exact: it gives a keyword on the text of that keyword and on no other text, and
-- whatever it gives is a keyword or IDENT.
pub lookup_ident_exact :
    (s : Text) (k : Kind)
    → is_keyword k ≡ true
    → ((lookup_ident s ≡ k) ↔ (s ≡ kinds k))
      × ((lookup_ident s ≡ ident) ⊎ (is_keyword (lookup_ident s) ≡ true))
lookup_ident_exact s k h =
    ((forward, λ e. ap lookup_ident e ∙ lookup_ident-kinds k h), lookup_ident_member s)
  where
    forward : lookup_ident s ≡ k → s ≡ kinds k
    forward e = elim (lookup_ident_found s) [
      | inl i ↦ absurd (ident_ne_keyword (subst (λ j. is_keyword j ≡ true) (sym e ∙ i) h))
      | inr (t, _) ↦ sym t ∙ ap kinds e
    ]
