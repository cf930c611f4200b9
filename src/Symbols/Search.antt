-- ===== src/Symbols/Search.antt =====
-- symbols/table.go: the answers of `Find`.
use domainscript.Prelude.{
  ℕ, ◌≡◌, refl, sym, ap, ◌∙◌, ◌↔◌, ◌⊎◌, inl, inr, Bool, true, false, Option, none, some, List, [],
  ◌∷◌, Text, Map, text_eq, text_beq_iff, text_ltb, ◌==◌, arith, if◌then◌else◌, if_cases,
  Option-cases, Bool-cases, All, All-map, subst,
}
use domainscript.Prelude
use domainscript.Symbols.{
  Symbol, SymbolTable, or_empty, lookup_public, or_else, insert_name, sorted_modules, find_in, find,
}
use domainscript.Symbols.Laws.{declared}

text_ltb_irrefl : (s : Text) → text_ltb s s ≡ false
text_ltb_irrefl [] = refl
text_ltb_irrefl (a ∷ s) = ground (arith, text_ltb_irrefl s)

text_ltb_asymm : (s t : Text) → text_ltb s t ≡ true → text_ltb t s ≡ false
text_ltb_asymm [] t h = ground arith
text_ltb_asymm (a ∷ s) [] h = cc
text_ltb_asymm (a ∷ s) (b ∷ t) h = ground (arith, text_ltb_asymm s t)

-- "Not below" is transitive.
text_nlt_trans : (r s t : Text) → text_ltb s r ≡ false → text_ltb t s ≡ false → text_ltb t r ≡ false
text_nlt_trans [] s [] h k = refl
text_nlt_trans [] s (c ∷ t) h k = refl
text_nlt_trans (a ∷ r) [] t h k = cc
text_nlt_trans (a ∷ r) (b ∷ s) [] h k = cc
text_nlt_trans (a ∷ r) (b ∷ s) (c ∷ t) h k = ground (arith, text_nlt_trans r s t)

abbrev NoneBelow : Text → List Text → Type 0
NoneBelow a = All (λ b. text_ltb b a ≡ false)

abbrev InOrder : List Text → Type 0
InOrder [] = Unit
InOrder (a ∷ as') = NoneBelow a as' × InOrder as'

abbrev In : Text → List Text → Type 0
In a [] = ⊥
In a (b ∷ bs) = (b ≡ a) ⊎ In a bs

insert_name-NoneBelow :
    (c a : Text) (bs : List Text)
    → text_ltb a c ≡ false
    → NoneBelow c bs
    → NoneBelow c (insert_name a bs)
unfolding insert_name
insert_name-NoneBelow c a [] h k = (h, tt)
insert_name-NoneBelow c a (b ∷ bs) h k =
    if_cases (NoneBelow c) (text_ltb b a) (λ _. (k.0, insert_name-NoneBelow c a bs h k.1))
      (λ _. (h, k))

insert_name-InOrder : (a : Text) (bs : List Text) → InOrder bs → InOrder (insert_name a bs)
unfolding insert_name
insert_name-InOrder a [] s = (tt, tt)
insert_name-InOrder a (b ∷ bs) s =
    if_cases InOrder (text_ltb b a)
      (λ h. (insert_name-NoneBelow b a bs (text_ltb_asymm b a h) s.0, insert_name-InOrder a bs s.1))
      (λ h. ((h, All-map bs (λ x k. text_nlt_trans a b x h k) s.0), s))

insert_name-In : (m a : Text) (bs : List Text) → (a ≡ m) ⊎ In m bs → In m (insert_name a bs)
unfolding insert_name
insert_name-In m a [] h = h
insert_name-In m a (b ∷ bs) (inl e) =
    if_cases (In m) (text_ltb b a) (λ _. inr (insert_name-In m a bs (inl e))) (λ _. inl e)
insert_name-In m a (b ∷ bs) (inr (inl e)) =
    if_cases (In m) (text_ltb b a) (λ _. inl e) (λ _. inr (inl e))
insert_name-In m a (b ∷ bs) (inr (inr i)) =
    if_cases (In m) (text_ltb b a) (λ _. inr (insert_name-In m a bs (inr i))) (λ _. inr (inr i))

-- The first name of the list is below no other in it.
below_head :
    (m a : Text) (as' : List Text) → NoneBelow a as' → In m (a ∷ as') → text_ltb m a ≡ false
below_head m a [] h (inl e) = subst (λ x. text_ltb x a ≡ false) e (text_ltb_irrefl a)
below_head m a [] h (inr i) = elim i [ ]
below_head m a (b ∷ bs) h (inl e) = subst (λ x. text_ltb x a ≡ false) e (text_ltb_irrefl a)
below_head m a (b ∷ bs) h (inr (inl e)) = subst (λ x. text_ltb x a ≡ false) e h.0
below_head m a (b ∷ bs) h (inr (inr i)) = below_head m a bs h.1 (inr i)

module _ {D : Type 0} where
  sorted_modules-InOrder : (ms : Map Text (Map Text (Symbol D))) → InOrder (sorted_modules ms)
  unfolding sorted_modules
  sorted_modules-InOrder [] = tt
  sorted_modules-InOrder ((m, _) ∷ ms) =
      insert_name-InOrder m (sorted_modules ms) (sorted_modules-InOrder ms)

  sorted_modules-In :
      (m n : Text) (ms : Map Text (Map Text (Symbol D))) (s : Symbol D)
      → Prelude.lookup n (or_empty (Prelude.lookup m ms)) ≡ some s
      → In m (sorted_modules ms)
  unfolding sorted_modules
  sorted_modules-In m n [] s h = cc
  sorted_modules-In m n ((k, v) ∷ ms) s h = elim (Bool-cases (k == m)) [
    | inl e ↦ insert_name-In m k (sorted_modules ms) (inl ((text_beq_iff k m).0 e))
    | inr e ↦ insert_name-In m k (sorted_modules ms) (inr (sorted_modules-In m n ms s (rw e at h)))
  ]

  or_else-none : (o p : Option (Symbol D)) → or_else o p ≡ none → (o ≡ none) × (p ≡ none)
  or_else-none none p h = (refl, h)
  or_else-none (some s) p h = cc

  find_in_absent :
      (t : SymbolTable D) (n : Text) (ms : List Text)
      → ((m : Text) → declared t m n ≡ none)
      → find_in t n ms ≡ none
  unfolding find_in
  find_in_absent t n [] h = refl
  find_in_absent t n (m ∷ ms) h = rw (h m, or_else) (find_in_absent t n ms h)

  module _ (t : SymbolTable D) (n : Text) where
    -- The symbol stands in a module, and no module before that one declares the name.
    abbrev IsFirst : List Text → Symbol D → Type 0
    IsFirst ms s =
        (m : Text) × (declared t m n ≡ some s)
        × ((k : Text) (r : Symbol D) → In k ms → declared t k n ≡ some r → text_ltb k m ≡ false)

    find_in-IsFirst :
        (ms : List Text) (s : Symbol D) → InOrder ms → find_in t n ms ≡ some s → IsFirst ms s
    unfolding find_in
    find_in-IsFirst [] s o h = cc
    find_in-IsFirst (m ∷ ms) s o h = elim (Option-cases (declared t m n)) [
      | inl none_here ↦
          let (j, d, least) = find_in-IsFirst ms s o.1 (rw (none_here, or_else) at h) in
          (j, d, λ k r i e. later k j r none_here (least k r) e i)
      | inr (x, e) ↦ (m, e ∙ (rw (e, or_else) at h), λ k r i _. below_head k m ms o.0 i)
    ]
      where
        later :
            (k j : Text) (r : Symbol D)
            → declared t m n ≡ none
            → (In k ms → declared t k n ≡ some r → text_ltb k j ≡ false)
            → declared t k n ≡ some r
            → (m ≡ k) ⊎ In k ms
            → text_ltb k j ≡ false
        later k j r none_here f e (inl p) = absurd (cc (p, none_here, e))
        later k j r none_here f e (inr i) = f i e

    find_in-none :
        (ms : List Text) (m : Text) → find_in t n ms ≡ none → In m ms → declared t m n ≡ none
    unfolding find_in
    find_in-none [] m h i = elim i [ ]
    find_in-none (k ∷ ms) m h (inl e) = subst (λ j. declared t j n ≡ none) e (or_else-none _ _ h).0
    find_in-none (k ∷ ms) m h (inr i) = find_in-none ms m (or_else-none _ _ h).1 i

    -- `Find` misses nothing: it gives no symbol exactly if the name is neither public nor declared
    -- in any module.
    pub find-none :
        (find t n ≡ none) ↔ ((lookup_public t n ≡ none) × ((m : Text) → declared t m n ≡ none))
    unfolding find
    find-none = (forward, backward)
      where
        forward :
            find t n ≡ none → (lookup_public t n ≡ none) × ((m : Text) → declared t m n ≡ none)
        forward h = (
          (or_else-none _ _ h).0,
          λ m. elim (Option-cases (declared t m n)) [
            | inl e ↦ e
            | inr (s, e) ↦
                find_in-none (sorted_modules t.by_module) m (or_else-none _ _ h).1
                  (sorted_modules-In m n t.by_module s e)
          ],
        )

        absent : (ms : List Text) → ((m : Text) → declared t m n ≡ none) → find_in t n ms ≡ none
        absent ms h = find_in_absent t n ms h

        backward :
            (lookup_public t n ≡ none) × ((m : Text) → declared t m n ≡ none) → find t n ≡ none
        backward (p, h) = rw (p, or_else) (absent (sorted_modules t.by_module) h)

    find_least :
        (s : Symbol D)
        → lookup_public t n ≡ none
        → find t n ≡ some s
        → (m : Text) × (declared t m n ≡ some s)
          × ((k : Text) (r : Symbol D) → declared t k n ≡ some r → text_ltb k m ≡ false)
    unfolding find
    find_least s p h =
        let (m, d, least) =
          find_in-IsFirst (sorted_modules t.by_module) s (sorted_modules-InOrder t.by_module)
            (rw (p, or_else) at h) in
        (m, d, λ k r e. least k r (sorted_modules-In k n t.by_module r e) e)

    -- A name that is not public and that a module declares is found, in a module that declares it
    -- and whose name is not behind that of the other: the order of iteration of the map does not
    -- show.
    pub find_first :
        (k : Text) (r : Symbol D)
        → lookup_public t n ≡ none
        → declared t k n ≡ some r
        → (s : Symbol D) × (find t n ≡ some s)
          × (m : Text) × (declared t m n ≡ some s)
          × (text_ltb k m ≡ false)
    find_first k r p d = elim (Option-cases (find t n)) [
      | inl e ↦ absurd (let gone = (find-none.0 e).1 k in cc)
      | inr (s, e) ↦ let (m, i, least) = find_least s p e in (s, e, m, i, least k r d)
    ]
