-- ===== src/Goname/Idents.antt =====
-- codegen/goname/names.go: `Ident` and the keywords of Go.
use domainscript.Prelude.{
  ◌≡◌, refl, sym, ap, ◌∙◌, ◌↔◌, ◌⊎◌, inl, inr, Bool, true, false, List, [], ◌∷◌, ◌++◌, Text, codes,
  text_eq, text_beq_iff, ◌==◌, nat_eq, if◌then◌else◌, Bool-cases, arith, All,
}
use domainscript.Goname.{go_keywords, listed, is_go_keyword, go_ident}

-- The last rune of the text is `_`.
abbrev ends_underscored : Text → Bool
ends_underscored [] = false
ends_underscored (c ∷ []) = c == b'_'
ends_underscored (c ∷ d ∷ s) = ends_underscored (d ∷ s)

ends_underscored-append : (s : Text) → ends_underscored (s ++ codes "_") ≡ true
ends_underscored-append [] = refl
ends_underscored-append (c ∷ []) = refl
ends_underscored-append (c ∷ d ∷ s) = ends_underscored-append (d ∷ s)

listed-plain :
    (ws : List Text) (s : Text)
    → All (λ w. ends_underscored w ≡ false) ws
    → listed ws s ≡ true
    → ends_underscored s ≡ false
listed-plain [] s h l = absurd (ground arith)
listed-plain (w ∷ ws) s h l = elim (Bool-cases (w == s)) [
  | inl e ↦ ap ends_underscored (sym ((text_beq_iff w s).0 e)) ∙ h.0
  | inr e ↦ listed-plain ws s h.1 (rw e at l)
]

keywords-plain : All (λ w. ends_underscored w ≡ false) go_keywords
keywords-plain = ground arith

underscored-not_keyword : (s : Text) → is_go_keyword (s ++ codes "_") ≡ false
underscored-not_keyword s = elim (Bool-cases (is_go_keyword (s ++ codes "_"))) [
  | inl e ↦ absurd (
      let f : true ≡ false =
        sym (ends_underscored-append s)
        ∙ listed-plain go_keywords (s ++ codes "_") keywords-plain e in
      ground arith)
  | inr e ↦ e
]

append_underscore-injective : (s t : Text) → s ++ codes "_" ≡ t ++ codes "_" → s ≡ t
append_underscore-injective [] [] h = refl
append_underscore-injective [] (b ∷ []) h = ground arith
append_underscore-injective [] (b ∷ c ∷ t) h = ground arith
append_underscore-injective (a ∷ []) [] h = ground arith
append_underscore-injective (a ∷ c ∷ s) [] h = ground arith
append_underscore-injective (a ∷ s) (b ∷ t) h = ground (arith, append_underscore-injective s t)

-- `Ident` never gives a keyword of Go.
pub go_ident-not_keyword : (name : Text) → is_go_keyword (go_ident name) ≡ false
unfolding go_ident
go_ident-not_keyword name = elim (Bool-cases (is_go_keyword name)) [
  | inl e ↦ rw e (underscored-not_keyword name)
  | inr e ↦ rw e e
]

-- `Ident` joins two names exactly if they are the same, or one is a keyword of Go and the other is
-- that keyword with `_` behind it: then two identifiers of the program get one name in Go.
pub go_ident-joins :
    (s t : Text)
    → (go_ident s ≡ go_ident t) ↔ (
        (s ≡ t)
        ⊎ (((is_go_keyword s ≡ true) × (t ≡ s ++ codes "_"))
            ⊎ ((is_go_keyword t ≡ true) × (s ≡ t ++ codes "_"))))
unfolding go_ident
go_ident-joins s t = (forward, backward)
  where
    forward :
        (if is_go_keyword s then s ++ codes "_" else s)
          ≡ (if is_go_keyword t then t ++ codes "_" else t)
        → (s ≡ t)
          ⊎ (((is_go_keyword s ≡ true) × (t ≡ s ++ codes "_"))
              ⊎ ((is_go_keyword t ≡ true) × (s ≡ t ++ codes "_")))
    forward h = elim (Bool-cases (is_go_keyword s)) [
      | inl e ↦ elim (Bool-cases (is_go_keyword t)) [
        | inl f ↦ inl (append_underscore-injective s t (rw (e, f) at h))
        | inr f ↦ inr (inl (e, sym (rw (e, f) at h)))
      ]
      | inr e ↦ elim (Bool-cases (is_go_keyword t)) [
        | inl f ↦ inr (inr (f, rw (e, f) at h))
        | inr f ↦ inl (rw (e, f) at h)
      ]
    ]

    backward :
        (s ≡ t)
          ⊎ (((is_go_keyword s ≡ true) × (t ≡ s ++ codes "_"))
              ⊎ ((is_go_keyword t ≡ true) × (s ≡ t ++ codes "_")))
        → (if is_go_keyword s then s ++ codes "_" else s)
          ≡ (if is_go_keyword t then t ++ codes "_" else t)
    backward (inl e) = ap (λ n. if is_go_keyword n then n ++ codes "_" else n) e
    backward (inr (inl (k, e))) = rw (e, k, underscored-not_keyword s) refl
    backward (inr (inr (k, e))) = rw (e, k, underscored-not_keyword t) refl
