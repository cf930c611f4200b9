-- ===== src/Diag/Sorted.antt =====
-- diag/diagnostic.go: the order in which `All` gives the diagnostics.
use domainscript.Prelude.{
  ◌≡◌, refl, sym, ap, ◌∙◌, ◌↔◌, subst, ◌↔◌, inl, inr, ◌≢◌, Bool, true, false, ◌&&◌, List, [], ◌∷◌,
  ◌==◌, nat_eq, Bool-cases, if_cases, if◌then◌else◌, arith, All, All-map,
}
use domainscript.Token.{Pos, less}
use domainscript.Token.Order.{less_irrefl, less_asymm, not_less_trans, less_total}
use domainscript.Diag.{Diagnostic, DiagnosticBag, insert_stable, sort_stable, all}

-- No entry stands before `d`.
abbrev pub NoneBefore : Diagnostic → List Diagnostic → Type 0
NoneBefore d = All (λ e. less e.pos d.pos ≡ false)

-- No entry stands behind one that it is before.
abbrev pub Sorted : List Diagnostic → Type 0
Sorted [] = Unit
Sorted (d ∷ ds) = NoneBefore d ds × Sorted ds

abbrev pos_beq : Pos → Pos → Bool
pos_beq p q = p.line == q.line && p.col == q.col

pos_beq_iff : (p q : Pos) → (pos_beq p q ≡ true) ↔ (p ≡ q)
pos_beq_iff p q = ground arith

-- The diagnostics at a position, in their order.
abbrev pub at_pos : Pos → List Diagnostic → List Diagnostic
at_pos p [] = []
at_pos p (d ∷ ds) = if pos_beq d.pos p then d ∷ at_pos p ds else at_pos p ds

-- The two lists hold the same diagnostics, and in the same order at each position.
abbrev pub SameAtEachPos : List Diagnostic → List Diagnostic → Type 0
SameAtEachPos xs ys = (p : Pos) → at_pos p xs ≡ at_pos p ys

insert_stable-NoneBefore :
    (c d : Diagnostic) (ds : List Diagnostic)
    → less d.pos c.pos ≡ false
    → NoneBefore c ds
    → NoneBefore c (insert_stable d ds)
unfolding insert_stable
insert_stable-NoneBefore c d [] h k = (h, tt)
insert_stable-NoneBefore c d (e ∷ es) h k =
    if_cases (NoneBefore c) (less e.pos d.pos) (λ _. (k.0, insert_stable-NoneBefore c d es h k.1))
      (λ _. (h, k))

NoneBefore-trans :
    (d e : Diagnostic) (es : List Diagnostic)
    → less e.pos d.pos ≡ false
    → NoneBefore e es
    → NoneBefore d es
NoneBefore-trans d e es h k = All-map es (λ x m. not_less_trans d.pos e.pos x.pos h m) k

insert_stable-Sorted :
    (d : Diagnostic) (ds : List Diagnostic) → Sorted ds → Sorted (insert_stable d ds)
unfolding insert_stable
insert_stable-Sorted d [] s = (tt, tt)
insert_stable-Sorted d (e ∷ es) s =
    if_cases Sorted (less e.pos d.pos)
      (λ h. (
        insert_stable-NoneBefore e d es (less_asymm e.pos d.pos h) s.0,
        insert_stable-Sorted d es s.1,
      ))
      (λ h. ((h, NoneBefore-trans d e es h s.0), s))

pub sort_stable-Sorted : (ds : List Diagnostic) → Sorted (sort_stable ds)
unfolding sort_stable
sort_stable-Sorted [] = tt
sort_stable-Sorted (d ∷ ds) = insert_stable-Sorted d (sort_stable ds) (sort_stable-Sorted ds)

insert_stable-at_pos :
    (p : Pos) (d : Diagnostic) (ds : List Diagnostic)
    → at_pos p (insert_stable d ds) ≡ at_pos p (d ∷ ds)
unfolding insert_stable less
insert_stable-at_pos p d [] = refl
insert_stable-at_pos p d (e ∷ es) = elim (Bool-cases (less e.pos d.pos)) [
  | inl h ↦ rw h (ground (arith, insert_stable-at_pos p d es))
  | inr h ↦ rw h refl
]

pub sort_stable-at_pos : (ds : List Diagnostic) → SameAtEachPos (sort_stable ds) ds
unfolding sort_stable
sort_stable-at_pos [] p = refl
sort_stable-at_pos (d ∷ ds) p =
    insert_stable-at_pos p d (sort_stable ds)
    ∙ ap (λ r. if pos_beq d.pos p then d ∷ r else r) (sort_stable-at_pos ds p)

at_pos_self :
    (p : Pos) (d : Diagnostic) (ds : List Diagnostic)
    → d.pos ≡ p
    → at_pos p (d ∷ ds) ≡ d ∷ at_pos p ds
at_pos_self p d ds h = rw ((pos_beq_iff d.pos p).1 h)

-- Where a list with nothing before `q` has an entry, that place is not before `q`.
not_before :
    (p : Pos) (q : Diagnostic) (ds : List Diagnostic)
    → NoneBefore q ds
    → at_pos p ds ≢ []
    → less p q.pos ≡ false
not_before p q [] a h = absurd (h refl)
not_before p q (d ∷ ds) a h = elim (Bool-cases (pos_beq d.pos p)) [
  | inl e ↦ subst (λ r. less r q.pos ≡ false) ((pos_beq_iff d.pos p).0 e) a.0
  | inr n ↦ not_before p q ds a.1 (λ e. h (rw n e))
]

heads-pos :
    (x y : Diagnostic) (xs ys : List Diagnostic)
    → Sorted (y ∷ ys)
    → SameAtEachPos (x ∷ xs) (y ∷ ys)
    → less x.pos y.pos ≡ false
heads-pos x y xs ys s h =
    not_before x.pos y (y ∷ ys) (less_irrefl y.pos, s.0)
      (λ e. cc (h x.pos, at_pos_self x.pos x xs refl, e))

tails-same :
    (x : Diagnostic) (xs ys : List Diagnostic)
    → SameAtEachPos (x ∷ xs) (x ∷ ys)
    → SameAtEachPos xs ys
tails-same x xs ys h p = elim (Bool-cases (pos_beq x.pos p)) [
  | inl e ↦ cc (
    h p,
    at_pos_self p x xs ((pos_beq_iff x.pos p).0 e),
    at_pos_self p x ys ((pos_beq_iff x.pos p).0 e),
  )
  | inr n ↦ rw n at (h p)
]

Sorted-unique : (xs ys : List Diagnostic) → Sorted xs → Sorted ys → SameAtEachPos xs ys → xs ≡ ys
Sorted-unique [] [] s t h = refl
Sorted-unique [] (y ∷ ys) s t h = absurd (cc (h y.pos, at_pos_self y.pos y ys refl))
Sorted-unique (x ∷ xs) [] s t h = absurd (cc (h x.pos, at_pos_self x.pos x xs refl))
Sorted-unique (x ∷ xs) (y ∷ ys) s t h =
    let same_pos : y.pos ≡ x.pos =
      less_total y.pos x.pos (heads-pos y x ys xs s (λ p. sym (h p))) (heads-pos x y xs ys t h) in
    let same_head : x ≡ y =
      cc (h x.pos, at_pos_self x.pos x xs refl, at_pos_self x.pos y ys same_pos) in
    let h' : SameAtEachPos (x ∷ xs) (x ∷ ys) =
      subst (λ z. SameAtEachPos (x ∷ xs) (z ∷ ys)) (sym same_head) h in
    ap (λ z. z ∷ xs) same_head
    ∙ ap (λ zs. y ∷ zs) (Sorted-unique xs ys s.1 t.1 (tails-same x xs ys h'))

-- `All` gives the stored diagnostics in the order of their positions, keeps those of one position
-- in the order of arrival, and is the only list that does both: the report is deterministic.
pub all-stable :
    (b : DiagnosticBag) (ys : List Diagnostic)
    → (Sorted ys × SameAtEachPos ys b.items) ↔ (ys ≡ all b)
unfolding all
all-stable b ys = (
  λ (s, h).
      Sorted-unique ys (sort_stable b.items) s (sort_stable-Sorted b.items)
        (λ p. h p ∙ sym (sort_stable-at_pos b.items p)),
  λ e. rw e (sort_stable-Sorted b.items, sort_stable-at_pos b.items),
)
