-- ===== src/Sema/Distance/Minimal.antt =====
-- sema/rules_typecheck.go: the distance is the least number of edits.
use domainscript.Prelude.{
  ℕ, suc, ◌+◌, ◌≤◌, ◌≡◌, refl, ap, ◌∙◌, subst, ◌↔◌, ◌⊎◌, inl, inr, List, [], ◌∷◌, ◌++◌, append-nil,
  Text, ◌==◌, nat_eq, nat_beq_iff, length, Bool-cases, arith,
}
use domainscript.Sema.Distance.{min3, cost, first_row, fill, rows, last_cell, levenshtein}

-- A way to get from one text to another, and what it costs.
pub data Edits : ℕ → Text → Text → Type 0 where
  done : Edits 0 [] []
  keep : {n : ℕ} {a b : Text} (x : ℕ) → Edits n a b → Edits n (x ∷ a) (x ∷ b)
  change : {n : ℕ} {a b : Text} (x y : ℕ) → Edits n a b → Edits (suc n) (x ∷ a) (y ∷ b)
  drop : {n : ℕ} {a b : Text} (x : ℕ) → Edits n a b → Edits (suc n) (x ∷ a) b
  put : {n : ℕ} {a b : Text} (y : ℕ) → Edits n a b → Edits (suc n) a (y ∷ b)

-- The distance by recursion on both texts.
edit : Text → Text → ℕ
unfolding min3
edit [] b = length b
edit (x ∷ a) [] = suc (length a)
edit (x ∷ a) (y ∷ b) = min3 (edit a (y ∷ b) + 1) (edit (x ∷ a) b + 1) (edit a b + cost x y)

min3_cases : (a b c : ℕ) → (min3 a b c ≡ a) ⊎ ((min3 a b c ≡ b) ⊎ (min3 a b c ≡ c))
unfolding min3
min3_cases a b c = ground arith

min3-le : (a b c : ℕ) → (min3 a b c ≤ a) × (min3 a b c ≤ b) × (min3 a b c ≤ c)
unfolding min3
min3-le a b c = ground arith

at_cost : {n m : ℕ} {a b : Text} → n ≡ m → Edits n a b → Edits m a b
at_cost {a = a} {b = b} e w = subst (λ (k : ℕ). Edits k a b) e w

put_all : (b : Text) → Edits (length b) [] b
put_all [] = done
put_all (y ∷ b) = put y (put_all b)

drop_all : (a : Text) → Edits (length a) a []
drop_all [] = done
drop_all (x ∷ a) = drop x (drop_all a)

change_or_keep : (x y : ℕ) {n : ℕ} {a b : Text} → Edits n a b → Edits (n + cost x y) (x ∷ a) (y ∷ b)
change_or_keep x y {n} {a} {b} e = elim (Bool-cases (x == y)) [
  | inl same ↦
      let z : x ≡ y = (nat_beq_iff x y).0 same in
      rw same (at_cost (omega arith) (subst (λ (w : ℕ). Edits n (x ∷ a) (w ∷ b)) z (keep x e)))
  | inr apart ↦ rw apart (at_cost (omega arith) (change x y e))
]

edit-Edits : (a b : Text) → Edits (edit a b) a b
unfolding edit
edit-Edits [] b = put_all b
edit-Edits (x ∷ a) [] = drop_all (x ∷ a)
edit-Edits (x ∷ a) (y ∷ b) =
    let n = edit a (y ∷ b) + 1 in
    let m = edit (x ∷ a) b + 1 in
    let k = edit a b + cost x y in
    elim (min3_cases n m k) [
      | inl e ↦ at_cost (omega (arith, e)) (drop x (edit-Edits a (y ∷ b)))
      | inr (inl e) ↦ at_cost (omega (arith, e)) (put y (edit-Edits (x ∷ a) b))
      | inr (inr e) ↦ at_cost (omega (arith, e)) (change_or_keep x y (edit-Edits a b))
    ]

edit-keep : (x : ℕ) (a b : Text) → edit (x ∷ a) (x ∷ b) ≤ edit a b
unfolding edit
edit-keep x a b =
    let (_, _, h) = min3-le (edit a (x ∷ b) + 1) (edit (x ∷ a) b + 1) (edit a b + cost x x) in
    ground (arith, h)

edit-change : (x y : ℕ) (a b : Text) → edit (x ∷ a) (y ∷ b) ≤ suc (edit a b)
unfolding edit
edit-change x y a b =
    let (_, _, h) = min3-le (edit a (y ∷ b) + 1) (edit (x ∷ a) b + 1) (edit a b + cost x y) in
    ground (arith, h)

length-edit : (a : Text) → edit a [] ≡ length a
unfolding edit
length-edit [] = refl
length-edit (x ∷ a) = refl

edit-drop : (x : ℕ) (a b : Text) → edit (x ∷ a) b ≤ suc (edit a b)
unfolding edit
edit-drop x a [] = omega (arith, length-edit a)
edit-drop x a (y ∷ b) =
    let (h, _, _) = min3-le (edit a (y ∷ b) + 1) (edit (x ∷ a) b + 1) (edit a b + cost x y) in
    omega (arith, h)

edit-put : (y : ℕ) (a b : Text) → edit a (y ∷ b) ≤ suc (edit a b)
unfolding edit
edit-put y [] b = omega arith
edit-put y (x ∷ a) b =
    let (_, h, _) = min3-le (edit a (y ∷ b) + 1) (edit (x ∷ a) b + 1) (edit a b + cost x y) in
    omega (arith, h)

edit-le : {n : ℕ} {a b : Text} → Edits n a b → edit a b ≤ n
edit-le done = unfold edit in omega arith
edit-le (keep {n} {a} {b} x e) = omega (arith, edit-keep x a b, edit-le e)
edit-le (change {n} {a} {b} x y e) = omega (arith, edit-change x y a b, edit-le e)
edit-le (drop {n} {a} {b} x e) = omega (arith, edit-drop x a b, edit-le e)
edit-le (put {n} {a} {b} y e) = omega (arith, edit-put y a b, edit-le e)

reverse_onto : Text → Text → Text
reverse_onto [] a = a
reverse_onto (x ∷ xs) a = reverse_onto xs (x ∷ a)

-- A way that is gone backwards costs the same.
reverse-Edits :
    {n m : ℕ} {a b c d : Text}
    → Edits n a b
    → Edits m c d
    → Edits (n + m) (reverse_onto a c) (reverse_onto b d)
unfolding reverse_onto
reverse-Edits done w = at_cost (omega arith) w
reverse-Edits (keep x e) w = reverse-Edits e (keep x w)
reverse-Edits (change x y e) w = at_cost (omega arith) (reverse-Edits e (change x y w))
reverse-Edits (drop x e) w = at_cost (omega arith) (reverse-Edits e (drop x w))
reverse-Edits (put y e) w = at_cost (omega arith) (reverse-Edits e (put y w))

reverse-reverse : (a c d : Text) → reverse_onto (reverse_onto a c) d ≡ reverse_onto c (a ++ d)
unfolding reverse_onto
reverse-reverse [] c d = refl
reverse-reverse (x ∷ a) c d = reverse-reverse a (x ∷ c) d

-- The cells of a row behind the first: the distances from `a` to `pre` with more of `ys` before it.
row_after : Text → Text → Text → List ℕ
unfolding edit
row_after a pre [] = []
row_after a pre (y ∷ ys) = edit a (y ∷ pre) ∷ row_after a (y ∷ pre) ys

fill-row_after :
    (x : ℕ) (a pre ys : Text)
    → fill x (edit (x ∷ a) pre) (edit a pre ∷ row_after a pre ys) ys ≡ row_after (x ∷ a) pre ys
unfolding fill row_after edit
fill-row_after x a pre [] = refl
fill-row_after x a pre (y ∷ ys) =
    ap (λ cells. edit (x ∷ a) (y ∷ pre) ∷ cells) (fill-row_after x a (y ∷ pre) ys)

first_row-row_after :
    (pre ys : Text) → first_row (length pre) ys ≡ edit [] pre ∷ row_after [] pre ys
unfolding first_row row_after edit
first_row-row_after pre [] = refl
first_row-row_after pre (y ∷ ys) =
    ap (λ cells. length pre ∷ cells) (first_row-row_after (y ∷ pre) ys)

rows-row_after :
    (xs a ys : Text)
    → rows (suc (length a)) (edit a [] ∷ row_after a [] ys) xs ys
      ≡ edit (reverse_onto xs a) [] ∷ row_after (reverse_onto xs a) [] ys
unfolding rows reverse_onto edit
rows-row_after [] a ys = refl
rows-row_after (x ∷ xs) a ys = rw (fill-row_after x a [] ys) (rows-row_after xs (x ∷ a) ys)

last-row_after :
    (a pre ys : Text) → last_cell (edit a pre ∷ row_after a pre ys) ≡ edit a (reverse_onto ys pre)
unfolding row_after reverse_onto
last-row_after a pre [] = refl
last-row_after a pre (y ∷ ys) = last-row_after a (y ∷ pre) ys

levenshtein-edit : (a b : Text) → levenshtein a b ≡ edit (reverse_onto a []) (reverse_onto b [])
unfolding levenshtein edit
levenshtein-edit a b =
    ap (λ r. last_cell (rows 1 r a b)) (first_row-row_after [] b)
    ∙ ap last_cell (rows-row_after a [] b)
    ∙ last-row_after (reverse_onto a []) [] b

reverse_twice : (a : Text) → reverse_onto (reverse_onto a []) [] ≡ a
unfolding reverse_onto
reverse_twice a = reverse-reverse a [] [] ∙ append-nil a

levenshtein-Edits : (a b : Text) → Edits (levenshtein a b) a b
levenshtein-Edits a b =
    let way = reverse-Edits (edit-Edits (reverse_onto a []) (reverse_onto b [])) done in
    at_cost (omega (arith, levenshtein-edit a b)) (rw (reverse_twice a, reverse_twice b) at way)

-- The distance of two texts is at most `n` exactly if some sequence of insertions, deletions and
-- changes of a rune, at most `n` of them, leads from one to the other: `levenshtein` is the least
-- number of edits.
pub levenshtein_exact :
    (a b : Text) (n : ℕ) → (levenshtein a b ≤ n) ↔ ((k : ℕ) × (k ≤ n) × Edits k a b)
levenshtein_exact a b n = (
  λ h. (levenshtein a b, h, levenshtein-Edits a b),
  λ (k, h, e). omega (arith, h, levenshtein-edit a b, edit-le (reverse-Edits e done)),
)
