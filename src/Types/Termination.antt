-- ===== src/Types/Termination.antt =====
-- types/type.go: where `Identical` ends.
use Prim.Native.Nat.{max}
use domainscript.Prelude.{
  ℕ, zero, suc, ◌<◌, ◌≡◌, refl, Bool, true, false, Option, none, some, ◌==◌, nat_eq, text_eq,
  ==_refl, arith, Returns, returns, Returns-bind, Returns-if, not, ◌||◌,
}
use domainscript.Types.{
  StaticType, StaticTypes, nil_type, error_type, primitive, value_object, enum_type, shape, generic,
  func, no_types, type_cons, FuncType, Heap, type_count, all_identical, identical_funcs,
  identical_step, identical,
}

-- How deep a type nests, where the signature at `p` nests `d p` deep.
abbrev mutual
  pub depth : (ℕ → ℕ) → StaticType → ℕ
  depth d (generic c ts) = suc (depths d ts)
  depth d (func p) = d p
  depth d _ = 0

  pub depths : (ℕ → ℕ) → StaticTypes → ℕ
  depths d no_types = 0
  depths d (type_cons t ts) = max (depth d t) (depths d ts)

-- Every signature nests deeper than its parts: none contains itself.
abbrev pub Ranked : Heap → (ℕ → ℕ) → Type 0
Ranked h d = (p : ℕ) → (depths d (h p).params < d p) × (depth d (h p).result < d p)

-- No nil stands in the type, or in the signatures.
abbrev mutual
  pub NoNil : StaticType → Type 0
  NoNil nil_type = ⊥
  NoNil (generic c ts) = NoNils ts
  NoNil _ = Unit

  pub NoNils : StaticTypes → Type 0
  NoNils no_types = Unit
  NoNils (type_cons t ts) = NoNil t × NoNils ts

abbrev pub NoNilHeap : Heap → Type 0
NoNilHeap h = (p : ℕ) → NoNils (h p).params × NoNil (h p).result

abbrev Test : Type 0
Test = StaticType → StaticType → Option Bool

abbrev Answers : Option Bool → Type 0
Answers = Returns (λ _. Unit {0})

-- The level above a test that answers up to a depth.
module _ (same : Test) (d : ℕ → ℕ) (n : ℕ)
    (answers : (a b : StaticType) → depth d a < n → Answers (same a b)) where
  all_identical-Answers :
      (xs ys : StaticTypes) → depths d xs < n → Answers (all_identical same xs ys)
  unfolding all_identical
  all_identical-Answers (type_cons a xs) (type_cons b ys) h =
      Returns-bind (answers a b (omega arith))
        λ e _. Returns-if e (λ _. all_identical-Answers xs ys (omega arith)) (λ _. returns tt)
  all_identical-Answers no_types ys h = returns tt
  all_identical-Answers (type_cons a xs) no_types h = returns tt

  identical_step-Answers :
      (h : Heap)
      → Ranked h d
      → (a b : StaticType) → depth d a < suc n
      → Answers (identical_step same h a b)
  unfolding identical_step
  identical_step-Answers h r (generic c xs) (generic e ys) l =
      Returns-if (not (c == e) || not (type_count xs == type_count ys)) (λ _. returns tt)
        (λ _. all_identical-Answers xs ys (omega arith))
  identical_step-Answers h r (func p) (func q) l =
      Returns-if (not (type_count (h p).params == type_count (h q).params)) (λ _. returns tt)
        (λ _.
          Returns-bind (all_identical-Answers (h p).params (h q).params (omega (arith, (r p).0)))
            λ e _.
              Returns-if e (λ _. answers (h p).result (h q).result (omega (arith, (r p).1)))
                (λ _. returns tt))
  identical_step-Answers h r (primitive m) (primitive o) l = returns tt
  identical_step-Answers h r (value_object m) (value_object o) l = returns tt
  identical_step-Answers h r (enum_type m) (enum_type o) l = returns tt
  identical_step-Answers h r (shape m) (shape o) l = returns tt
  identical_step-Answers h r error_type error_type l = returns tt
  identical_step-Answers h r nil_type nil_type l = returns tt
  identical_step-Answers h r _ _ l = returns tt

identical-Answers :
    (h : Heap) (d : ℕ → ℕ)
    → Ranked h d
    → (n : ℕ) (a b : StaticType) → depth d a < n
    → Answers (identical h n a b)
unfolding identical
identical-Answers h d r zero a b l = absurd (omega arith)
identical-Answers h d r (suc n) a b l =
    identical_step-Answers (identical h n) d n (identical-Answers h d r n) h r a b l

-- The level above a test under which a type without nil is never different from itself.
module _ (same : Test) (refl_below : (a : StaticType) → NoNil a → same a a ≡ some false → ⊥) where
  all_identical_refl : (xs : StaticTypes) → NoNils xs → all_identical same xs xs ≡ some false → ⊥
  unfolding all_identical
  all_identical_refl (type_cons a xs) k h =
      ground (arith, refl_below a k.0, all_identical_refl xs k.1)
  all_identical_refl no_types k h = cc

  identical_step_refl :
      (h : Heap)
      → NoNilHeap h
      → (a : StaticType) → NoNil a
      → identical_step same h a a ≡ some false
      → ⊥
  unfolding identical_step
  identical_step_refl h w (primitive m) k e = ground (arith, ==_refl m)
  identical_step_refl h w (value_object m) k e = ground (arith, ==_refl m)
  identical_step_refl h w (enum_type m) k e = ground (arith, ==_refl m)
  identical_step_refl h w (shape m) k e = ground (arith, ==_refl m)
  identical_step_refl h w (generic c xs) k e = ground (arith, ==_refl c, all_identical_refl xs k)
  identical_step_refl h w (func p) k e =
      ground (arith, all_identical_refl (h p).params (w p).0, refl_below (h p).result (w p).1)
  identical_step_refl h w error_type k e = cc
  identical_step_refl h w nil_type k e = k

identical-refl_below :
    (h : Heap)
    → NoNilHeap h
    → (n : ℕ) (a : StaticType) → NoNil a
    → identical h n a a ≡ some false
    → ⊥
unfolding identical
identical-refl_below h w zero a k e = cc
identical-refl_below h w (suc n) a k e =
    identical_step_refl (identical h n) (identical-refl_below h w n) h w a k e

some-true : (o : Option Bool) → Answers o → (o ≡ some false → ⊥) → o ≡ some true
some-true (some true) a f = refl
some-true (some false) a f = absurd (f refl)
some-true none a f = elim a [ ]

-- Where no signature contains itself and no nil stands in a type, `Identical` answers on a stack
-- deeper than the first type, and finds every type identical to itself.
pub identical_total :
    (h : Heap) (d : ℕ → ℕ) (n : ℕ) (a b : StaticType)
    → Ranked h d
    → NoNilHeap h
    → NoNil a
    → depth d a < n
    → Returns (λ _. Unit {0}) (identical h n a b) × (identical h n a a ≡ some true)
identical_total h d n a b r w k l = (
  identical-Answers h d r n a b l,
  some-true (identical h n a a) (identical-Answers h d r n a a l) (identical-refl_below h w n a k),
)

all_identical-none :
    (same : Test) (a : StaticType) (ts xs : StaticTypes)
    → xs ≡ type_cons a ts
    → same a a ≡ none
    → all_identical same xs xs ≡ none
unfolding all_identical
all_identical-none same a ts xs e h = rw (e, all_identical) (rw h refl)

identical_funcs-none :
    (same : Test) (a : StaticType) (ts : StaticTypes) (x : FuncType)
    → x.params ≡ type_cons a ts
    → same a a ≡ none
    → identical_funcs same x x ≡ none
unfolding identical_funcs
identical_funcs-none same a ts x e h = ground (arith, all_identical-none same a ts x.params)

-- On a signature whose first parameter is the signature itself, as `Query f(x f) f` declares it,
-- `Identical` does not end: it exhausts a stack of any depth.
pub identical_diverges :
    (h : Heap) (p : ℕ) (ts : StaticTypes) (n : ℕ)
    → (h p).params ≡ type_cons (func p) ts
    → identical h n (func p) (func p) ≡ none
unfolding identical
identical_diverges h p ts zero e = refl
identical_diverges h p ts (suc n) e =
    identical_funcs-none (identical h n) (func p) ts (h p) e (identical_diverges h p ts n e)
