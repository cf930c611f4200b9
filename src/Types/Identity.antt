-- ===== src/Types/Identity.antt =====
-- types/type.go: the laws of `Identical`.
use domainscript.Prelude.{
  ℕ, zero, suc, ◌≡◌, refl, ap, Bool, true, Option, some, Text, ◌==◌, nat_eq, text_eq, text_beq_iff,
  ==_sym, arith,
}
use domainscript.Types.{
  StaticType, StaticTypes, nil_type, error_type, primitive, value_object, enum_type, shape, generic,
  func, no_types, type_cons, FuncType, Heap, type_count, all_identical, identical_funcs,
  identical_generics, identical_step, identical,
}

abbrev Test : Type 0
Test = StaticType → StaticType → Option Bool

-- What is said of a level of `Identical` from what holds of the level below.
module _ (same : Test) (same_sym : (a b : StaticType) → same a b ≡ same b a) where
  all_identical_sym : (xs ys : StaticTypes) → all_identical same xs ys ≡ all_identical same ys xs
  unfolding all_identical
  all_identical_sym (type_cons a xs) (type_cons b ys) =
      ground (arith, same_sym a b, all_identical_sym xs ys)
  all_identical_sym no_types (type_cons b ys) = refl
  all_identical_sym (type_cons a xs) no_types = refl
  all_identical_sym no_types no_types = refl

  identical_funcs_sym : (x y : FuncType) → identical_funcs same x y ≡ identical_funcs same y x
  unfolding identical_funcs
  identical_funcs_sym x y =
      ground (arith, all_identical_sym x.params y.params, same_sym x.result y.result)

  identical_generics_sym :
      (c d : Text) (xs ys : StaticTypes)
      → identical_generics same c xs d ys ≡ identical_generics same d ys c xs
  unfolding identical_generics
  identical_generics_sym c d xs ys = ground (arith, all_identical_sym xs ys, ==_sym c d)

  identical_step_sym :
      (h : Heap) (a b : StaticType) → identical_step same h a b ≡ identical_step same h b a
  unfolding identical_step
  identical_step_sym h (primitive m) (primitive n) = ap some (==_sym m n)
  identical_step_sym h (value_object m) (value_object n) = ap some (==_sym m n)
  identical_step_sym h (enum_type m) (enum_type n) = ap some (==_sym m n)
  identical_step_sym h (shape m) (shape n) = ap some (==_sym m n)
  identical_step_sym h (generic c xs) (generic d ys) = identical_generics_sym c d xs ys
  identical_step_sym h (func p) (func q) = identical_funcs_sym (h p) (h q)
  identical_step_sym h error_type error_type = refl
  identical_step_sym h nil_type nil_type = refl
  identical_step_sym h _ _ = refl

-- `Identical` is symmetric, and needs the same depth of stack both ways.
pub identical_sym : (h : Heap) (n : ℕ) (a b : StaticType) → identical h n a b ≡ identical h n b a
unfolding identical
identical_sym h zero a b = refl
identical_sym h (suc n) a b = identical_step_sym (identical h n) (identical_sym h n) h a b

abbrev Transitive : Test → Type 0
Transitive same =
    (a b c : StaticType) → same a b ≡ some true → same b c ≡ some true → same a c ≡ some true

module _ (same : Test) (same_trans : Transitive same) where
  all_identical_trans :
      (xs ys zs : StaticTypes)
      → type_count xs ≡ type_count ys
      → type_count ys ≡ type_count zs
      → all_identical same xs ys ≡ some true
      → all_identical same ys zs ≡ some true
      → all_identical same xs zs ≡ some true
  unfolding all_identical
  all_identical_trans (type_cons a xs) (type_cons b ys) (type_cons c zs) e f h k =
      ground (arith, same_trans a b c, all_identical_trans xs ys zs)
  all_identical_trans no_types ys zs e f h k = refl
  all_identical_trans (type_cons a xs) no_types zs e f h k = absurd (omega arith)
  all_identical_trans (type_cons a xs) (type_cons b ys) no_types e f h k = absurd (omega arith)

  identical_funcs_trans :
      (x y z : FuncType)
      → identical_funcs same x y ≡ some true
      → identical_funcs same y z ≡ some true
      → identical_funcs same x z ≡ some true
  unfolding identical_funcs
  identical_funcs_trans x y z h k =
      ground (
        arith,
        all_identical_trans x.params y.params z.params,
        same_trans x.result y.result z.result,
      )

  identical_generics_trans :
      (b c d : Text) (xs ys zs : StaticTypes)
      → identical_generics same b xs c ys ≡ some true
      → identical_generics same c ys d zs ≡ some true
      → identical_generics same b xs d zs ≡ some true
  unfolding identical_generics
  identical_generics_trans b c d xs ys zs h k =
      ground
        (arith, all_identical_trans xs ys zs, text_beq_iff b c, text_beq_iff c d, text_beq_iff b d)

  names_trans :
      (m n o : Text)
      → ◌≡◌ {A = Option Bool} (some (m == n)) (some true)
      → ◌≡◌ {A = Option Bool} (some (n == o)) (some true)
      → ◌≡◌ {A = Option Bool} (some (m == o)) (some true)
  names_trans m n o h k = ground (arith, text_beq_iff m n, text_beq_iff n o, text_beq_iff m o)

  identical_step_trans : (h : Heap) → Transitive (identical_step same h)
  unfolding identical_step
  identical_step_trans h (primitive m) (primitive n) (primitive o) e f = names_trans m n o e f
  identical_step_trans h (value_object m) (value_object n) (value_object o) e f =
      names_trans m n o e f
  identical_step_trans h (enum_type m) (enum_type n) (enum_type o) e f = names_trans m n o e f
  identical_step_trans h (shape m) (shape n) (shape o) e f = names_trans m n o e f
  identical_step_trans h (generic b xs) (generic c ys) (generic d zs) e f =
      identical_generics_trans b c d xs ys zs e f
  identical_step_trans h (func p) (func q) (func r) e f =
      identical_funcs_trans (h p) (h q) (h r) e f
  identical_step_trans h error_type error_type error_type e f = refl
  identical_step_trans h nil_type nil_type nil_type e f = e
  identical_step_trans h _ _ _ e f = cc

-- `Identical` is transitive: types that are identical to the same type are identical.
pub identical_trans :
    (h : Heap) (n : ℕ) (a b c : StaticType)
    → identical h n a b ≡ some true
    → identical h n b c ≡ some true
    → identical h n a c ≡ some true
unfolding identical
identical_trans h zero a b c e f = cc
identical_trans h (suc n) a b c e f =
    identical_step_trans (identical h n) (identical_trans h n) h a b c e f
