-- ===== src/Goname/Collisions.antt =====
-- codegen/goname/names.go: which names `Register` tells apart.
use domainscript.Prelude.{
  ℕ, zero, suc, ◌+◌, ◌/◌, ◌%◌, ◌≤◌, ◌<◌, ◌≡◌, ◌≢◌, refl, sym, ap, ◌∙◌, inl, inr, Bool, true, false,
  Option, some, none, List, [], ◌∷◌, ◌++◌, Text, codes, itoa, decimal_onto, text_beq, text_beq_iff,
  nat_eq, nat_beq, subst, text_eq, ◌==◌, ==_refl, ltb, if◌then◌else◌, Bool-cases, arith,
}
use domainscript.Prelude.Decimal.{itoa-injective}
use domainscript.Prelude
use domainscript.Goname.{Dedupe, new_dedupe, or_zero, times, numbered, register, register_all}

times-register :
    (d : Dedupe) (name other : Text)
    → times (register d name).1 other ≡ (if name == other then times d name + 1 else times d other)
unfolding register
times-register d name other =
    ap or_zero (Prelude.lookup-insert name other (times d name + 1) d.seen)
    ∙ pushed (name == other) (times d name + 1) (Prelude.lookup other d.seen)
  where
    pushed :
        (b : Bool) (n : ℕ) (o : Option ℕ)
        → or_zero (if b then some n else o) ≡ (if b then n else or_zero o)
    pushed true n o = refl
    pushed false n o = refl

times_step : (d : Dedupe) (n name : Text) → times d name ≤ times (register d n).1 name
times_step d n name = elim (Bool-cases (n == name)) [
  | inl e ↦
      let same : n ≡ name = (text_beq_iff n name).0 e in
      rw (times-register d n name, e, same) (omega arith)
  | inr e ↦ rw (times-register d n name, e) (omega arith)
]

-- No registration takes a count back.
times_grows :
    (d : Dedupe) (names : List Text) (name : Text)
    → times d name ≤ times (register_all d names) name
unfolding register_all
times_grows d [] name = omega arith
times_grows d (n ∷ names) name =
    omega (arith, times_step d n name, times_grows (register d n).1 names name)

append_itoa-injective : (s : Text) (m n : ℕ) → s ++ itoa m ≡ s ++ itoa n → m ≡ n
append_itoa-injective [] m n h = itoa-injective m n h
append_itoa-injective (c ∷ s) m n h = append_itoa-injective s m n (ground arith)

decimal_onto_nonempty : (f n c : ℕ) (acc : Text) → decimal_onto f n (c ∷ acc) ≢ []
unfolding decimal_onto
decimal_onto_nonempty zero n c acc h = ground arith
decimal_onto_nonempty (suc f) n c acc h = elim (Bool-cases (ltb n 10)) [
  | inl e ↦ let g = (rw e at h) in ground arith
  | inr e ↦ decimal_onto_nonempty f (n / 10) (b'0' + n % 10) (c ∷ acc) (rw e at h)
]

itoa_nonempty : (n : ℕ) → itoa n ≢ []
unfolding itoa decimal_onto
itoa_nonempty n h = elim (Bool-cases (ltb n 10)) [
  | inl e ↦ let g = (rw e at h) in ground arith
  | inr e ↦ decimal_onto_nonempty n (n / 10) (b'0' + n % 10) [] (rw e at h)
]

append_self : (s t : Text) → s ++ t ≡ s → t ≡ []
append_self [] t h = h
append_self (c ∷ s) t h = append_self s t (ground arith)

numbered-distinct : (name : Text) (m n : ℕ) → 1 ≤ m → m < n → numbered name n ≢ numbered name m
numbered-distinct name m n l k h = elim (Bool-cases (ltb 1 m)) [
  | inl e ↦ absurd (
      let second : ltb 1 n ≡ true = ground arith in
      let same = append_itoa-injective name n m (rw (second, e) at h) in omega arith)
  | inr e ↦ absurd (
      let second : ltb 1 n ≡ true = ground arith in
      itoa_nonempty n (append_self name (itoa n) (rw (second, e) at h)))
]

-- Once a name is registered, and whatever is registered after it, registering it again gives a
-- different name.
pub register-distinct :
    (d : Dedupe) (name : Text) (names : List Text)
    → (register (register_all (register d name).1 names) name).0 ≢ (register d name).0
unfolding register
register-distinct d name names =
    numbered-distinct name (times d name + 1)
      (times (register_all (register d name).1 names) name + 1) (omega arith)
      (omega (arith, once, times_grows (register d name).1 names name))
  where
    once : times (register d name).1 name ≡ times d name + 1
    once =
        times-register d name name
        ∙ ap (λ b. if b then times d name + 1 else times d name) (==_refl name)

longer : (s : Text) (c : ℕ) → text_beq s (s ++ c ∷ []) ≡ false
longer [] c = refl
longer (a ∷ s) c = ground (arith, longer s c)

-- A name, the name with `2` behind it, and the name again: the last two are registered under one
-- name.
pub register-collides :
    (name : Text)
    → let d = (register new_dedupe name).1 in
      let e = (register d (name ++ codes "2")).1 in
      (register d (name ++ codes "2")).0 ≡ (register e name).0
unfolding register itoa decimal_onto
register-collides name = rw (longer name b'2', ==_refl name) refl
