-- ===== src/Sema/Topology/Transactions.antt =====
-- sema/rules_crossfile.go: which use cases the rule on transactions lets through.
use domainscript.Prelude.{
  ℕ, suc, ◌≡◌, refl, sym, ◌↔◌, ◌⊎◌, inl, inr, Bool, true, false, not, ◌||◌, Option, none, some,
  List, [], ◌∷◌, ◌++◌, Text, text_eq, text_beq_iff, ◌==◌, &&-eq-true, if◌then◌else◌, Bool-cases,
  length, ltb, arith, All, All-map, subst,
}
use domainscript.Token.{Pos}
use domainscript.Diag.{Diagnostic}
use domainscript.Program.Graph.{Program, Database, database_of_aggregate}
use domainscript.Resolver.Scope.Shadowing.{contains}
use domainscript.Sema.Topology.{
  distinct_from, distinct, databases, database_names, all_xa, databases_of, services_of,
  check_databases, check_services, check_transaction,
}

-- One name, and the empty one at most beside it.
abbrev pub OneName : List Text → Type 0
OneName ns = (n : Text) × All (λ a. (a ≡ []) ⊎ (a ≡ n)) ns

abbrev Seen : List Text → Text → Type 0
Seen seen a = (a == [] || contains seen a) ≡ true

-- Every one of the databases supports XA.
abbrev pub AllXa : List Database → Type 0
AllXa = All (λ (d : Database). d.supports_xa ≡ true)

all_xa-AllXa : (dbs : List Database) → all_xa dbs ≡ true → AllXa dbs
all_xa-AllXa [] h = tt
all_xa-AllXa (d ∷ dbs) h =
    let (x, rest) = &&-eq-true d.supports_xa (all_xa dbs) h in (x, all_xa-AllXa dbs rest)

AllXa-all_xa : (dbs : List Database) → AllXa dbs → all_xa dbs ≡ true
AllXa-all_xa [] h = refl
AllXa-all_xa (d ∷ dbs) (x, rest) = rw x (AllXa-all_xa dbs rest)

none_new : (seen ss : List Text) → distinct_from seen ss ≡ [] → All (Seen seen) ss
unfolding distinct_from
none_new seen [] h = tt
none_new seen (s ∷ ss) h = elim (Bool-cases (s == [] || contains seen s)) [
  | inl e ↦ (e, none_new seen ss (rw e at h))
  | inr e ↦ absurd (cc (rw e at h))
]

All-Seen : (seen ss : List Text) → All (Seen seen) ss → distinct_from seen ss ≡ []
unfolding distinct_from
All-Seen seen [] h = refl
All-Seen seen (s ∷ ss) (e, h) = rw e (All-Seen seen ss h)

Seen-alone : (n a : Text) → Seen (n ∷ []) a → (a ≡ []) ⊎ (a ≡ n)
Seen-alone n a h = ground (arith, text_beq_iff a [], text_beq_iff n a)

alone-Seen : (n a : Text) → (a ≡ []) ⊎ (a ≡ n) → Seen (n ∷ []) a
alone-Seen n a h = ground (arith, text_beq_iff a [], text_beq_iff n a)

nothing_behind : (ss : List Text) → ltb 1 (suc (length ss)) ≡ false → ss ≡ []
nothing_behind [] h = refl
nothing_behind (s ∷ ss) h = ground arith

left_of_or : (c : Bool) → (c || false) ≡ true → c ≡ true
left_of_or true h = refl
left_of_or false h = h

at_name :
    {s n : Text} (c : Bool)
    → (s ≡ []) ⊎ (s ≡ n)
    → (c || false) ≡ false
    → (s ≡ [] → c ≡ true)
    → s ≡ n
at_name c (inr e) h f = e
at_name true (inl e) h f = cc
at_name false (inl e) h f = absurd (cc (f e))

few_alike : (ss : List Text) → ltb 1 (length (distinct_from [] ss)) ≡ false → OneName ss
unfolding distinct_from
few_alike [] h = ([], tt)
few_alike (s ∷ ss) h = elim (Bool-cases (s == [] || false)) [
  | inl e ↦
      let (n, rest) = few_alike ss (rw e at h) in
      (n, (inl ((text_beq_iff s []).0 (left_of_or (s == []) e)), rest))
  | inr e ↦
      let none_left = nothing_behind (distinct_from (s ∷ []) ss) (rw e at h) in
      (s, (inr refl, All-map ss (Seen-alone s) (none_new (s ∷ []) ss none_left)))
]

alike_few : (ss : List Text) → OneName ss → ltb 1 (length (distinct_from [] ss)) ≡ false
unfolding distinct_from
alike_few [] h = refl
alike_few (s ∷ ss) (n, (hs, rest)) = elim (Bool-cases (s == [] || false)) [
  | inl e ↦ rw e (alike_few ss (n, rest))
  | inr e ↦
      let at_n = at_name (s == []) hs e (λ z. (text_beq_iff s []).1 z) in
      let seen =
        All-map ss (λ a h. alone-Seen s a (subst (λ k. (a ≡ []) ⊎ (a ≡ k)) (sym at_n) h)) rest in
      rw (e, All-Seen (s ∷ []) ss seen) refl
]

-- A report that is there exactly if a test succeeds.
silent_if : (c : Bool) (d : Diagnostic) → (if c then d ∷ [] else []) ≡ [] → c ≡ false
silent_if true d h = cc
silent_if false d h = refl

not_xa : (c : Bool) → not c ≡ false → c ≡ true
not_xa true h = refl
not_xa false h = sym h

append_silent : (ds es : List Diagnostic) → ds ++ es ≡ [] → (ds ≡ []) × (es ≡ [])
append_silent [] es h = (refl, h)
append_silent (d ∷ ds) es h = cc

module _ (quote : Text → Text) (prog : Program) (pos : Pos) (name : Text) where
  check_services-OneName :
      (svcs : List Text) → (check_services quote prog pos name svcs ≡ []) ↔ OneName svcs
  unfolding check_services distinct
  check_services-OneName svcs = (
    λ h. few_alike svcs (silent_if (ltb 1 (length (distinct_from [] svcs))) _ h),
    λ h. rw (alike_few svcs h) refl,
  )

  -- Databases without a report: of one name, or all with XA.
  check_databases-OneName :
      (dbs : List Database)
      → (check_databases quote prog pos name dbs ≡ []) ↔ (OneName (database_names dbs) ⊎ AllXa dbs)
  unfolding check_databases distinct
  check_databases-OneName dbs = (
    λ h. elim (Bool-cases (ltb 1 (length (distinct_from [] (database_names dbs))))) [
      | inl e ↦
          inr (all_xa-AllXa dbs (not_xa (all_xa dbs) (silent_if (not (all_xa dbs)) _ (rw e at h))))
      | inr e ↦ inl (few_alike (database_names dbs) e)
    ],
    λ h. elim h [
      | inl alike ↦ rw (alike_few (database_names dbs) alike) refl
      | inr xa ↦ elim (Bool-cases (ltb 1 (length (distinct_from [] (database_names dbs))))) [
        | inl e ↦ rw (e, AllXa-all_xa dbs xa) refl
        | inr e ↦ rw e refl
      ]
    ],
  )

  alone-OneName : (o : Option Database) → OneName (database_names (databases (o ∷ [])))
  alone-OneName none = ([], tt)
  alone-OneName (some d) = (d.name, (inr refl, tt))

many : (n : ℕ) → ltb (suc (suc n)) 2 ≡ false
many n = ground arith

-- The rule on transactions lets a use case through exactly if the databases of the aggregates that it
-- refers to have one name or all support XA, and their services have one name. The names alone are
-- compared: two databases of different modules that have the same name count as one. An aggregate
-- without a database, one without a service, and a database without a name do not count.
pub check_transaction-silent :
    (quote : Text → Text) (prog : Program) (pos : Pos) (name : Text) (aggs : List Text)
    → (check_transaction quote prog pos name aggs ≡ []) ↔ (
        (OneName (database_names (databases (databases_of quote prog aggs)))
          ⊎ AllXa (databases (databases_of quote prog aggs)))
        × OneName (services_of quote prog aggs))
unfolding check_transaction databases_of services_of
check_transaction-silent quote prog pos name [] = (λ h. (inl ([], tt), ([], tt)), λ h. refl)
check_transaction-silent quote prog pos name (a ∷ []) = (
  λ h.
      (inl (alone-OneName quote prog pos name (database_of_aggregate prog a)), (_, (inr refl, tt))),
  λ h. refl,
)
check_transaction-silent quote prog pos name (a ∷ b ∷ aggs) =
    let dbs = databases (databases_of quote prog (a ∷ b ∷ aggs)) in
    let svcs = services_of quote prog (a ∷ b ∷ aggs) in
    (
      λ h.
          let (d, s) =
            append_silent (check_databases quote prog pos name dbs)
              (check_services quote prog pos name svcs) (rw (many (length aggs)) at h) in
          (
            (check_databases-OneName quote prog pos name dbs).0 d,
            (check_services-OneName quote prog pos name svcs).0 s,
          ),
      λ (d, s).
          rw
            (
              many (length aggs),
              (check_databases-OneName quote prog pos name dbs).1 d,
              (check_services-OneName quote prog pos name svcs).1 s,
            )
            refl,
    )
