-- ===== src/Resolver/Scope/Shadowing.antt =====
-- resolver/scope.go and resolver/receivers.go: what a definition shows and hides.
use domainscript.Prelude.{
  ◌≡◌, ◌≢◌, refl, sym, ap, ◌∙◌, ◌⊎◌, inl, inr, ◌↔◌, Bool, true, false, not, ◌&&◌, ◌||◌, Option,
  none, some, List, [], ◌∷◌, Text, text_eq, text_beq_iff, ◌==◌, arith, if◌then◌else◌, Bool-cases,
  if_cases,
}
use domainscript.Prelude
use domainscript.Resolver.Scope.{
  Binding, bind_receiver, Scope, root, child_of, child, define, or_parent, lookup, Construct,
  construct_handle, contextual_receiver_names, define_receivers, seed_receivers,
}

or_parent-if :
    (c : Bool) (b : Binding) (o p : Option Binding)
    → or_parent (if c then some b else o) p ≡ (if c then some b else or_parent o p)
or_parent-if true b o p = refl
or_parent-if false b o p = refl

define_fresh :
    (s : Scope) (name other : Text) (b : Binding)
    → (name == []) ≡ false
    → lookup (define s name b) other ≡ (if name == other then some b else lookup s other)
unfolding define lookup
define_fresh (root names) name other b h = rw h (Prelude.lookup-insert name other b names)
define_fresh (child_of p names) name other b h = rw h (
    ap (λ o. or_parent o (lookup p other)) (Prelude.lookup-insert name other b names)
    ∙ or_parent-if (name == other) b (Prelude.lookup other names) (lookup p other))

define_nameless : (s : Scope) (other : Text) (b : Binding) → define s [] b ≡ s
unfolding define
define_nameless (root names) other b = refl
define_nameless (child_of p names) other b = refl

-- `Define` binds its name and no other, at every depth: it shadows the ancestors' bindings of that
-- name, and a definition without a name changes nothing.
pub lookup-define :
    (s : Scope) (name other : Text) (b : Binding)
    → lookup (define s name b) other
      ≡ (if not (name == []) && name == other then some b else lookup s other)
lookup-define s name other b = elim (Bool-cases (name == [])) [
  | inl e ↦ rw e (
      ap (λ n. lookup (define s n b) other) ((text_beq_iff name []).0 e)
      ∙ ap (λ r. lookup r other) (define_nameless s other b))
  | inr e ↦ rw e (define_fresh s name other b e)
]

-- A child sees what its parent sees until it defines a name itself; the parent, once the child is
-- dropped, is as it was.
pub lookup-child :
    (s : Scope) (name other : Text) (b : Binding)
    → (lookup (child s) other ≡ lookup s other)
      × (lookup (define (child s) name b) other
          ≡ (if not (name == []) && name == other then some b else lookup s other))
unfolding lookup
lookup-child s name other b = (refl, lookup-define (child s) name other b)

abbrev pub contains : List Text → Text → Bool
contains [] n = false
contains (m ∷ ms) n = m == n || contains ms n

abbrev NonEmpty : List Text → Type 0
NonEmpty [] = Unit
NonEmpty (n ∷ ns) = ((n == []) ≡ false) × NonEmpty ns

abbrev receiver : Text → Binding
receiver n = record { name = n; kind = bind_receiver }

lookup-define_receivers :
    (names : List Text) (sc : Scope) (n : Text)
    → NonEmpty names
    → lookup (define_receivers sc names) n
      ≡ (if contains names n then some (receiver n) else lookup sc n)
unfolding define_receivers
lookup-define_receivers [] sc n h = refl
lookup-define_receivers (m ∷ ms) sc n h =
    lookup-define_receivers ms (define sc m (receiver m)) n h.1
    ∙ ap (λ o. if contains ms n then some (receiver n) else o)
        (define_fresh sc m n (receiver m) h.0)
    ∙ joined (contains ms n) (m == n) (λ e. ap receiver ((text_beq_iff m n).0 e))
  where
    joined :
        (c d : Bool)
        → (d ≡ true → receiver m ≡ receiver n)
        → (if c then some (receiver n) else (if d then some (receiver m) else lookup sc n))
          ≡ (if d || c then some (receiver n) else lookup sc n)
    joined true true f = refl
    joined true false f = refl
    joined false true f = ap some (f refl)
    joined false false f = refl

receivers-NonEmpty : (c : Construct) → NonEmpty (contextual_receiver_names c)
receivers-NonEmpty construct_handle = (refl, (refl, (refl, tt)))
receivers-NonEmpty _ = ground arith

-- In the scope of a body, besides what was there, exactly the receivers of its construct are seen,
-- each bound as a receiver.
pub lookup-seed_receivers :
    (sc : Scope) (c : Construct) (n : Text)
    → lookup (seed_receivers sc c) n ≡ (
        if contains (contextual_receiver_names c) n
        then some (record { name = n; kind = bind_receiver })
        else lookup sc n)
unfolding seed_receivers
lookup-seed_receivers sc c n =
    lookup-define_receivers (contextual_receiver_names c) sc n (receivers-NonEmpty c)
