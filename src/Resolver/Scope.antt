-- ===== src/Resolver/Scope.antt =====
-- resolver/scope.go and resolver/receivers.go: lexical scopes. A scope is the list of its levels,
-- the innermost first: `Child` pushes one, and dropping it gives back the parent, which a child
-- never changes.
pub mod Shadowing
use domainscript.Prelude.{
  Bool, true, false, Option, none, some, List, [], ◌∷◌, ◌++◌, Text, codes, Map, text_eq, ◌==◌,
  if◌then◌else◌,
}
use domainscript.Prelude

-- `BindingKind`
pub data BindingKind : Type 0 where
  bind_param bind_local bind_receiver : BindingKind

pub record Binding : Type 0 where
  pub name : Text
  pub kind : BindingKind

-- A level and, behind it, its ancestors: never empty in the source.
pub data Scope : Type 0 where
  root : Map Text Binding → Scope
  child_of : Scope → Map Text Binding → Scope

abbrev pub new_scope : Scope
new_scope = root []

abbrev pub child : Scope → Scope
child s = child_of s []

-- The empty name is never bound.
unfoldable pub define : Scope → Text → Binding → Scope
define (root names) name b = if name == [] then root names else root (Prelude.insert name b names)
define (child_of p names) name b =
    if name == [] then child_of p names else child_of p (Prelude.insert name b names)

abbrev pub or_parent : Option Binding → Option Binding → Option Binding
or_parent (some b) o = some b
or_parent none o = o

unfoldable pub lookup : Scope → Text → Option Binding
lookup (root names) name = Prelude.lookup name names
lookup (child_of p names) name = or_parent (Prelude.lookup name names) (lookup p name)

-- `construct`: the kinds of executable bodies.
pub data Construct : Type 0 where
  construct_handle construct_apply construct_access construct_valid construct_operator : Construct
  construct_use_case_execute construct_policy_execute construct_coerce construct_saga_step :
      Construct
  construct_query construct_worker_source construct_worker_execute : Construct

abbrev pub contextual_receiver_names : Construct → List Text
contextual_receiver_names construct_handle = codes "self" ∷ codes "state" ∷ codes "caller" ∷ []
contextual_receiver_names construct_apply = codes "state" ∷ codes "event" ∷ []
contextual_receiver_names construct_access = codes "self" ∷ codes "caller" ∷ []
contextual_receiver_names construct_valid = codes "value" ∷ codes "ok" ∷ []
contextual_receiver_names construct_operator = codes "value" ∷ []
contextual_receiver_names construct_use_case_execute = codes "cmd" ∷ codes "caller" ∷ []
contextual_receiver_names construct_policy_execute = codes "event" ∷ codes "caller" ∷ []
contextual_receiver_names construct_coerce = codes "value" ∷ []
contextual_receiver_names construct_saga_step = codes "state" ∷ []
contextual_receiver_names _ = []

-- The loop of `seedReceivers`.
unfoldable pub define_receivers : Scope → List Text → Scope
unfolding define
define_receivers sc [] = sc
define_receivers sc (name ∷ names) =
    define_receivers (define sc name (record { name = name; kind = bind_receiver })) names

unfoldable pub seed_receivers : Scope → Construct → Scope
unfolding define_receivers
seed_receivers sc c = define_receivers sc (contextual_receiver_names c)
