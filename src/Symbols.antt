-- ===== src/Symbols.antt =====
-- symbols/table.go: the table of declared names, by module and at the public level. The table is
-- passed and returned, not shared; the declarations that it points to are a parameter.
pub mod Laws
pub mod Search
use domainscript.Prelude.{
  Bool, true, false, Option, none, some, List, [], ◌∷◌, Text, codes, Map, text_eq, text_ltb,
  if◌then◌else◌, ◌>>=◌,
}
use domainscript.Prelude

-- `Kind`
pub data SymbolKind : Type 0 where
  value_object enum error event aggregate command use_case view projection query policy worker :
      SymbolKind
  notification adapter saga metric fixture : SymbolKind

-- `Kind.String`, with the map `kindNames`
abbrev pub symbol_kind_string : SymbolKind → Text
symbol_kind_string value_object = codes "ValueObject"
symbol_kind_string enum = codes "Enum"
symbol_kind_string error = codes "Error"
symbol_kind_string event = codes "Event"
symbol_kind_string aggregate = codes "Aggregate"
symbol_kind_string command = codes "Command"
symbol_kind_string use_case = codes "UseCase"
symbol_kind_string view = codes "View"
symbol_kind_string projection = codes "Projection"
symbol_kind_string query = codes "Query"
symbol_kind_string policy = codes "Policy"
symbol_kind_string worker = codes "Worker"
symbol_kind_string notification = codes "Notification"
symbol_kind_string adapter = codes "Adapter"
symbol_kind_string saga = codes "Saga"
symbol_kind_string metric = codes "Metric"
symbol_kind_string fixture = codes "Fixture"

pub record Symbol (D : Type 0) : Type 0 where
  pub name : Text
  pub kind : SymbolKind
  pub module_name : Text
  pub decl : D
  pub public : Bool

pub record SymbolTable (D : Type 0) : Type 0 where
  pub by_module : Map Text (Map Text (Symbol D))
  pub public : Map Text (Symbol D)

-- `sort.Strings` on the names of the modules: each name goes in front of those not below it.
unfoldable pub insert_name : Text → List Text → List Text
insert_name a [] = a ∷ []
insert_name a (b ∷ bs) = if text_ltb b a then b ∷ insert_name a bs else a ∷ b ∷ bs

module _ {D : Type 0} where
  -- `New`
  abbrev pub empty : SymbolTable D
  empty = record { by_module = []; public = [] }

  abbrev pub or_empty : Option (Map Text (Symbol D)) → Map Text (Symbol D)
  or_empty (some names) = names
  or_empty none = []

  -- `Module`: a module without symbols reads as the nil map.
  abbrev pub module_symbols : Text → SymbolTable D → Map Text (Symbol D)
  module_symbols m t = or_empty (Prelude.lookup m t.by_module)

  -- The writes of `Define`.
  abbrev pub declare : SymbolTable D → Symbol D → SymbolTable D
  declare t s = record {
    by_module =
        Prelude.insert s.module_name (Prelude.insert s.name s (module_symbols s.module_name t))
          t.by_module;
    public = if s.public then Prelude.insert s.name s t.public else t.public;
  }

  -- The end of `Define`, by what the module has under the name.
  define_by : Option (Symbol D) → SymbolTable D → Symbol D → Symbol D × Bool × SymbolTable D
  define_by (some existing) t s = (existing, false, t)
  define_by none t s = (s, true, declare t s)

  unfoldable pub define : SymbolTable D → Symbol D → Symbol D × Bool × SymbolTable D
  unfolding define_by
  define t s = define_by (Prelude.lookup s.name (module_symbols s.module_name t)) t s

  -- `LookupPublic`
  abbrev pub lookup_public : SymbolTable D → Text → Option (Symbol D)
  lookup_public t name = Prelude.lookup name t.public

  abbrev pub or_else : Option (Symbol D) → Option (Symbol D) → Option (Symbol D)
  or_else (some s) o = some s
  or_else none o = o

  -- `Lookup`: the module first, then the public level.
  unfoldable pub lookup : SymbolTable D → Text → Text → Option (Symbol D)
  lookup t m name = or_else (Prelude.lookup name (module_symbols m t)) (lookup_public t name)

  -- The names of the modules, sorted.
  unfoldable pub sorted_modules : Map Text (Map Text (Symbol D)) → List Text
  unfolding insert_name
  sorted_modules [] = []
  sorted_modules ((m, _) ∷ ms) = insert_name m (sorted_modules ms)

  -- The loop of `Find` over the modules.
  unfoldable pub find_in : SymbolTable D → Text → List Text → Option (Symbol D)
  find_in t name [] = none
  find_in t name (m ∷ ms) = or_else (Prelude.lookup name (module_symbols m t)) (find_in t name ms)

  -- `Find`: the public level first, then the modules in order.
  unfoldable pub find : SymbolTable D → Text → Option (Symbol D)
  unfolding find_in sorted_modules
  find t name = or_else (lookup_public t name) (find_in t name (sorted_modules t.by_module))
