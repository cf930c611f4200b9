-- ===== src/Program/Graph.antt =====
-- program/graph.go: the graph of modules, databases, services and channels. A map is the list of its
-- entries in the order in which `range` happens to give them; the fields that
-- lead back to the tree are left out.
pub mod Queries
use domainscript.Prelude.{
  Bool, true, false, ◌||◌, Option, none, some, List, [], ◌∷◌, ◌++◌, Text, codes, Map, text_eq, ◌==◌,
  if◌then◌else◌,
}
use domainscript.Prelude
use domainscript.Token.{Kind, kind_eq, true_kw, string}
use domainscript.Ast.{
  Expr, absent, ident, literal, list, object, Exprs, no_exprs, expr_cons, Entries, no_entries,
  entry,
}
use domainscript.Ast.Decls.{ConfigEntry}
use domainscript.Ast.Files.{Decl, ConfigBlock, ServiceDef, ChannelDef}

pub record Database : Type 0 where
  pub name : Text
  pub module_name : Text
  pub supports_xa : Bool
  pub manages : List Text
  pub provider : Text
  pub dsn : Text
  pub tenancy : Text
  pub tenancy_column : Text

pub record FileStorage : Type 0 where
  pub name : Text
  pub module_name : Text

pub record Module : Type 0 where
  pub name : Text
  pub databases : Map Text Database
  pub file_storages : Map Text FileStorage
  pub service : Text

pub record Service : Type 0 where
  pub name : Text
  pub modules : List Text

pub record Channel : Type 0 where
  pub from : Text
  pub to : Text
  pub via : Text

-- A file with the module that its path stands for.
pub record SourceFile : Type 0 where
  pub module_name : Text
  pub decls : List Decl

pub record Program : Type 0 where
  pub files : List SourceFile
  pub modules : Map Text Module
  pub agg_module : Map Text Text
  pub services : Map Text Service
  pub channels : List Channel

-- `entry`
abbrev pub find_entry : List ConfigEntry → Text → Expr
find_entry [] key = absent
find_entry (e ∷ es) key = if e.key == key then e.value else find_entry es key

-- The entries of an object.
abbrev pub object_entries : Entries → List ConfigEntry
object_entries no_entries = []
object_entries (entry k v es) = record { key = k; value = v } ∷ object_entries es

abbrev pub ident_name : Expr → Text
ident_name (ident s n) = n
ident_name e = []

abbrev pub bool_value : Expr → Bool
bool_value (literal s k v) = k == true_kw
bool_value e = false

abbrev pub string_value : Expr → Text
string_value (literal s k v) = if k == string then v else []
string_value e = []

abbrev pub ident_names : Exprs → List Text
ident_names no_exprs = []
ident_names (expr_cons e es) =
    let rest = ident_names es in if ident_name e == [] then rest else ident_name e ∷ rest

abbrev pub ident_list : Expr → List Text
ident_list (list s es) = ident_names es
ident_list e = []

abbrev pub tenancy_strategy : Expr → Text × Text
tenancy_strategy (object s es) = (
  ident_name (find_entry (object_entries es) (codes "strategy")),
  string_value (find_entry (object_entries es) (codes "column")),
)
tenancy_strategy e = ([], [])

abbrev pub new_database : Text → ConfigBlock → Database
new_database m b =
    let tenancy = tenancy_strategy (find_entry b.entries (codes "tenancy")) in
    record {
      name = b.name;
      module_name = m;
      supports_xa = bool_value (find_entry b.entries (codes "supportsXA"));
      manages = ident_list (find_entry b.entries (codes "manages"));
      provider = string_value (find_entry b.entries (codes "provider"));
      dsn = string_value (find_entry b.entries (codes "dsn"));
      tenancy = tenancy.0;
      tenancy_column = tenancy.1;
    }

abbrev pub add_block : Module → ConfigBlock → Module
add_block m b =
    if b.kind == codes "Database"
    then record m { databases = Prelude.insert b.name (new_database m.name b) m.databases }
    else if b.kind == codes "FileStorage"
    then record m {
      file_storages =
          Prelude.insert b.name (record { name = b.name; module_name = m.name }) m.file_storages;
    }
    else m

abbrev pub add_blocks : Module → List ConfigBlock → Module
add_blocks m [] = m
add_blocks m (b ∷ bs) = add_blocks (add_block m b) bs

unfoldable pub new_module : Text → List ConfigBlock → Module
new_module name blocks =
    add_blocks (record { name = name; databases = []; file_storages = []; service = [] }) blocks

-- The three passes of `buildGraph` over the declarations of a file.
unfoldable pub add_modules : Program → List Decl → Program
unfolding new_module
add_modules p [] = p
add_modules p (Decl.module_decl d ∷ ds) =
    add_modules
      (if d.name == []
        then p
        else record p { modules = Prelude.insert d.name (new_module d.name d.blocks) p.modules })
      ds
add_modules p (d ∷ ds) = add_modules p ds

unfoldable pub add_aggregates : Program → Text → List Decl → Program
add_aggregates p m [] = p
add_aggregates p m (Decl.aggregate d ∷ ds) =
    add_aggregates
      (if d.name == [] then p else record p { agg_module = Prelude.insert d.name m p.agg_module }) m
      ds
add_aggregates p m (d ∷ ds) = add_aggregates p m ds

-- `m.Service = s.Name` on the modules of a service, where they are declared.
abbrev pub host : Text → Text → Option Module → Map Text Module → Map Text Module
host s name (some m) modules = Prelude.insert name (record m { service = s }) modules
host s name none modules = modules

unfoldable pub host_all : Text → List Text → Map Text Module → Map Text Module
host_all s [] modules = modules
host_all s (name ∷ names) modules =
    host_all s names (host s name (Prelude.lookup name modules) modules)

unfoldable pub add_services : Program → List ServiceDef → Program
unfolding host_all
add_services p [] = p
add_services p (s ∷ ss) =
    let names = ident_list (find_entry s.entries (codes "modules")) in
    add_services
      (record p {
        services = Prelude.insert s.name (record { name = s.name; modules = names }) p.services;
        modules = host_all s.name names p.modules;
      })
      ss

abbrev pub new_channels : List ChannelDef → List Channel
new_channels [] = []
new_channels (c ∷ cs) =
    record { from = c.from; to = c.to; via = ident_name (find_entry c.entries (codes "via")) }
    ∷ new_channels cs

unfoldable pub add_topology : Program → List Decl → Program
unfolding add_services
add_topology p [] = p
add_topology p (Decl.topology d ∷ ds) =
    let q = add_services p d.services in
    add_topology (record q { channels = q.channels ++ new_channels d.channels }) ds
add_topology p (d ∷ ds) = add_topology p ds

unfoldable pub each_file : (Program → SourceFile → Program) → Program → List SourceFile → Program
each_file f p [] = p
each_file f p (file ∷ files) = each_file f (f p file) files

unfoldable pub build_graph : Program → Program
unfolding each_file add_modules add_aggregates add_topology
build_graph p =
    let q = each_file (λ r file. add_modules r file.decls) p p.files in
    let r = each_file (λ s file. add_aggregates s file.module_name file.decls) q p.files in
    each_file (λ s file. add_topology s file.decls) r p.files

abbrev pub or_text : Option Text → Text
or_text (some t) = t
or_text none = []

unfoldable pub module_of_aggregate : Program → Text → Text
module_of_aggregate p agg = or_text (Prelude.lookup agg p.agg_module)

abbrev pub or_service : Option Module → Text
or_service (some m) = m.service
or_service none = []

abbrev pub service_in : Map Text Module → Text → Text
service_in modules name = or_service (Prelude.lookup name modules)

unfoldable pub service_of_module : Program → Text → Text
service_of_module p name = service_in p.modules name

unfoldable pub service_of_aggregate : Program → Text → Text
unfolding service_of_module module_of_aggregate
service_of_aggregate p agg = service_of_module p (module_of_aggregate p agg)

abbrev pub listed : Text → List Text → Bool
listed n [] = false
listed n (m ∷ ms) = m == n || listed n ms

abbrev pub or_database : Option Database → Option Database → Option Database
or_database (some d) o = some d
or_database none o = o

unfoldable pub manager_in : Text → Map Text Database → Option Database
manager_in agg [] = none
manager_in agg ((_, db) ∷ dbs) =
    let rest = manager_in agg dbs in if listed agg db.manages then some db else rest

unfoldable pub manager : Text → Map Text Module → Option Database
unfolding manager_in
manager agg [] = none
manager agg ((_, m) ∷ ms) = or_database (manager_in agg m.databases) (manager agg ms)

unfoldable pub database_of_aggregate : Program → Text → Option Database
unfolding manager
database_of_aggregate p agg = manager agg p.modules

unfoldable pub channel_in : List Channel → Text → Text → Option Channel
channel_in [] from to = none
channel_in (c ∷ cs) from to =
    let rest = channel_in cs from to in
    if c.from == from then (if c.to == to then some c else rest) else rest

unfoldable pub channel_between : Program → Text → Text → Option Channel
unfolding channel_in
channel_between p from to = channel_in p.channels from to
