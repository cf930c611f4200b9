-- ===== src/Program/Graph/Queries.antt =====
-- program/graph.go: what the queries of the graph answer.
use domainscript.Prelude.{
  ◌≡◌, refl, sym, ap, ◌∙◌, ◌⊎◌, inl, inr, Bool, true, false, ◌&&◌, ◌||◌, Option, none, some, List,
  [], ◌∷◌, Text, Map, text_eq, text_beq_iff, ◌==◌, if◌then◌else◌, Bool-cases, Option-cases, arith,
  All,
}
use domainscript.Prelude
use domainscript.Program.Graph.{
  Database, Module, Program, host, host_all, service_in, listed, manager_in, manager,
  database_of_aggregate,
}

abbrev pub is_some : Option Module → Bool
is_some (some m) = true
is_some none = false

abbrev pub is_declared : Text → Map Text Module → Bool
is_declared name modules = is_some (Prelude.lookup name modules)

-- One module of the list is hosted.
host-service_in :
    (s name other : Text) (modules : Map Text Module)
    → service_in (host s name (Prelude.lookup name modules) modules) other
      ≡ (if name == other && is_declared name modules then s else service_in modules other)
host-service_in s name other modules = elim (Option-cases (Prelude.lookup name modules)) [
  | inl e ↦ rw e (ground arith)
  | inr (m, e) ↦
      rw (e, Prelude.lookup-insert name other (record m { service = s }) modules) (ground arith)
]

host-is_declared :
    (s name other : Text) (modules : Map Text Module)
    → is_declared other (host s name (Prelude.lookup name modules) modules)
      ≡ is_declared other modules
host-is_declared s name other modules = elim (Option-cases (Prelude.lookup name modules)) [
  | inl e ↦ rw e refl
  | inr (m, e) ↦
      rw (e, Prelude.lookup-insert name other (record m { service = s }) modules)
        (elim (Bool-cases (name == other)) [
          | inl same ↦ rw same (
              sym (
                ap is_some (
                  ap (λ n. Prelude.lookup n modules) (sym ((text_beq_iff name other).0 same)) ∙ e)))
          | inr apart ↦ rw apart refl
        ])
]

-- The service of a module, once the list of a service is read: that service if the module is on the
-- list and declared, and otherwise the service that it had.
pub service_in-host_all :
    (s : Text) (names : List Text) (modules : Map Text Module) (name : Text)
    → service_in (host_all s names modules) name
      ≡ (if listed name names && is_declared name modules then s else service_in modules name)
unfolding host_all
service_in-host_all s [] modules name = refl
service_in-host_all s (n ∷ names) modules name =
    let rest = host s n (Prelude.lookup n modules) modules in
    rw
      (
        service_in-host_all s names rest name,
        host-is_declared s n name modules,
        host-service_in s n name modules,
      )
      (elim (Bool-cases (n == name)) [
        | inl e ↦ rw (e, (text_beq_iff n name).0 e) (ground arith)
        | inr e ↦ rw e (ground arith)
      ])

-- The database `d` is the only one that manages the aggregate.
abbrev pub OnlyDatabase : Text → Database → Map Text Database → Type 0
OnlyDatabase agg d [] = Unit
OnlyDatabase agg d ((_, db) ∷ dbs) =
    ((listed agg db.manages ≡ false) ⊎ (db ≡ d)) × OnlyDatabase agg d dbs

abbrev pub OnlyManager : Text → Database → Map Text Module → Type 0
OnlyManager agg d [] = Unit
OnlyManager agg d ((_, m) ∷ ms) = OnlyDatabase agg d m.databases × OnlyManager agg d ms

abbrev pub managed_in : Text → Map Text Database → Bool
managed_in agg [] = false
managed_in agg ((_, db) ∷ dbs) = listed agg db.manages || managed_in agg dbs

abbrev pub is_managed : Text → Map Text Module → Bool
is_managed agg [] = false
is_managed agg ((_, m) ∷ ms) = managed_in agg m.databases || is_managed agg ms

manager_in-only :
    (agg : Text) (d : Database) (dbs : Map Text Database)
    → OnlyDatabase agg d dbs
    → manager_in agg dbs ≡ (if managed_in agg dbs then some d else none)
unfolding manager_in
manager_in-only agg d [] h = refl
manager_in-only agg d ((k, db) ∷ dbs) ((inl e), h) = rw e (manager_in-only agg d dbs h)
manager_in-only agg d ((k, db) ∷ dbs) ((inr e), h) = elim (Bool-cases (listed agg db.manages)) [
  | inl l ↦ rw l (ap some e)
  | inr l ↦ rw l (manager_in-only agg d dbs h)
]

manager-only :
    (agg : Text) (d : Database) (ms : Map Text Module)
    → OnlyManager agg d ms
    → manager agg ms ≡ (if is_managed agg ms then some d else none)
unfolding manager
manager-only agg d [] h = refl
manager-only agg d ((k, m) ∷ ms) h = elim (Bool-cases (managed_in agg m.databases)) [
  | inl e ↦ rw (manager_in-only agg d m.databases h.0, e) refl
  | inr e ↦ rw (manager_in-only agg d m.databases h.0, e) (manager-only agg d ms h.1)
]

-- Where no database but `d` manages the aggregate, in any module, the answer is `d` if some database
-- manages it and nil otherwise, whatever the order of iteration of the maps is.
pub database_of_aggregate-only :
    (p : Program) (agg : Text) (d : Database)
    → OnlyManager agg d p.modules
    → database_of_aggregate p agg ≡ (if is_managed agg p.modules then some d else none)
unfolding database_of_aggregate
database_of_aggregate-only p agg d h = manager-only agg d p.modules h
