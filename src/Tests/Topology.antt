-- ===== src/Tests/Topology.antt =====
-- The graph of a small program, and its queries.
use domainscript.Prelude.{
  ◌≡◌, refl, inl, inr, true, ◌&&◌, List, [], ◌∷◌, Text, codes, text_eq, Map, some, none,
  if◌then◌else◌,
}
use domainscript.Token.{true_kw}
use domainscript.Ast.{nowhere, absent, ident, literal, list, no_exprs, expr_cons}
use domainscript.Ast.Decls.{ConfigEntry}
use domainscript.Ast.Files.{Decl}
use domainscript.Program.Graph.{
  SourceFile, Module, Database, Program, build_graph, service_in, host_all, listed,
  service_of_aggregate, database_of_aggregate, channel_between,
}
use domainscript.Program.Graph.Queries.{
  is_declared, service_in-host_all, is_managed, database_of_aggregate-only,
}

abbrev ledger : List ConfigEntry
ledger =
    record { key = codes "supportsXA"; value = literal nowhere true_kw (codes "true") }
    ∷ record {
      key = codes "manages";
      value = list nowhere (expr_cons (ident nowhere (codes "Wallet")) no_exprs);
    }
    ∷ []

abbrev sales : SourceFile
sales = record {
  module_name = codes "sales";
  decls =
      Decl.module_decl (record {
        span = nowhere;
        name = codes "sales";
        settings = [];
        blocks =
            record {
              span = nowhere;
              kind = codes "Database";
              name = codes "Ledger";
              entries = ledger;
            }
            ∷ [];
      })
      ∷ Decl.aggregate (record {
        span = nowhere;
        name = codes "Wallet";
        strategy = [];
        snapshot = absent;
        storage = [];
        state = [];
        access = [];
        handlers = [];
        appliers = [];
      })
      ∷ [];
}

abbrev topology : SourceFile
topology = record {
  module_name = [];
  decls =
      Decl.topology (record {
        span = nowhere;
        services =
            record {
              span = nowhere;
              name = codes "front";
              entries =
                  record {
                    key = codes "modules";
                    value = list nowhere (expr_cons (ident nowhere (codes "sales")) no_exprs);
                  }
                  ∷ [];
            }
            ∷ [];
        channels =
            record {
              span = nowhere;
              from = codes "sales";
              to = codes "stock";
              entries = record { key = codes "via"; value = ident nowhere (codes "queue") } ∷ [];
            }
            ∷ [];
      })
      ∷ [];
}

abbrev shop : Program
shop = record {
  files = sales ∷ topology ∷ [];
  modules = [];
  agg_module = [];
  services = [];
  channels = [];
}

build-shop :
    (service_of_aggregate (build_graph shop) (codes "Wallet") ≡ codes "front")
    × (channel_between (build_graph shop) (codes "sales") (codes "stock")
        ≡ some (record { from = codes "sales"; to = codes "stock"; via = codes "queue" }))
    × (channel_between (build_graph shop) (codes "stock") (codes "sales") ≡ none)
unfolding build_graph service_of_aggregate channel_between
build-shop = (refl, refl, refl)

abbrev two_modules : Map Text Module
two_modules =
    (
      codes "sales",
      record { name = codes "sales"; databases = []; file_storages = []; service = [] },
    )
    ∷ (
      codes "stock",
      record { name = codes "stock"; databases = []; file_storages = []; service = codes "back" },
    )
    ∷ []

service_in-host_all_example :
    service_in
      (host_all (codes "front") (codes "sales" ∷ codes "gone" ∷ []) two_modules)
      (codes "sales")
    ≡ (if listed (codes "sales") (codes "sales" ∷ codes "gone" ∷ [])
          && is_declared (codes "sales") two_modules
        then codes "front"
        else service_in two_modules (codes "sales"))
service_in-host_all_example =
    service_in-host_all (codes "front") (codes "sales" ∷ codes "gone" ∷ []) two_modules
      (codes "sales")

abbrev vault : Database
vault = record {
  name = codes "Vault";
  module_name = codes "sales";
  supports_xa = true;
  manages = codes "Wallet" ∷ [];
  provider = [];
  dsn = [];
  tenancy = [];
  tenancy_column = [];
}

abbrev banked : Program
banked = record shop {
  modules =
      (
        codes "stock",
        record {
          name = codes "stock";
          databases =
              (codes "Shelf", record vault { name = codes "Shelf"; manages = codes "Item" ∷ [] })
              ∷ [];
          file_storages = [];
          service = [];
        },
      )
      ∷ (
        codes "sales",
        record {
          name = codes "sales";
          databases = (codes "Vault", vault) ∷ [];
          file_storages = [];
          service = [];
        },
      )
      ∷ [];
}

database_of_aggregate-only_example :
    database_of_aggregate banked (codes "Wallet")
    ≡ (if is_managed (codes "Wallet") banked.modules then some vault else none)
database_of_aggregate-only_example =
    database_of_aggregate-only banked (codes "Wallet") vault ((inl refl, tt), ((inr refl, tt), tt))
