-- ===== src/Tests/Transactions.antt =====
-- The rule on transactions on a use case over two databases.
use domainscript.Prelude.{
  ◌≡◌, refl, ◌↔◌, ◌⊎◌, Bool, true, false, List, [], ◌∷◌, Text, codes, text_eq,
}
use domainscript.Ast.{nowhere}
use domainscript.Program.Graph.{Program, Database}
use domainscript.Sema.Topology.{
  check_transaction, databases, database_names, databases_of, services_of,
}
use domainscript.Sema.Topology.Transactions.{OneName, AllXa, check_transaction-silent}
use domainscript.Tests.Resolving.{plain, messages}

abbrev managing : Text → Bool → Text → Database
managing name xa agg = record {
  name = name;
  module_name = codes "sales";
  supports_xa = xa;
  manages = agg ∷ [];
  provider = [];
  dsn = [];
  tenancy = [];
  tenancy_column = [];
}

abbrev shop : Program
shop = record {
  files = [];
  modules =
      (
        codes "sales",
        record {
          name = codes "sales";
          databases =
              (codes "Ledger", managing (codes "Ledger") true (codes "Wallet"))
              ∷ (codes "Stock", managing (codes "Stock") false (codes "Item"))
              ∷ [];
          file_storages = [];
          service = codes "front";
        },
      )
      ∷ [];
  agg_module = (codes "Wallet", codes "sales") ∷ (codes "Item", codes "sales") ∷ [];
  services = [];
  channels = [];
}

abbrev both : List Text
both = codes "Wallet" ∷ codes "Item" ∷ []

reported :
    messages (check_transaction plain shop nowhere.start (codes "Buy") both)
    ≡ codes
        "UseCase Buy opera cross-database ([Ledger Stock]) sem suporte XA em todos os bancos: modele como Saga (§23)"
      ∷ []
unfolding check_transaction
reported = refl

check_transaction-silent_example :
    (check_transaction plain shop nowhere.start (codes "Buy") both ≡ []) ↔ (
      (OneName (database_names (databases (databases_of plain shop both)))
        ⊎ AllXa (databases (databases_of plain shop both)))
      × OneName (services_of plain shop both))
check_transaction-silent_example =
    check_transaction-silent plain shop nowhere.start (codes "Buy") both
