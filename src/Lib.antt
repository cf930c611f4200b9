-- ===== src/Lib.antt =====
-- DomainScript: the front end of the transpiler, which goes from source text to diagnostics, and the
-- data that its phases share.
--
-- The program. The lexer turns a source into tokens; the parser turns tokens into a tree; the
-- resolver collects the names into the table of symbols and resolves types, references, the names in
-- bodies and those of the configuration; the graph of the program has its modules, databases,
-- services and channels; the checker applies the rules to the tree. Every phase reports into one bag of
-- diagnostics, which the driver renders; the generator of Go runs only if the bag has no error.
--
-- The parts, and the files that model them.
-- - token/token.go: Token and its children Token/Kinds (`Kind`, `kinds`, the classes of kinds),
--   Token/Lookup (`init`, `Lookup`), Token/Positions (`Pos`).
-- - diag/diagnostic.go: Diag. `DiagnosticBag` is a record that `add` returns anew; the map `seen` is
--   an association list; `sort.SliceStable` is the stable insertion sort.
-- - lexer/lexer.go: Lexer/State (the state and the cursor), Lexer/Operators (`lexOperator`) and
--   Lexer/Scan (the other functions, up to `Lex`). The state holds `src[pos:]` in place of `src` and
--   `pos`. The call that would read behind the end of the source gives `none`, a panic.
-- - parser/: Parser/Cursor has the cursor, the recovery and the window of silence (parser.go,
--   sync_sets.go); Parser/Operands and Parser/Expressions have the grammar of expressions and of the
--   domain operations (parse_expr.go, parse_query.go), and Parser/Statements that of statements
--   (parse_stmt.go). Parser/Sequence is the notation of the declarations, whose parsers are steps of
--   the cursor in a do block, and Parser/Decls has them: Fields, Domain, Behaviour, ReadSide,
--   Reactions, Integration and Files (parse_decl.go), Config, Infrastructure and Versions
--   (parse_config.go), TestFiles and Assertions (parse_testfile.go). The tokens from the current one on end with their EOF by their type, as
--   `newParser` makes them, so that no index leaves the tokens.
-- - ast/: Ast has the expressions and the statements with their spans, Ast/Decls the declarations of
--   the domain, Ast/Files those of infrastructure and of tests, and the file; astutil/walk.go is Astutil,
--   where a walk with a visitor is the list of the nodes in the order of the visits.
-- - symbols/table.go: Symbols. The table is generic in the declarations that it points to.
-- - types/type.go, with `reportable` of sema/rules_compat.go: Types. A pointer to a function type is
--   a number into a heap of signatures, which may be cyclic.
-- - resolver/: Resolver/Scope (scope.go, receivers.go), Resolver/Collect and Resolver/References
--   (resolver.go), Resolver/Bodies (resolve_body.go), Resolver/Config (resolve_config.go) and
--   Resolver/Resolve, the passes. A pass is the list of the diagnostics that it adds to the bag.
-- - sema/: Sema/Flow (rules_flow.go), Sema/Domain (rules_types.go, rules_domain.go,
--   rules_program.go), Sema/Warnings (rules_warnings.go, rules_upcast.go), Sema/Coverage (the
--   coverage of errors in rules_warnings.go), Sema/Topology (rules_crossfile.go) and Sema/Distance
--   (`levenshtein` of rules_typecheck.go). A rule gives its reports in order.
-- - program/graph.go: Program/Graph. A map is the list of its entries in one order of
--   `range`, which Go chooses anew for each loop.
-- - codegen/goname/names.go: Goname.
-- Prelude holds the notation and the lemmas that the parts share, and Tests holds runs of the
-- definitions at concrete inputs.
--
-- Bounds. The numbers of the source are lines, columns, counts and lengths of a text in memory, and
-- are natural numbers here. The loop of `run` has one step more of fuel than the source has runes,
-- and that of `skipTrivia` one more than is left: every step but the last consumes a rune. The loops
-- of the parser have one step for each token that is left and one more, and `grammar` and
-- `stmt_grammar`, whose levels are the calls of the grammar of itself, are taken to that depth, as
-- are the grammar of types and that of configuration values: every step of a loop and every nested
-- call consumes a token. The fuel of `identical` is the depth of the stack: without any left it gives
-- `none`, the overflow. The ceiling of a bag is a natural number: the program gives no negative one.
--
-- Not modelled. The tables of the package `unicode`, the verb `%q` and the reading of files are not
-- code of the repository: the first two are parameters, as are `ToUpper` and `ToLower`. The inference
-- of types and the rules that need it, the rules on test files and on foreign signatures, the loading
-- of program/, the driver, and the rest of the generator of codegen/ with its templates are not part
-- of this library.
pub mod Prelude
pub mod Token
pub mod Diag
pub mod Lexer
pub mod Ast
pub mod Astutil
pub mod Parser
pub mod Symbols
pub mod Types
pub mod Resolver
pub mod Program
pub mod Sema
pub mod Goname
pub mod Tests
