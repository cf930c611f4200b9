-- ===== src/Tests.antt =====
-- Runs of the definitions on concrete inputs, and the theorems at inputs that meet their
-- hypotheses.
pub mod Files
pub mod Parsing
pub mod Resolving
pub mod Names
pub mod Topology
pub mod Transactions
use domainscript.Prelude.{
  ℕ, ◌≡◌, refl, ◌↔◌, ◌⊎◌, true, false, not, ◌&&◌, ◌||◌, List, [], ◌∷◌, map, Text, codes, text_eq,
  text_ltb, ◌==◌, some, none, if◌then◌else◌, ◌>>=◌, Returns, All, arith, itoa, String,
}
use domainscript.Token.{Pos, less, event, ident, lookup_ident, is_keyword, kinds}
use domainscript.Token.Keywords.{lookup_ident_exact}
use domainscript.Lexer.{Unicode, within, is_digit, lex}
use domainscript.Lexer.Run.{IsLexed, lex-IsLexed}
use domainscript.Diag.{
  Diagnostic, error, warning, new_with_max, key, add, add_all, has_errors, all, render,
}
use domainscript.Diag.Key.{Same, key_exact}
use domainscript.Diag.Invariant.{Inv, add_all-Inv}
use domainscript.Diag.Collect.{distinct_onto, any_error, add_all-distinct, has_errors-add_all}
use domainscript.Diag.Sorted.{Sorted, SameAtEachPos, all-stable}
use domainscript.Types.{
  StaticType, primitive, generic, func, no_types, type_cons, Heap, identical, assignable,
}
use domainscript.Types.Identity.{identical_sym, identical_trans}
use domainscript.Types.Termination.{identical_total, identical_diverges}
use domainscript.Symbols.{Symbol, SymbolTable, empty, lookup_public}
use domainscript.Symbols
use domainscript.Symbols.Laws.{declared, IsFiled, empty-IsFiled, define-IsFiled, define_fresh}
use domainscript.Symbols.Search.{find-none, find_first}
use domainscript.Resolver.Scope.{
  Scope, Binding, bind_local, bind_receiver, new_scope, child, construct_handle,
  contextual_receiver_names, seed_receivers,
}
use domainscript.Resolver.Scope
use domainscript.Resolver.Scope.Shadowing.{contains, lookup-define, lookup-seed_receivers}
use domainscript.Ast.{
  nowhere, absent, ident, member, Stmt, block_stmt, for_stmt, break_stmt, continue_stmt, block,
  no_stmts, stmt_cons,
}
use domainscript.Astutil.{for_each_stmt}
use domainscript.Ast.Decls.{EnumDecl}
use domainscript.Ast.Files.{Decl}
use domainscript.Sema.Flow.{ArmInfo, match_error, check_loop_control, member_names}
use domainscript.Sema.Flow.Scans.{some_case, is_wildcard, is_case, case_arm}
use domainscript.Sema.Flow.Exhaustive.{
  match_error-guarded, match_error-exhaustive, match_error-mixed,
}
use domainscript.Sema.Flow.Loops.{without_loops, control_reports, check_loop_control-walk}

-- The tables of `unicode` with nothing beyond ASCII.
abbrev pub ascii : Unicode
ascii = record {
  is_letter = λ r. within b'a' b'z' r || within b'A' b'Z' r;
  is_decimal = is_digit;
  quote_rune = λ r. r ∷ [];
  quote = λ s. s;
  letter_ascii = λ r h. refl;
  decimal_ascii = λ r h. refl;
}

abbrev source : Text
source = codes "Event v1 x_1 // c\n 3.14 5s \"a\\n\" -> =="

lex-source :
    (lex ascii source >>= λ r. some (map (λ t. t.lit) r.0))
    ≡ some (
        [] ∷ codes "v1" ∷ codes "x_1" ∷ codes "3.14" ∷ codes "5s" ∷ codes "a\n" ∷ [] ∷ [] ∷ [] ∷ [])
unfolding lex
lex-source = refl

lex-IsLexed_example : Returns (λ (toks, diags). IsLexed ascii source toks) (lex ascii source)
lex-IsLexed_example = lex-IsLexed ascii source

lookup_ident_exact_example :
    ((lookup_ident (codes "Event") ≡ event) ↔ (codes "Event" ≡ kinds event))
    × ((lookup_ident (codes "Event") ≡ ident) ⊎ (is_keyword (lookup_ident (codes "Event")) ≡ true))
unfolding is_keyword
lookup_ident_exact_example = lookup_ident_exact (codes "Event") event refl

abbrev at : ℕ → ℕ → Pos
at l c = record { line = l; col = c }

abbrev late_error : Diagnostic
late_error = record { severity = error; pos = at 7 2; msg = codes "x"; code = [] }

abbrev early_warning : Diagnostic
early_warning = record { severity = warning; pos = at 1 5; msg = codes "y"; code = codes "E1" }

abbrev early_error : Diagnostic
early_error = record { severity = error; pos = at 1 5; msg = codes "z"; code = [] }

abbrev reported : List Diagnostic
reported = late_error ∷ early_warning ∷ late_error ∷ early_error ∷ []

render-reported :
    render (add_all (new_with_max 1) reported)
    ≡ codes
        "1:5: warning[E1]: y\n7:2: error: x\nerror: coleta interrompida após 1 erros; demais diagnósticos suprimidos"
unfolding render add_all add key itoa less
render-reported = refl

key_exact_example : (key late_error ≡ key early_error) ↔ Same late_error early_error
key_exact_example = key_exact late_error early_error

add_all-Inv_example : Inv (add_all (new_with_max 1) reported)
add_all-Inv_example = add_all-Inv 1 reported

add_all-distinct_example : (add_all (new_with_max 100) reported).items ≡ distinct_onto [] reported
unfolding add_all add key itoa
add_all-distinct_example = add_all-distinct 100 reported refl

has_errors-add_all_example : has_errors (add_all (new_with_max 0) reported) ≡ any_error reported
has_errors-add_all_example = has_errors-add_all 0 reported

all-stable_example :
    let b = add_all (new_with_max 9) reported in
    let ys = early_warning ∷ early_error ∷ late_error ∷ [] in
    (Sorted ys × SameAtEachPos ys b.items) ↔ (ys ≡ all b)
all-stable_example =
    all-stable (add_all (new_with_max 9) reported) (early_warning ∷ early_error ∷ late_error ∷ [])

-- `Query f(x string) list<string>`
abbrev flat : Heap
flat p = record {
  params = type_cons (primitive (codes "string")) no_types;
  result = generic (codes "list") (type_cons (primitive (codes "string")) no_types);
}

abbrev pair_of : StaticType → StaticType
pair_of t = generic (codes "map") (type_cons (primitive (codes "string")) (type_cons t no_types))

identical_sym_example :
    identical flat 5 (pair_of (func 0)) (pair_of (func 1))
    ≡ identical flat 5 (pair_of (func 1)) (pair_of (func 0))
identical_sym_example = identical_sym flat 5 (pair_of (func 0)) (pair_of (func 1))

identical_trans_example : identical flat 5 (pair_of (func 0)) (pair_of (func 2)) ≡ some true
unfolding identical
identical_trans_example =
    identical_trans flat 5 (pair_of (func 0)) (pair_of (func 1)) (pair_of (func 2)) refl refl

identical_total_example :
    Returns (λ _. Unit {0}) (identical flat 4 (pair_of (func 0)) (func 1))
    × (identical flat 4 (pair_of (func 0)) (pair_of (func 0)) ≡ some true)
identical_total_example =
    identical_total flat (λ p. 2) 4 (pair_of (func 0)) (func 1) (λ p. (omega arith, omega arith))
      (λ p. ((tt, tt), (tt, tt))) (tt, (tt, tt)) (omega arith)

-- `Query f(x f) f`
abbrev cyclic : Heap
cyclic p = record { params = type_cons (func 0) no_types; result = func 0 }

identical_diverges_example : identical cyclic 1000 (func 0) (func 0) ≡ none
identical_diverges_example = identical_diverges cyclic 0 no_types 1000 refl

assignable_decimal :
    assignable flat 3 (primitive (codes "decimal")) (primitive (codes "integer")) ≡ some true
unfolding assignable
assignable_decimal = refl

abbrev status_enum : EnumDecl
status_enum = record {
  span = nowhere;
  name = codes "Status";
  base = none;
  members =
      record { span = nowhere; name = codes "Paid"; value = absent }
      ∷ record { span = nowhere; name = codes "Open"; value = absent }
      ∷ [];
  coerce = none;
}

abbrev status : Symbol Decl
status = record {
  name = codes "Status";
  kind = Symbols.enum;
  module_name = codes "orders";
  decl = Decl.enum status_enum;
  public = false;
}

abbrev other_status : Symbol Decl
other_status = record status { module_name = codes "billing" }

abbrev declared_twice : SymbolTable Decl
declared_twice = Symbols.declare (Symbols.declare empty status) other_status

define-IsFiled_example : IsFiled (Symbols.define empty status).2
define-IsFiled_example = define-IsFiled empty status empty-IsFiled

define_fresh_example :
    let t' = (Symbols.define (Symbols.declare empty status) other_status).2 in
    (Symbols.define (Symbols.declare empty status) other_status ≡ (other_status, true, t'))
    × ((m n : Text)
        → declared t' m n ≡ (
            if codes "billing" == m && codes "Status" == n
            then some other_status
            else declared (Symbols.declare empty status) m n))
    × ((n : Text)
        → lookup_public t' n ≡ (
            if false && codes "Status" == n
            then some other_status
            else lookup_public (Symbols.declare empty status) n))
define_fresh_example = define_fresh (Symbols.declare empty status) other_status refl

find-none_example : (Symbols.find declared_twice (codes "Cart") ≡ none) ↔ (
    (lookup_public declared_twice (codes "Cart") ≡ none)
    × ((m : Text) → declared declared_twice m (codes "Cart") ≡ none))
find-none_example = find-none declared_twice (codes "Cart")

find_first_example :
    (s : Symbol Decl) × (Symbols.find declared_twice (codes "Status") ≡ some s)
    × (m : Text) × (declared declared_twice m (codes "Status") ≡ some s)
    × (text_ltb (codes "orders") m ≡ false)
find_first_example = find_first declared_twice (codes "Status") (codes "orders") status refl refl

abbrev total : Binding
total = record { name = codes "total"; kind = bind_local }

lookup-define_example :
    Scope.lookup (Scope.define (child new_scope) (codes "total") total) (codes "total") ≡ (
      if not (codes "total" == []) && codes "total" == codes "total"
      then some total
      else Scope.lookup (child new_scope) (codes "total"))
lookup-define_example = lookup-define (child new_scope) (codes "total") (codes "total") total

lookup-seed_receivers_example :
    Scope.lookup (seed_receivers new_scope construct_handle) (codes "self") ≡ (
      if contains (contextual_receiver_names construct_handle) (codes "self")
      then some (record { name = codes "self"; kind = bind_receiver })
      else Scope.lookup new_scope (codes "self"))
lookup-seed_receivers_example = lookup-seed_receivers new_scope construct_handle (codes "self")

-- `Status.Paid => …`, `Status.Open => …`
abbrev of_enum : String → String → ArmInfo
of_enum e m = case_arm (member nowhere (ident nowhere (codes e)) (codes m) (at 3 4))

match_error-exhaustive_example :
    (match_error
        (λ s. s)
        declared_twice
        (codes "orders")
        (of_enum "Status" "Paid" ∷ of_enum "Status" "Open" ∷ [])
      ≡ none)
    ↔ ((some_case is_wildcard (of_enum "Status" "Paid" ∷ of_enum "Status" "Open" ∷ []) ≡ false)
        × All
            (λ m.
              some_case
                (is_case (codes "Status") m)
                (of_enum "Status" "Paid" ∷ of_enum "Status" "Open" ∷ [])
              ≡ true)
            (codes "Paid" ∷ codes "Open" ∷ []))
unfolding Symbols.lookup
match_error-exhaustive_example =
    match_error-exhaustive (λ s. s) declared_twice (codes "orders")
      (of_enum "Status" "Paid" ∷ of_enum "Status" "Open" ∷ []) (codes "Status") (codes "orders")
      status_enum false refl ((refl, tt), ((refl, tt), tt)) refl refl

abbrev guarded : List ArmInfo
guarded =
    record { patterns = ident nowhere (codes "x") ∷ []; has_guard = true }
    ∷ case_arm (ident nowhere (codes "_"))
    ∷ []

match_error-guarded_example :
    (match_error (λ s. s) declared_twice (codes "orders") guarded ≡ none)
    ↔ (some_case is_wildcard guarded ≡ true)
match_error-guarded_example =
    match_error-guarded (λ s. s) declared_twice (codes "orders") guarded refl

match_error-mixed_example :
    let arms = of_enum "Other" "Paid" ∷ of_enum "Status" "Open" ∷ [] in
    (match_error (λ s. s) declared_twice (codes "orders") arms ≡ none)
    × (some_case (is_case (codes "Status") (codes "Paid")) arms ≡ false)
unfolding Symbols.lookup
match_error-mixed_example =
    match_error-mixed (λ s. s) declared_twice (codes "orders") nowhere (at 3 4) (codes "Other")
      (codes "Status") (codes "orders") (codes "Paid") (codes "Open") status_enum false refl refl
      refl refl

-- `break` in a loop, and `continue` behind it.
abbrev loops : Stmt
loops = block_stmt (
    block nowhere (
      stmt_cons
        (for_stmt nowhere (codes "x") (ident nowhere (codes "xs"))
          (block nowhere (stmt_cons (break_stmt nowhere false) no_stmts)))
        (stmt_cons (continue_stmt nowhere) no_stmts)))

check_loop_control-walk_example :
    (check_loop_control loops true ≡ [])
    × (check_loop_control loops false ≡ control_reports (for_each_stmt (without_loops loops)))
check_loop_control-walk_example = check_loop_control-walk loops
