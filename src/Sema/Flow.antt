-- ===== src/Sema/Flow.antt =====
-- sema/rules_flow.go: the rules on `match`, on `Nop` and on the control of loops. A rule gives its
-- reports in order, and `report_all` hands them to the bag; `quote` is the verb `%q`.
pub mod Scans
pub mod Exhaustive
pub mod Loops
use domainscript.Prelude.{
  Bool, true, false, List, [], ◌∷◌, ◌++◌, Text, codes, text_eq, ◌==◌, Map, Option, none, some,
  if◌then◌else◌,
}
use domainscript.Prelude
use domainscript.Token.{Pos}
use domainscript.Diag.{DiagnosticBag, seen_at, errorf}
use domainscript.Symbols.{SymbolKind, enum, Symbol, SymbolTable}
use domainscript.Symbols
use domainscript.Ast.{
  Expr, ident, member, match_expr, ExprArms, no_arms, arm, absent, Stmt, no_stmt, block_stmt,
  for_stmt, ensure_stmt, match_stmt, break_stmt, continue_stmt, Block, block, Stmts, no_stmts,
  stmt_cons, StmtArms, no_stmt_arms, stmt_arm, Span, expr_pos,
}
use domainscript.Ast.Decls.{EnumMember}
use domainscript.Ast.Files.{Decl}
use domainscript.Astutil.{is_ident, expr_list, for_each_stmt, for_each_expr_in_block, decl_blocks}

abbrev pub member_names : List EnumMember → List Text
member_names [] = []
member_names (m ∷ ms) = m.name ∷ member_names ms

-- A message and its place, as `Errorf` takes them.
pub record Report : Type 0 where
  pub pos : Pos
  pub msg : Text

unfoldable pub report_all : DiagnosticBag → List Report → DiagnosticBag
unfolding errorf
report_all b [] = b
report_all b (r ∷ rs) = report_all (errorf b r.pos r.msg) rs

pub record ArmInfo : Type 0 where
  pub patterns : List Expr
  pub has_guard : Bool

-- `a.Guard != nil`
abbrev pub is_present : Expr → Bool
is_present absent = false
is_present e = true

unfoldable pub stmt_arms : StmtArms → List ArmInfo
stmt_arms no_stmt_arms = []
stmt_arms (stmt_arm ps g b as') =
    record { patterns = expr_list ps; has_guard = is_present g } ∷ stmt_arms as'

unfoldable pub expr_arms : ExprArms → List ArmInfo
expr_arms no_arms = []
expr_arms (arm ps g b as') =
    record { patterns = expr_list ps; has_guard = is_present g } ∷ expr_arms as'

-- `enumMemberRef`: the enum and the member of a qualified pattern.
unfoldable pub enum_member_ref : Expr → Option (Text × Text)
enum_member_ref (member s (ident t en) mem p) = some (en, mem)
enum_member_ref e = none

-- The variables of the loop of `checkMatch`.
pub record MatchScan : Type 0 where
  pub has_guard : Bool
  pub has_wild : Bool
  pub covered : Map Text Bool
  pub enum_name : Text

abbrev pub scan_start : MatchScan
scan_start = record { has_guard = false; has_wild = false; covered = []; enum_name = [] }

abbrev pub scan_ref : MatchScan → Option (Text × Text) → MatchScan
scan_ref s (some (en, mem)) = record s {
  enum_name = en;
  covered = Prelude.insert mem true s.covered;
}
scan_ref s none = s

unfoldable pub scan_pattern : MatchScan → Expr → MatchScan
unfolding is_ident enum_member_ref
scan_pattern s p =
    if is_ident p (codes "_") then record s { has_wild = true } else scan_ref s (enum_member_ref p)

unfoldable pub scan_patterns : MatchScan → List Expr → MatchScan
unfolding scan_pattern
scan_patterns s [] = s
scan_patterns s (p ∷ ps) = scan_patterns (scan_pattern s p) ps

abbrev pub scan_guard : MatchScan → Bool → MatchScan
scan_guard s true = record s { has_guard = true }
scan_guard s false = s

unfoldable pub scan_arms : MatchScan → List ArmInfo → MatchScan
unfolding scan_patterns
scan_arms s [] = s
scan_arms s (a ∷ as') = scan_arms (scan_patterns (scan_guard s a.has_guard) a.patterns) as'

-- The members without a case.
unfoldable pub missing : Map Text Bool → List Text → List Text
missing covered [] = []
missing covered (m ∷ ms) =
    let rest = missing covered ms in if seen_at m covered then rest else m ∷ rest

-- `strings.Join`
abbrev pub join : List Text → Text → Text
join [] sep = []
join (t ∷ []) sep = t
join (t ∷ u ∷ us) sep = t ++ (sep ++ join (u ∷ us) sep)

abbrev pub is_enum : SymbolKind → Bool
is_enum enum = true
is_enum k = false

abbrev pub needs_wildcard : Text
needs_wildcard = codes "match com guards (when) exige um braço wildcard `_`"

module _ (quote : Text → Text) where
  abbrev pub wildcard_forbidden : Text → Text
  wildcard_forbidden en =
      codes "wildcard `_` é proibido em match sobre o enum "
      ++ (quote en ++ codes " (deve ser exaustivo)")

  abbrev pub not_exhaustive : Text → List Text → Text
  not_exhaustive en ms =
      codes "match não-exaustivo sobre o enum "
      ++ (quote en ++ (codes ": faltam os casos " ++ join ms (codes ", ")))

  abbrev pub missing_error : Text → List Text → Option Text
  missing_error en [] = none
  missing_error en (m ∷ ms) = some (not_exhaustive en (m ∷ ms))

  abbrev pub members_error : MatchScan → Decl → Option Text
  members_error s (Decl.enum d) =
      missing_error s.enum_name (missing s.covered (member_names d.members))
  members_error s _ = none

  abbrev pub enum_error : MatchScan → Option (Symbol Decl) → Option Text
  enum_error s none = none
  enum_error s (some sym) =
      if is_enum sym.kind
      then (if s.has_wild then some (wildcard_forbidden s.enum_name) else members_error s sym.decl)
      else none

  -- The end of `checkMatch`, on what the loop has found.
  abbrev pub scan_error : SymbolTable Decl → Text → MatchScan → Option Text
  scan_error tab m s =
      if s.has_guard
      then (if s.has_wild then none else some needs_wildcard)
      else enum_error s (Symbols.lookup tab m s.enum_name)

  -- `checkMatch`, which reports one message at most.
  unfoldable pub match_error : SymbolTable Decl → Text → List ArmInfo → Option Text
  unfolding scan_arms missing
  match_error tab m arms = scan_error tab m (scan_arms scan_start arms)

  abbrev pub report_at : Pos → Option Text → List Report
  report_at pos (some msg) = record { pos = pos; msg = msg } ∷ []
  report_at pos none = []

  unfoldable pub stmt_matches : SymbolTable Decl → Text → List Stmt → List Report
  unfolding match_error stmt_arms
  stmt_matches tab m [] = []
  stmt_matches tab m (match_stmt s x as' ∷ ss) =
      report_at s.start (match_error tab m (stmt_arms as')) ++ stmt_matches tab m ss
  stmt_matches tab m (s ∷ ss) = stmt_matches tab m ss

  unfoldable pub expr_matches : SymbolTable Decl → Text → List Expr → List Report
  unfolding match_error expr_arms
  expr_matches tab m [] = []
  expr_matches tab m (match_expr s x as' ∷ es) =
      report_at s.start (match_error tab m (expr_arms as')) ++ expr_matches tab m es
  expr_matches tab m (e ∷ es) = expr_matches tab m es

  -- The loop of `checkMatchExhaustiveness` over the bodies.
  unfoldable pub block_matches : SymbolTable Decl → Text → List Block → List Report
  unfolding stmt_matches expr_matches for_each_stmt for_each_expr_in_block
  block_matches tab m [] = []
  block_matches tab m (b ∷ bs) =
      stmt_matches tab m (for_each_stmt (block_stmt b))
      ++ (expr_matches tab m (for_each_expr_in_block (some b)) ++ block_matches tab m bs)

  unfoldable pub check_match_exhaustiveness : SymbolTable Decl → Text → Decl → List Report
  unfolding block_matches
  check_match_exhaustiveness tab m d = block_matches tab m (decl_blocks d)

unfoldable pub nop_reports : List Expr → Text → List Report
unfolding is_ident
nop_reports [] ctx = []
nop_reports (e ∷ es) ctx =
    let rest = nop_reports es ctx in
    if is_ident e (codes "Nop")
    then record {
      pos = expr_pos e;
      msg = codes "`Nop` é proibido em " ++ (ctx ++ codes ": toda ação deve ter efeito (§3.1)");
    }
      ∷ rest
    else rest

-- `checkNop`
unfoldable pub check_nop : Option Block → Text → List Report
unfolding nop_reports for_each_expr_in_block
check_nop b ctx = nop_reports (for_each_expr_in_block b) ctx

abbrev pub break_outside : Bool → Text
break_outside true = codes "`break all` fora de um for não é permitido (§3.3)"
break_outside false = codes "`break` fora de um for não é permitido (§3.3)"

abbrev pub continue_outside : Text
continue_outside = codes "`continue` fora de um for não é permitido (§3.3)"

abbrev pub unless : Bool → Report → List Report
unless true r = []
unless false r = r ∷ []

-- `checkLoopControl`
unfoldable mutual
  pub check_loop_control : Stmt → Bool → List Report
  check_loop_control (block_stmt b) in_for = check_loop_block b in_for
  check_loop_control (for_stmt s v i b) in_for = check_loop_block b true
  check_loop_control (ensure_stmt s c e) in_for = check_loop_control e in_for
  check_loop_control (match_stmt s x as') in_for = check_loop_arms as' in_for
  check_loop_control (break_stmt s all) in_for =
      unless in_for (record { pos = s.start; msg = break_outside all })
  check_loop_control (continue_stmt s) in_for =
      unless in_for (record { pos = s.start; msg = continue_outside })
  check_loop_control _ in_for = []

  pub check_loop_block : Block → Bool → List Report
  check_loop_block (block s ss) in_for = check_loop_stmts ss in_for

  pub check_loop_stmts : Stmts → Bool → List Report
  check_loop_stmts no_stmts in_for = []
  check_loop_stmts (stmt_cons s ss) in_for =
      check_loop_control s in_for ++ check_loop_stmts ss in_for

  pub check_loop_arms : StmtArms → Bool → List Report
  check_loop_arms no_stmt_arms in_for = []
  check_loop_arms (stmt_arm ps g b as') in_for =
      check_loop_control b in_for ++ check_loop_arms as' in_for

-- The loop of `checkLoopControlDecl` over the bodies.
unfoldable pub check_loop_blocks : List Block → List Report
unfolding check_loop_control
check_loop_blocks [] = []
check_loop_blocks (b ∷ bs) = check_loop_control (block_stmt b) false ++ check_loop_blocks bs

unfoldable pub check_loop_control_decl : Decl → List Report
unfolding check_loop_blocks
check_loop_control_decl d = check_loop_blocks (decl_blocks d)
