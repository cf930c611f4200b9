-- ===== src/Parser/Statements.antt =====
-- parser/parse_stmt.go: the grammar of statements.
use domainscript.Prelude.{
  ℕ, zero, suc, Bool, true, false, not, ◌&&◌, ◌||◌, none, some, List, [], ◌∷◌, Text, codes, text_eq,
  ◌==◌, if◌then◌else◌, ◌>>=◌,
}
use domainscript.Token.{
  kind_eq, ident, string, lbrace, rbrace, assign, ensure, else_kw, match, for, in_kw, log, emit,
  return, break, continue,
}
use domainscript.Ast.{
  Expr, absent, Stmt, Block, Stmts, StmtArms, no_stmt, block_stmt, expr_stmt, assign_stmt,
  ensure_stmt, return_stmt, for_stmt, log_stmt, emit_stmt, break_stmt, continue_stmt, match_stmt,
  block, no_stmts, stmt_cons, no_stmt_arms, stmt_arm,
}
use domainscript.Parser.Cursor.{
  Parser, count, cur, at, at_end, at_fat_arrow, advance, expect, ensure_progress, span_from,
  parse_ident_name,
}
use domainscript.Parser.Operands.{Parse, parse_match_arm_head}
use domainscript.Parser.Expressions.{parse_expr, parse_or, parse_postfix, parse_unary}

-- The word `all` behind `break`.
unfoldable pub parse_all : Parser → Bool × Parser
unfolding advance
parse_all p = if at ident p && (cur p).lit == codes "all" then (true, advance p) else (false, p)

unfoldable pub parse_loop_control : Parser → Stmt × Parser
unfolding advance expect parse_all
parse_loop_control p =
    let start = (cur p).pos in
    let all = parse_all (expect break p).1 in
    if at continue p
    then (continue_stmt (span_from start (advance p)), advance p)
    else (break_stmt (span_from start all.1) all.0, all.1)

unfoldable pub parse_ensure_action : Parse Stmt
unfolding parse_loop_control parse_expr
parse_ensure_action p =
    let action = parse_expr p >>= λ (x, q). some (expr_stmt (span_from (cur p).pos q) x, q) in
    if at break p || at continue p then some (parse_loop_control p) else action

-- The action of `ensure`, where `else` is there.
unfoldable pub parse_else : Parse Stmt
unfolding expect parse_ensure_action
parse_else p =
    let e = expect else_kw p in if e.0 then parse_ensure_action e.1 else some (no_stmt, e.1)

unfoldable pub parse_ensure : Parse Stmt
unfolding expect parse_expr parse_else
parse_ensure p = parse_expr (expect ensure p).1 >>= λ (cond, q).
    parse_else q >>= λ (els, r). some (ensure_stmt (span_from (cur p).pos r) cond els, r)

-- An expression, where the test holds.
unfoldable pub parse_if : Bool → Parse Expr
unfolding parse_expr
parse_if b p = if b then parse_expr p else some (absent, p)

unfoldable pub parse_return : Parse Stmt
unfolding expect parse_if
parse_return p =
    let q = (expect return p).1 in
    parse_if (not (at rbrace q) && not (at_end q)) q >>= λ (val, r).
    some (return_stmt (span_from (cur p).pos r) val, r)

-- The loop of `parseLogFields`.
unfoldable pub field_loop : ℕ → Parse (List (Text × Expr))
unfolding parse_ident_name expect parse_expr ensure_progress
field_loop zero p = none
field_loop (suc f) p =
    let name = parse_ident_name p in
    let some_more = parse_expr (expect assign name.1).1 >>= λ (val, q).
    field_loop f (ensure_progress p.pos q) >>= λ (fields, r). some ((name.0, val) ∷ fields, r) in
    if not (at rbrace p) && not (at_end p) then some_more else some ([], p)

unfoldable pub parse_log_fields : Parse (List (Text × Expr))
unfolding expect field_loop
parse_log_fields p =
    let q = (expect lbrace p).1 in
    field_loop (suc (count q.ahead)) q >>= λ (fields, r). some (fields, (expect rbrace r).1)

-- The level of a log, if there is one.
unfoldable pub parse_level : Parser → Text × Parser
unfolding advance
parse_level p = if at ident p then ((cur p).lit, advance p) else ([], p)

unfoldable pub parse_log : Parse Stmt
unfolding expect parse_level parse_if parse_log_fields
parse_log p =
    let level = parse_level (expect log p).1 in
    parse_if (at string level.1) level.1 >>= λ (msg, q).
    let with_fields = parse_log_fields q >>= λ (fields, r).
    some (log_stmt (span_from (cur p).pos r) level.0 msg fields, r) in
    if at lbrace q then with_fields else some (log_stmt (span_from (cur p).pos q) level.0 msg [], q)

unfoldable pub parse_emit : Parse Stmt
unfolding expect parse_expr
parse_emit p =
    parse_expr (expect emit p).1 >>= λ (x, q). some (emit_stmt (span_from (cur p).pos q) x, q)

unfoldable pub parse_simple_stmt : Parse Stmt
unfolding advance parse_expr
parse_simple_stmt p = parse_expr p >>= λ (x, q).
    let assigned = parse_expr (advance q) >>= λ (val, r).
    some (assign_stmt (span_from (cur p).pos r) x val, r) in
    if at assign q && not (at_fat_arrow q)
    then assigned
    else some (expr_stmt (span_from (cur p).pos q) x, q)

-- The statements that hold statements, with the call of `parseStmt` on fewer tokens.
module _ (parse_stmt : Parse Stmt) where
  -- The loop of `parseBlock`.
  unfoldable pub stmt_loop : ℕ → Parse Stmts
  unfolding ensure_progress
  stmt_loop zero p = none
  stmt_loop (suc f) p =
      let some_more = parse_stmt p >>= λ (s, q).
      stmt_loop f (ensure_progress p.pos q) >>= λ (ss, r). some (stmt_cons s ss, r) in
      if not (at rbrace p) && not (at_end p) then some_more else some (no_stmts, p)

  -- `parseBlock`, and what is left of it behind the brace that `q` has come to.
  unfoldable pub block_from : Parser → Parse Block
  unfolding expect stmt_loop
  block_from p q = stmt_loop (suc (count q.ahead)) q >>= λ (ss, r).
      let end = (expect rbrace r).1 in some (block (span_from (cur p).pos end) ss, end)

  unfoldable pub parse_block : Parse Block
  unfolding expect block_from
  parse_block p = block_from p (expect lbrace p).1

  unfoldable pub parse_for : Parse Stmt
  unfolding expect parse_ident_name parse_expr parse_block
  parse_for p =
      let v = parse_ident_name (expect for p).1 in
      parse_expr (expect in_kw v.1).1 >>= λ (iter, q).
      parse_block q >>= λ (body, r). some (for_stmt (span_from (cur p).pos r) v.0 iter body, r)

  -- The loop of `parseMatchStmt`.
  unfoldable pub stmt_arm_loop : ℕ → Parse StmtArms
  unfolding parse_match_arm_head ensure_progress parse_expr parse_or parse_postfix parse_unary
  stmt_arm_loop zero p = none
  stmt_arm_loop (suc f) p =
      let some_more =
        parse_match_arm_head parse_expr parse_or parse_postfix parse_unary p >>= λ (h, q).
        parse_stmt q >>= λ (body, r). stmt_arm_loop f (ensure_progress p.pos r) >>= λ (arms, s).
        some (stmt_arm h.0 h.1 body arms, s) in
      if not (at rbrace p) && not (at_end p) then some_more else some (no_stmt_arms, p)

  unfoldable pub parse_match_stmt : Parse Stmt
  unfolding expect parse_expr stmt_arm_loop
  parse_match_stmt p = parse_expr (expect match p).1 >>= λ (subject, q).
      let open' = (expect lbrace q).1 in
      stmt_arm_loop (suc (count open'.ahead)) open' >>= λ (arms, r).
      let end = (expect rbrace r).1 in
      some (match_stmt (span_from (cur p).pos end) subject arms, end)

  -- `parseStmt`
  unfoldable pub stmt_level : Parse Stmt
  unfolding parse_match_stmt parse_ensure parse_return parse_for parse_log parse_emit
      parse_loop_control parse_block parse_simple_stmt
  stmt_level p =
      if at match p
      then parse_match_stmt p
      else if at ensure p
      then parse_ensure p
      else if at return p
      then parse_return p
      else if at for p
      then parse_for p
      else if at log p
      then parse_log p
      else if at emit p
      then parse_emit p
      else if at break p || at continue p
      then some (parse_loop_control p)
      else if at lbrace p
      then (parse_block p >>= λ (b, q). some (block_stmt b, q))
      else parse_simple_stmt p

unfoldable pub stmt_grammar : ℕ → Parse Stmt
unfolding stmt_level
stmt_grammar zero p = none
stmt_grammar (suc n) p = stmt_level (stmt_grammar n) p

-- `parseStmt`, with a level for each token that is left, and one more.
unfoldable pub parse_stmt : Parse Stmt
unfolding stmt_grammar
parse_stmt p = stmt_grammar (suc (count p.ahead)) p
