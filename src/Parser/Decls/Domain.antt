-- ===== src/Parser/Decls/Domain.antt =====
-- parser/parse_decl.go: value objects, enumerations, errors, events, commands and notifications.
use domainscript.Prelude.{ℕ, none, some, [], text_eq, if◌then◌else◌}
use domainscript.Token.{
  kind_eq, lparen, rparen, colon, assign, arrow, valueobject, enum, error, publicevent, command,
  notification,
}
use domainscript.Ast.{Expr, absent, nowhere}
use domainscript.Ast.Decls.{OperatorDecl, ValueObjectDecl, EnumMember, CoerceBlock, EnumDecl}
use domainscript.Ast.Files.{Decl}
use domainscript.Parser.Cursor.{at, expect, parse_ident_name}
use domainscript.Parser.Operands.{Parse}
use domainscript.Parser.Expressions.{parse_expr}
use domainscript.Parser.Sequence.{
  pure, run, gets, ◌⟶◌∣◌, ◌>>=◌, ◌>>◌, mark, close_span, skip, take_kind, at_ident_lit, skip_word,
  braces, append,
}
use domainscript.Parser.Sequence.Reads.{Reads, Reads-gets, read_rules}
use domainscript.Parser.Decls.Fields.{
  parse_type_ref, parse_type_ref-Reads, parse_body, parse_body-Reads, parse_field,
  parse_field-Reads, parse_field_block, parse_field_block-Reads, parse_param_list,
  parse_param_list-Reads,
}

unfoldable pub parse_operator : Parse OperatorDecl
unfolding mark skip take_kind parse_param_list run expect parse_type_ref parse_body close_span pure
    ◌>>=◌
parse_operator = do
  start ← mark
  skip
  op ← take_kind
  params ← parse_param_list
  run (expect arrow)
  ret ← parse_type_ref
  body ← parse_body
  span ← close_span start
  pure (record { span = span; op = op; params = params; return = ret; body = body })

parse_operator-Reads : {n : ℕ} → Reads n parse_operator
unfolding parse_operator
parse_operator-Reads =
    search (read_rules, parse_param_list-Reads, parse_type_ref-Reads, parse_body-Reads) depth 40

-- The body of the loop of `parseValueObject`.
unfoldable pub value_object_member : ValueObjectDecl → Parse ValueObjectDecl
unfolding skip parse_body parse_operator parse_field pure ◌⟶◌∣◌ ◌>>=◌
value_object_member d =
    at_ident_lit "Valid"
    ⟶ (do skip; b ← parse_body; pure (record d { valid = some b })) ∣ at_ident_lit "Operator"
    ⟶ (do o ← parse_operator; pure (record d { operators = append d.operators o })) ∣ (do
      f ← parse_field
      pure (record d { fields = append d.fields f }))

value_object_member-Reads : {n : ℕ} (d : ValueObjectDecl) → Reads n (value_object_member d)
unfolding value_object_member
value_object_member-Reads d =
    search (read_rules, parse_body-Reads, parse_operator-Reads, parse_field-Reads) depth 40

unfoldable pub parse_value_object : Parse Decl
unfolding mark run expect parse_ident_name skip parse_type_ref braces value_object_member close_span
    pure ◌⟶◌∣◌ ◌>>=◌
parse_value_object = do
  start ← mark
  run (expect valueobject)
  name ← run parse_ident_name
  base ← at lparen ⟶ (do skip; t ← parse_type_ref; run (expect rparen); pure (some t)) ∣ pure none
  d ← braces value_object_member (record {
    span = nowhere;
    name = name;
    base = base;
    fields = [];
    valid = none;
    operators = [];
  })
  span ← close_span start
  pure (Decl.value_object (record d { span = span }))

unfoldable pub parse_enum_member : Parse EnumMember
unfolding mark run parse_ident_name expect parse_expr close_span pure ◌>>=◌
parse_enum_member = do
  start ← mark
  name ← run parse_ident_name
  found ← run (expect assign)
  val ← if found then parse_expr else pure absent
  span ← close_span start
  pure (record { span = span; name = name; value = val })

unfoldable pub parse_coerce : Parse CoerceBlock
unfolding mark skip skip_word parse_type_ref parse_body close_span pure ◌>>=◌
parse_coerce = do
  start ← mark
  skip
  skip_word "from"
  from ← parse_type_ref
  body ← parse_body
  span ← close_span start
  pure (record { span = span; from = from; body = body })

parse_coerce-Reads : {n : ℕ} → Reads n parse_coerce
unfolding parse_coerce
parse_coerce-Reads = search (read_rules, parse_type_ref-Reads, parse_body-Reads) depth 40

parse_enum_member-Reads : {n : ℕ} → Reads n parse_enum_member
unfolding parse_enum_member
parse_enum_member-Reads = search read_rules depth 40

-- The body of the loop of `parseEnum`.
unfoldable pub enum_item : EnumDecl → Parse EnumDecl
unfolding parse_coerce parse_enum_member pure ◌⟶◌∣◌ ◌>>=◌
enum_item d =
    at_ident_lit "coerce" ⟶ (do c ← parse_coerce; pure (record d { coerce = some c })) ∣ (do
      m ← parse_enum_member
      pure (record d { members = append d.members m }))

enum_item-Reads : {n : ℕ} (d : EnumDecl) → Reads n (enum_item d)
unfolding enum_item
enum_item-Reads d = search (read_rules, parse_coerce-Reads, parse_enum_member-Reads) depth 40

unfoldable pub parse_enum : Parse Decl
unfolding mark run expect parse_ident_name skip parse_type_ref braces enum_item close_span pure
    ◌⟶◌∣◌ ◌>>=◌
parse_enum = do
  start ← mark
  run (expect enum)
  name ← run parse_ident_name
  base ← at colon ⟶ (do skip; t ← parse_type_ref; pure (some t)) ∣ pure none
  d ←
      braces enum_item
        (record { span = nowhere; name = name; base = base; members = []; coerce = none })
  span ← close_span start
  pure (Decl.enum (record d { span = span }))

-- The body of the loop of `parseErrorType`: what is not the message is dropped.
unfoldable pub error_item : Expr → Parse Expr
unfolding skip parse_expr pure ◌⟶◌∣◌ ◌>>=◌
error_item msg = at_ident_lit "message" ⟶ (do skip; parse_expr) ∣ (do skip; pure msg)

error_item-Reads : {n : ℕ} (msg : Expr) → Reads n (error_item msg)
unfolding error_item
error_item-Reads msg = search read_rules depth 40

unfoldable pub parse_error_type : Parse Decl
unfolding mark run expect parse_ident_name braces error_item close_span pure ◌>>=◌
parse_error_type = do
  start ← mark
  run (expect error)
  name ← run parse_ident_name
  msg ← braces error_item absent
  span ← close_span start
  pure (Decl.error_type (record { span = span; name = name; message = msg }))

unfoldable pub parse_event : Parse Decl
unfolding mark gets skip run parse_ident_name parse_field_block close_span pure ◌>>=◌
parse_event = do
  start ← mark
  public ← gets (at publicevent)
  skip
  name ← run parse_ident_name
  fields ← parse_field_block
  span ← close_span start
  pure (Decl.event (record { span = span; name = name; public = public; fields = fields }))

unfoldable pub parse_command : Parse Decl
unfolding mark run expect parse_ident_name parse_field_block close_span pure ◌>>=◌
parse_command = do
  start ← mark
  run (expect command)
  name ← run parse_ident_name
  fields ← parse_field_block
  span ← close_span start
  pure (Decl.command (record { span = span; name = name; fields = fields }))

unfoldable pub parse_notification : Parse Decl
unfolding mark run expect parse_ident_name parse_field_block close_span pure ◌>>=◌
parse_notification = do
  start ← mark
  run (expect notification)
  name ← run parse_ident_name
  fields ← parse_field_block
  span ← close_span start
  pure (Decl.notification (record { span = span; name = name; fields = fields }))

module _ {n : ℕ} where
  pub parse_value_object-Reads : Reads n parse_value_object
  unfolding parse_value_object
  parse_value_object-Reads =
      search (read_rules, parse_type_ref-Reads, value_object_member-Reads) depth 40

  pub parse_enum-Reads : Reads n parse_enum
  unfolding parse_enum
  parse_enum-Reads = search (read_rules, parse_type_ref-Reads, enum_item-Reads) depth 40

  pub parse_error_type-Reads : Reads n parse_error_type
  unfolding parse_error_type
  parse_error_type-Reads = search (read_rules, error_item-Reads) depth 40

  pub parse_event-Reads : Reads n parse_event
  unfolding parse_event
  parse_event-Reads = search (read_rules, Reads-gets, parse_field_block-Reads) depth 40

  pub parse_command-Reads : Reads n parse_command
  unfolding parse_command
  parse_command-Reads = search (read_rules, parse_field_block-Reads) depth 40

  pub parse_notification-Reads : Reads n parse_notification
  unfolding parse_notification
  parse_notification-Reads = search (read_rules, parse_field_block-Reads) depth 40
